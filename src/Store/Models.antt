-- ===== src/Store/Models.antt =====
-- internal/store/models.go: the rows; those of sign-in and pushes stand in Sessions. A UUID is a number and 0 is the nil UUID; a nullable column is
-- an `Option`; a time is a number of nanoseconds since Go's zero time. The `status` columns hold
-- the texts that the program writes, here as data types. Amounts are positive by the CHECK
-- constraints of the migrations, so they are natural numbers. Columns that no modelled operation
-- reads are left out: the BIGSERIAL ids and the metadata of ledger entries, the IP and the user agent of audit events.
pub mod Sessions
use echopay.Common.{ℕ, Bool, true, false, Option, none, some, List, String, str_eq}

-- the vocabulary of `payments.status`
pub data PaymentStatus : Type 0 where
  initiated debiting transferring settling held settled failed refunded : PaymentStatus

-- the vocabulary of `tokens.status`
pub data TokenStatus : Type 0 where
  created claimed settled failed expired : TokenStatus

-- the vocabulary of `mandates.status`
pub data MandateStatus : Type 0 where
  active revoked : MandateStatus

-- the vocabulary of `ledger_entries.side`
pub data Side : Type 0 where
  debit credit : Side

-- a status that Paystack reports; `other` is any other text
pub data PaystackStatus : Type 0 where
  success failed reversed : PaystackStatus
  other : String → PaystackStatus

-- the vocabulary of `users.status`
pub data UserStatus : Type 0 where
  active locked suspended : UserStatus

pub record User : Type 0 where
  pub id : ℕ
  pub phone : String
  pub full_name : Option String
  pub bvn_hash : Option String
  pub date_of_birth : Option ℕ
  pub kyc_tier : ℕ
  pub kyc_status : String
  pub nuban : Option String
  pub bank_code : Option String
  pub account_name : Option String
  pub per_tx_limit_kobo : ℕ
  pub per_day_limit_kobo : ℕ
  pub status : UserStatus
  pub created_at : ℕ
  pub updated_at : ℕ

pub record Mandate : Type 0 where
  pub id : ℕ
  pub user_id : ℕ
  pub authorization_code : String
  pub bank_name : String
  pub bank_code : Option String
  pub last4 : String
  pub channel : String
  pub reusable : Bool
  pub status : MandateStatus
  pub is_default : Bool
  pub created_at : ℕ
  pub revoked_at : Option ℕ

pub record Token : Type 0 where
  pub id : ℕ
  pub code : String
  pub issued_by_user_id : ℕ
  pub amount_kobo : ℕ
  pub note : Option String
  pub status : TokenStatus
  pub claimed_by_user_id : Option ℕ
  pub claimed_at : Option ℕ
  pub expires_at : ℕ
  pub settled_payment_id : Option ℕ
  pub created_at : ℕ
  pub updated_at : ℕ

pub record Payment : Type 0 where
  pub id : ℕ
  pub token_id : Option ℕ
  pub sender_user_id : ℕ
  pub receiver_user_id : ℕ
  pub sender_mandate_id : ℕ
  pub amount_kobo : ℕ
  pub idempotency_key : String
  pub charge_reference : Option String
  pub charge_status : Option PaystackStatus
  pub transfer_reference : Option String
  pub transfer_status : Option PaystackStatus
  pub status : PaymentStatus
  pub failure_reason : Option String
  pub created_at : ℕ
  pub updated_at : ℕ
  pub settled_at : Option ℕ
  pub refunds_payment_id : Option ℕ
  pub auto_refund_reference : Option String
  pub hold_expires_at : Option ℕ

pub record LedgerEntry : Type 0 where
  pub payment_id : ℕ
  pub user_id : ℕ
  pub side : Side
  pub amount_kobo : ℕ
  pub reference : String
  pub created_at : ℕ

pub record TrustedMerchant : Type 0 where
  pub id : ℕ
  pub user_id : ℕ
  pub merchant_user_id : ℕ
  pub per_tx_cap_kobo : ℕ
  pub label : Option String
  pub created_at : ℕ
  pub updated_at : ℕ

-- a value of the JSON object in `metadata`
pub data Meta : Type 0 where
  number : ℕ → Meta
  text : String → Meta
  flag : Bool → Meta

pub record AuditEvent : Type 0 where
  pub user_id : ℕ
  pub actor_user_id : Option ℕ
  pub action : String
  pub target_type : Option String
  pub target_id : Option String
  pub created_at : ℕ
  pub metadata : List (String × Meta)

pub record PendingLimitChange : Type 0 where
  pub id : ℕ
  pub user_id : ℕ
  pub per_tx_limit_kobo : ℕ
  pub per_day_limit_kobo : ℕ
  pub applies_at : ℕ
  pub applied_at : Option ℕ
  pub cancelled_at : Option ℕ
  pub created_at : ℕ

-- `a == b` on the texts of `payments.status`
abbrev pub same_status : PaymentStatus → PaymentStatus → Bool
same_status PaymentStatus.initiated PaymentStatus.initiated = true
same_status PaymentStatus.debiting PaymentStatus.debiting = true
same_status PaymentStatus.transferring PaymentStatus.transferring = true
same_status PaymentStatus.settling PaymentStatus.settling = true
same_status PaymentStatus.held PaymentStatus.held = true
same_status PaymentStatus.settled PaymentStatus.settled = true
same_status PaymentStatus.failed PaymentStatus.failed = true
same_status PaymentStatus.refunded PaymentStatus.refunded = true
same_status _ _ = false

abbrev pub is_created : TokenStatus → Bool
is_created TokenStatus.created = true
is_created _ = false

abbrev pub is_active : MandateStatus → Bool
is_active MandateStatus.active = true
is_active MandateStatus.revoked = false

abbrev pub is_success : PaystackStatus → Bool
is_success PaystackStatus.success = true
is_success _ = false

abbrev pub is_failed : PaystackStatus → Bool
is_failed PaystackStatus.failed = true
is_failed _ = false

abbrev pub status_text : PaystackStatus → String
status_text PaystackStatus.success = "success"
status_text PaystackStatus.failed = "failed"
status_text PaystackStatus.reversed = "reversed"
status_text (PaystackStatus.other s) = s

-- the field is NULL or the empty text
abbrev pub is_blank : Option String → Bool
is_blank none = true
is_blank (some s) = str_eq s ""
