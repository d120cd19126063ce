-- ===== src/World.antt =====
-- What the services share: the errors, the state of the database and of the process, and the
-- environment (clock, database faults, fresh UUIDs, Paystack). A service call is a state passing
-- action that may fail; what it wrote before a failure stays written, since the program opens no
-- transaction.
use Prim.Native.String.{◌++◌}
use echopay.Common.{ℕ, String, Bool, true, false, Option, List, Bytes}
use echopay.Codec.{Codec}
use echopay.Store.Models.{
  User, Mandate, Token, Payment, LedgerEntry, TrustedMerchant, AuditEvent, PendingLimitChange,
}
use echopay.Store.Models.Sessions.{OtpRequest, DeviceSession, PushToken}
use echopay.Paystack.{
  ChargeAuthorizationRequest, ChargeAuthorizationResponse, VerifyResponse, CreateRecipientRequest,
  Recipient, TransferRequest, Transfer, RefundRequest, Refund, InitializeRequest,
  InitializeResponse, ResolveAccountResponse,
}

-- Go's `error`: `no_rows` is pgx.ErrNoRows, `failure` an error that is only a text, `wrapped` is
-- fmt.Errorf("…: %w"), and the others are the sentinels of the packages.
pub data Error : Type 0 where
  no_rows : Error
  failure : String → Error
  wrapped : String → Error → Error
  token_not_found token_claimed self_claim : Error
  tx_limit_exceeded daily_limit_exceeded mandate_not_active mandate_not_owned : Error
  receiver_no_bank not_receiver refund_too_large original_not_settled : Error
  not_sender undo_window_closed undo_unavailable : Error
  limits_invalid self_trust : Error
  otp_not_found otp_expired otp_max_attempts otp_invalid : Error
  charge_not_successful authorization_not_reusable : Error
  invalid_bvn invalid_dob bvn_mismatch bvn_not_found provider_failed : Error

-- errors.Is(err, pgx.ErrNoRows)
abbrev pub is_no_rows : Error → Bool
is_no_rows no_rows = true
is_no_rows (wrapped s e) = is_no_rows e
is_no_rows _ = false

-- err.Error()
abbrev pub error_text : Error → String
error_text no_rows = "no rows in result set"
error_text (failure s) = s
error_text (wrapped s e) = s ++ (": " ++ error_text e)
error_text token_not_found = "token not found or expired"
error_text token_claimed = "token already claimed"
error_text self_claim = "cannot claim your own token"
error_text tx_limit_exceeded = "amount exceeds per-transaction limit"
error_text daily_limit_exceeded = "amount exceeds 24h limit"
error_text mandate_not_active = "sender mandate not active"
error_text mandate_not_owned = "mandate not owned by sender"
error_text receiver_no_bank = "receiver has no NUBAN configured"
error_text not_receiver = "only the original receiver can refund"
error_text refund_too_large = "refund amount exceeds original payment"
error_text original_not_settled = "can only refund settled payments"
error_text not_sender = "only the sender can undo"
error_text undo_window_closed = "undo window has expired"
error_text undo_unavailable = "payment is not in an undoable state"
error_text limits_invalid = "per-tx limit cannot exceed daily limit"
error_text self_trust = "cannot mark yourself as a trusted merchant"
error_text otp_not_found = "no active OTP request for this phone"
error_text otp_expired = "OTP expired"
error_text otp_max_attempts = "too many attempts"
error_text otp_invalid = "invalid OTP"
error_text charge_not_successful = "paystack charge was not successful"
error_text authorization_not_reusable = "paystack returned a non-reusable authorization"
error_text invalid_bvn = "BVN must be 11 digits"
error_text invalid_dob = "invalid date of birth"
error_text bvn_mismatch = "BVN doesn't match the supplied name or DOB"
error_text bvn_not_found = "BVN not found"
error_text provider_failed = "identity provider failed"

pub data Result {ℓ} (A : Type ℓ) : Type ℓ where
  ok : A → Result A
  err : Error → Result A

-- A request that was sent to Paystack, with the answer that came back.
pub data Exchange : Type 0 where
  charged : ChargeAuthorizationRequest → Result ChargeAuthorizationResponse → Exchange
  recipient_made : CreateRecipientRequest → Result Recipient → Exchange
  transferred : TransferRequest → Result Transfer → Exchange
  refunded : RefundRequest → Result Refund → Exchange
  initialized : InitializeRequest → Result InitializeResponse → Exchange

-- What a push says: of a payment the sender's name, the amount as it is written and the payment's
-- id; of a sign-in the device and the session's id.
pub data Alert : Type 0 where
  payment_received : String → Bytes → ℕ → Alert
  account_locked : Alert
  new_device : String → ℕ → Alert

-- A message to Firebase, for one device.
pub record Push : Type 0 where
  pub fcm_token : String
  pub alert : Alert

-- An error of Firebase: whether messaging.IsRegistrationTokenNotRegistered holds, and its text.
pub record PushError : Type 0 where
  pub not_registered : Bool
  pub text : Bytes

-- An in-process timer of `holdTimers`: the payment's id, and when it fires.
pub record HoldTimer : Type 0 where
  pub payment_id : ℕ
  pub fires_at : ℕ

-- The tables, newest row first, the timers, and a log of what went out. `turn` counts the reads of
-- the clock and the calls of the database and of Paystack: the environment answers by it.
pub record World : Type 0 where
  pub turn : ℕ
  pub users : List User
  pub mandates : List Mandate
  pub tokens : List Token
  pub payments : List Payment
  pub ledger_entries : List LedgerEntry
  pub trusted_merchants : List TrustedMerchant
  pub pending_limits : List PendingLimitChange
  pub audit_events : List AuditEvent
  pub hold_timers : List HoldTimer
  pub exchanges : List Exchange
  pub otp_requests : List OtpRequest
  pub device_sessions : List DeviceSession
  pub push_tokens : List PushToken
  pub pushes : List Push

-- What the program does not implement: the clock, which database calls fail and with what text,
-- gen_random_uuid() and the text of a UUID, the answers of Paystack and of Firebase, crypto/rand,
-- bcrypt and the encodings of a JWT; and what is configured: whether pushes are sent, whether the
-- server is in dev mode, and how long a JWT lasts.
pub record Env : Type 0 where
  pub time : ℕ → ℕ
  pub database_fault : ℕ → Option String
  pub random_uuid : ℕ → ℕ
  pub uuid_text : ℕ → String
  pub charge_authorization : ℕ → ChargeAuthorizationRequest → Result ChargeAuthorizationResponse
  pub create_recipient : ℕ → CreateRecipientRequest → Result Recipient
  pub initiate_transfer : ℕ → TransferRequest → Result Transfer
  pub verify_transfer : ℕ → String → Result Transfer
  pub verify_transaction : ℕ → String → Result VerifyResponse
  pub refund_charge : ℕ → RefundRequest → Result Refund
  pub initialize_transaction : ℕ → InitializeRequest → Result InitializeResponse
  pub resolve_account : ℕ → String → String → Result ResolveAccountResponse
  pub push_enabled : Bool
  pub send_push : ℕ → Push → Option PushError
  pub dev_mode : Bool
  pub random_bytes : ℕ → Result (ℕ × ℕ × ℕ × ℕ)
  pub hash_password : ℕ → Bytes → Result String
  pub password_matches : String → Bytes → Bool
  pub codec : Codec
  pub jwt_ttl : ℕ
