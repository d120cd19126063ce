-- ===== src/Paystack.antt =====
-- internal/paystack/client.go: the requests and the answers of the Paystack API, as far as the
-- program reads them. The API itself is a parameter (`Env` of World.antt).
use echopay.Common.{ℕ, String, Bool, List}
use echopay.Store.Models.{PaystackStatus}

pub record ChargeAuthorizationRequest : Type 0 where
  pub email : String
  pub amount : ℕ
  pub authorization_code : String
  pub reference : String

pub record ChargeAuthorizationResponse : Type 0 where
  pub reference : String
  pub status : PaystackStatus
  pub gateway_resp : String

-- the authorization that a transaction leaves behind, for charging the payer again
pub record Authorization : Type 0 where
  pub authorization_code : String
  pub bin : String
  pub last4 : String
  pub bank : String
  pub channel : String
  pub reusable : Bool

pub record InitializeRequest : Type 0 where
  pub email : String
  pub amount : ℕ
  pub reference : String
  pub channels : List String

pub record InitializeResponse : Type 0 where
  pub authorization_url : String
  pub reference : String

pub record ResolveAccountResponse : Type 0 where
  pub account_number : String
  pub account_name : String

pub record VerifyResponse : Type 0 where
  pub reference : String
  pub status : PaystackStatus
  pub gateway_resp : String
  pub authorization : Authorization

pub record CreateRecipientRequest : Type 0 where
  pub name : String
  pub account_number : String
  pub bank_code : String

pub record Recipient : Type 0 where
  pub recipient_code : String

pub record TransferRequest : Type 0 where
  pub source : String
  pub amount : ℕ
  pub recipient : String
  pub reason : String
  pub reference : String

pub record Transfer : Type 0 where
  pub reference : String
  pub status : PaystackStatus

pub record RefundRequest : Type 0 where
  pub transaction : String
  pub amount : ℕ
  pub merchant_note : String
  pub customer_note : String

pub record Refund : Type 0 where
  pub reference : String
