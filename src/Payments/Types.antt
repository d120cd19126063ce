-- ===== src/Payments/Types.antt =====
-- internal/payments/service.go: the requests and the result.
use echopay.Common.{ℕ, String, Option, ℤ}
use echopay.Store.Models.{Payment, Token}

pub record CreateRequest : Type 0 where
  pub sender_user_id : ℕ
  pub token_code : String
  pub mandate_id : ℕ
  pub idempotency_key : String
  pub undo_window : ℤ

pub record RefundRequest : Type 0 where
  pub original_payment_id : ℕ
  pub refunder_user_id : ℕ
  pub mandate_id : ℕ
  pub amount_kobo : ℤ
  pub idempotency_key : String

-- `Result` of the package; `token` is nil for refunds
pub record Receipt : Type 0 where
  pub payment : Payment
  pub token : Option Token

pub record UndoRequest : Type 0 where
  pub payment_id : ℕ
  pub caller_id : ℕ
