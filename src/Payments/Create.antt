-- ===== src/Payments/Create.antt =====
-- internal/payments/service.go: Create and Refund.
pub mod PayToken
pub mod Bought
pub mod Parts
pub mod Repaid
pub mod Repeat
use echopay.Common.{
  ℕ, ◌<◌, Bool, not, ◌&&◌, Option, none, some, ℤ, pos, pos_part, is_positive, leb, ◌==◌,
  if◌then◌else◌,
}
use echopay.Store.Models.{User, Mandate, Token, Payment, PaymentStatus, same_status}
use echopay.Store.Payments.{create_payment, get_payment_by_id}
use echopay.Store.Tokens.{mark_token_failed}
use echopay.Store.Users.{get_user_by_id}
use echopay.World.{failure, receiver_no_bank, not_receiver, original_not_settled, refund_too_large}
use echopay.Action.{
  Action, pure, raise, ◌>>=◌, ◌>>◌, handle, within, rows_or, ignore, require, or_else,
}
use echopay.Tokens.{claim}
use echopay.Payments.Types.{CreateRequest, RefundRequest, Receipt}
use echopay.Payments.Checks.{idempotent_return, validated_mandate, has_bank_details, enforce_limits}
use echopay.Payments.Orchestrate.{orchestrate}
use echopay.Payments.Hold.{orchestrate_held}

-- `if err := m(); err != nil { _, _ = MarkTokenFailed(tok.ID); return err }`
unfoldable pub or_fail_token : ℕ → Action (Unit {0}) → Action (Unit {0})
or_fail_token id m = handle m λ e. ignore (mark_token_failed id) >> raise e

-- the payment that a fresh call makes once the token is claimed
unfoldable pub pay_token : CreateRequest → User → Mandate → Token → Action Payment
pay_token req sender mandate tok = do
  receiver ← within "load receiver" (get_user_by_id tok.issued_by_user_id)
  or_fail_token tok.id (require (has_bank_details receiver) receiver_no_bank)
  or_fail_token tok.id (enforce_limits sender receiver.id tok.amount_kobo)
  payment ← within "create payment" (
      create_payment (record {
        token_id = some tok.id;
        sender_user_id = req.sender_user_id;
        receiver_user_id = tok.issued_by_user_id;
        sender_mandate_id = req.mandate_id;
        amount_kobo = pos tok.amount_kobo;
        idempotency_key = req.idempotency_key;
        refunds_payment_id = none;
      }))
  if is_positive req.undo_window
      then orchestrate_held payment sender receiver mandate (some tok) (pos_part req.undo_window)
      else orchestrate payment sender receiver mandate (some tok)

unfoldable pub create_fresh : CreateRequest → Action Receipt
create_fresh req = do
  sender ← within "load sender" (get_user_by_id req.sender_user_id)
  mandate ← validated_mandate req.mandate_id req.sender_user_id
  tok ← claim req.token_code req.sender_user_id
  payment ← pay_token req sender mandate tok
  pure (record { payment = payment; token = some tok })

-- `Create`
unfoldable pub create : CreateRequest → Action Receipt
create req = do
  existing ← idempotent_return req.idempotency_key
  or_else existing (create_fresh req)

-- `req.AmountKobo <= 0 || req.AmountKobo > original.AmountKobo`, negated
abbrev pub is_refundable_amount : ℤ → ℕ → Bool
is_refundable_amount amount original = is_positive amount && leb (pos_part amount) original

-- the payment back to the original sender
unfoldable pub pay_back : RefundRequest → Payment → User → User → Mandate → Action Receipt
pay_back req original refunder original_sender mandate = do
  require (has_bank_details original_sender) receiver_no_bank
  enforce_limits refunder original_sender.id (pos_part req.amount_kobo)
  payment ← within "create refund payment" (
      create_payment (record {
        token_id = none;
        sender_user_id = req.refunder_user_id;
        receiver_user_id = original.sender_user_id;
        sender_mandate_id = req.mandate_id;
        amount_kobo = req.amount_kobo;
        idempotency_key = req.idempotency_key;
        refunds_payment_id = some req.original_payment_id;
      }))
  settled ← orchestrate payment refunder original_sender mandate none
  pure (record { payment = settled; token = none })

unfoldable pub refund_fresh : RefundRequest → Action Receipt
refund_fresh req = do
  original ←
      rows_or (failure "original payment not found") "load original"
        (get_payment_by_id req.original_payment_id)
  require (original.receiver_user_id == req.refunder_user_id) not_receiver
  require (same_status original.status PaymentStatus.settled) original_not_settled
  require (is_refundable_amount req.amount_kobo original.amount_kobo) refund_too_large
  mandate ← validated_mandate req.mandate_id req.refunder_user_id
  refunder ← within "load refunder" (get_user_by_id req.refunder_user_id)
  original_sender ← within "load original sender" (get_user_by_id original.sender_user_id)
  pay_back req original refunder original_sender mandate

-- `Refund`
unfoldable pub refund : RefundRequest → Action Receipt
refund req = do
  existing ← idempotent_return req.idempotency_key
  or_else existing (refund_fresh req)
