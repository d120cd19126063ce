-- ===== src/Payments/Undo.antt =====
-- internal/payments/service.go: `Undo`, the refund of a held payment's charge.
pub mod Final
pub mod Guards
use echopay.Common.{ℕ, String, Bool, true, false, not, Option, none, some, [], ◌∷◌, ltb, ◌==◌}
use echopay.Store.Models.{Payment, PaymentStatus, number, text, same_status, is_blank}
use echopay.Store.Payments.{get_payment_by_id, mark_payment_refunded}
use echopay.Store.Tokens.{mark_token_failed}
use echopay.Paystack.{RefundRequest, Refund}
use echopay.World.{Env, refunded, not_sender, undo_window_closed, undo_unavailable}
use echopay.Action.{
  Action, pure, now, send, uuid_string, ◌>>=◌, ◌>>◌, within, rows_or, ignore, require, on_some,
}
use echopay.Audit.{record_event}
use echopay.Payments.Types.{UndoRequest}
use echopay.Payments.Legs.{deref}
use echopay.Payments.Hold.{drop_timer}

-- ps.RefundCharge
unfoldable pub refund_charge : RefundRequest → Action Refund
refund_charge req = send (λ env n. env.refund_charge n req) (refunded req)

-- `!Valid || Before(now)`, negated
abbrev pub window_open : Option ℕ → ℕ → Bool
window_open none t = false
window_open (some expires) t = not (ltb expires t)

-- what follows once the payment is marked refunded
unfoldable pub complete_undo : ℕ → Payment → Action Payment
complete_undo id updated = do
  drop_timer id
  on_some updated.token_id (λ k. ignore (mark_token_failed k))
  payment_text ← uuid_string updated.id
  record_event (record {
    user_id = updated.sender_user_id;
    actor_id = updated.sender_user_id;
    action = "refund.issued";
    target_typ = "payment";
    target_id = payment_text;
    metadata = ("reason", text "undo") ∷ ("amount_kobo", number updated.amount_kobo) ∷ [];
  })
  pure updated

-- the refund request to Paystack, and what follows it
unfoldable pub issue_undo : ℕ → Payment → Action Payment
issue_undo id p = do
  refund ← within "paystack refund" (
      refund_charge (record {
        transaction = deref p.charge_reference "";
        amount = p.amount_kobo;
        merchant_note = "undo within window";
        customer_note = "EchoPay NG payment undone";
      }))
  updated ←
      rows_or undo_window_closed "mark refunded"
        (mark_payment_refunded p.id (some refund.reference) (some "undone within window"))
  complete_undo id updated

unfoldable pub undo : UndoRequest → Action Payment
undo req = do
  p ← within "load payment" (get_payment_by_id req.payment_id)
  require (p.sender_user_id == req.caller_id) not_sender
  require (same_status p.status PaymentStatus.held) undo_unavailable
  t ← now
  require (window_open p.hold_expires_at t) undo_window_closed
  require (not (is_blank p.charge_reference)) undo_unavailable
  issue_undo req.payment_id p
