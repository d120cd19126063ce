-- ===== src/Payments/Orchestrate.antt =====
-- internal/payments/service.go: `orchestrate`, shared by Create and Refund.
pub mod Declined
pub mod Legwork
pub mod Rows
pub mod Settled
use Prim.Native.String.{◌++◌}
use echopay.Common.{ℕ, String, Option, none, some, [], ◌∷◌, ◌==◌, if◌then◌else◌}
use echopay.Store.Models.{User, Mandate, Token, Payment, number, text}
use echopay.Store.Payments.{mark_payment_settled}
use echopay.Store.Tokens.{mark_token_settled}
use echopay.World.{error_text}
use echopay.Action.{Action, pure, uuid_string, ◌>>=◌, ◌>>◌, handle, within, ignore, on_some}
use echopay.Audit.{record_event}
use echopay.Push.{notify_payment_received}
use echopay.Ledger.{record_payment_pair}
use echopay.Payments.Legs.{charge, transfer, fail, deref, sender_name}

-- one round of the loop over the two sides
unfoldable pub audit_side : Payment → ℕ → String → Action (Unit {0})
audit_side settled user role = do
  payment_text ← uuid_string settled.id
  counterparty ←
      uuid_string (
        if user == settled.sender_user_id then settled.receiver_user_id else settled.sender_user_id)
  record_event (record {
    user_id = user;
    actor_id = settled.sender_user_id;
    action = "payment.settled";
    target_typ = "payment";
    target_id = payment_text;
    metadata =
        ("amount_kobo", number settled.amount_kobo)
        ∷ ("role", text role)
        ∷ ("counterparty", text counterparty)
        ∷ [];
  })

unfoldable pub orchestrate : Payment → User → User → Mandate → Option Token → Action Payment
orchestrate payment sender receiver mandate tok = do
  debited ←
      handle (charge payment sender mandate) (λ e. fail payment tok ("charge: " ++ error_text e))
  sent ← handle (transfer debited receiver) (λ e. fail debited tok ("transfer: " ++ error_text e))
  handle
      (record_payment_pair sent.id sent.sender_user_id sent.receiver_user_id sent.amount_kobo
        (deref sent.charge_reference ""))
      (λ e. fail sent tok ("ledger: " ++ error_text e))
  settled ← within "mark settled" (mark_payment_settled sent.id)
  on_some tok (λ k. within "mark token settled" (mark_token_settled k.id settled.id) >> pure tt)
  notify_payment_received settled (sender_name sender)
  audit_side settled settled.sender_user_id "sender"
  audit_side settled settled.receiver_user_id "receiver"
  pure settled
