-- ===== src/Payments/Webhook.antt =====
-- internal/payments/webhook.go: the events of Paystack. Decoding the JSON of an event is not
-- modelled: a decoded event, or the error of the decoder, is what the handler is given.
pub mod Closed
use Prim.Native.String.{◌++◌}
use echopay.Common.{
  ℕ, String, Bool, true, false, not, ◌&&◌, ◌||◌, Option, none, some, List, is_empty, str_eq,
  if◌then◌else◌,
}
use echopay.Store.Models.{
  Payment, PaymentStatus, PaystackStatus, same_status, is_failed, status_text,
}
use echopay.Store.Payments.{
  get_payment_by_charge_reference, get_payment_by_transfer_reference, update_payment_transfer,
  mark_payment_failed, mark_payment_settled,
}
use echopay.Store.Tokens.{mark_token_failed, mark_token_settled}
use echopay.Store.Records.{list_payment_ledger}
use echopay.World.{Error, Result, ok, err, is_no_rows, wrapped}
use echopay.Action.{
  Action, pure, raise, ◌>>=◌, ◌>>◌, handle, within, ignore, on_some, when, or_else,
}
use echopay.Ledger.{record_payment_pair}
use echopay.Payments.Legs.{deref}

pub record ChargeEventData : Type 0 where
  pub reference : String
  pub status : PaystackStatus
  pub gateway_resp : String

pub record TransferEventData : Type 0 where
  pub reference : String
  pub status : PaystackStatus

-- the `event` of a webhook with what `AsCharge` or `AsTransfer` returns; `other` is any other event
pub data WebhookEvent : Type 0 where
  charge_success charge_failed : Result ChargeEventData → WebhookEvent
  transfer_success transfer_failed transfer_reversed : Result TransferEventData → WebhookEvent
  other : String → WebhookEvent

-- the lookup of the payment: `none` where no row matches, which is only logged
unfoldable pub lookup_payment : String → Action Payment → Action (Option Payment)
lookup_payment context m =
    handle (do p ← m; pure (some p))
      (λ e. if is_no_rows e then pure none else raise (wrapped context e))

-- p.Status == "settled" || p.Status == "failed"
abbrev pub is_closed : PaymentStatus → Bool
is_closed s = same_status s PaymentStatus.settled || same_status s PaymentStatus.failed

unfoldable pub apply_charge : ChargeEventData → Payment → Action (Unit {0})
apply_charge d p =
    when
      (not (is_closed p.status)
        && is_failed d.status
        && not (same_status p.status PaymentStatus.settled))
      (mark_payment_failed p.id (some ("charge.failed via webhook: " ++ d.gateway_resp)) >> pure tt)

unfoldable pub apply_charge_event : ChargeEventData → Action (Unit {0})
apply_charge_event d = when (not (str_eq d.reference "")) (do
  p ← lookup_payment "lookup payment by charge ref" (get_payment_by_charge_reference d.reference)
  on_some p (apply_charge d))

-- the entries of a payment, or none of them where the query fails
unfoldable pub known_entries : ℕ → Action Bool
known_entries id =
    handle (do entries ← list_payment_ledger id; pure (not (is_empty entries))) (λ _. pure false)

unfoldable pub settle_by_webhook : Payment → Action (Unit {0})
settle_by_webhook updated = do
  recorded ← known_entries updated.id
  when (not recorded) (
      within "ledger via webhook" (
        record_payment_pair updated.id updated.sender_user_id updated.receiver_user_id
          updated.amount_kobo (deref updated.charge_reference "")))
  within "mark settled via webhook" (mark_payment_settled updated.id)
  on_some updated.token_id (λ k. ignore (mark_token_settled k updated.id))

unfoldable pub fail_by_webhook : PaystackStatus → Payment → Action (Unit {0})
fail_by_webhook s updated = do
  within "mark failed via webhook"
      (mark_payment_failed updated.id (some ("transfer." ++ (status_text s ++ " via webhook"))))
  on_some updated.token_id (λ k. ignore (mark_token_failed k))

-- the `switch d.Status`
unfoldable pub finish_transfer : PaystackStatus → Payment → Action (Unit {0})
finish_transfer PaystackStatus.success updated = settle_by_webhook updated
finish_transfer PaystackStatus.failed updated = fail_by_webhook PaystackStatus.failed updated
finish_transfer PaystackStatus.reversed updated = fail_by_webhook PaystackStatus.reversed updated
finish_transfer (PaystackStatus.other s) updated = pure tt

unfoldable pub apply_transfer : TransferEventData → Payment → Action (Unit {0})
apply_transfer d p = when (not (is_closed p.status)) (do
  updated ←
      within "update transfer state"
        (update_payment_transfer p.id (some d.reference) (some d.status) p.status)
  finish_transfer d.status updated)

unfoldable pub apply_transfer_event : TransferEventData → Action (Unit {0})
apply_transfer_event d = when (not (str_eq d.reference "")) (do
  p ←
      lookup_payment "lookup payment by transfer ref"
        (get_payment_by_transfer_reference d.reference)
  on_some p (apply_transfer d))

-- a decoded event goes to its handler
unfoldable pub decoded :
    {D : Type 0} → String → Result D → (D → Action (Unit {0})) → Action (Unit {0})
decoded context (ok d) f = f d
decoded context (err e) f = raise (wrapped context e)

unfoldable pub handle_webhook_event : WebhookEvent → Action (Unit {0})
handle_webhook_event (charge_success d) = decoded "decode charge event" d apply_charge_event
handle_webhook_event (charge_failed d) = decoded "decode charge event" d apply_charge_event
handle_webhook_event (transfer_success d) = decoded "decode transfer event" d apply_transfer_event
handle_webhook_event (transfer_failed d) = decoded "decode transfer event" d apply_transfer_event
handle_webhook_event (transfer_reversed d) = decoded "decode transfer event" d apply_transfer_event
handle_webhook_event (other s) = pure tt
