-- ===== src/Payments/Webhook/Closed.antt =====
-- Events of Paystack about a payment that is settled or failed already.
use echopay.Common.{
  ℕ, suc, refl, ◌⊎◌, ◌≡◌, true, Option, none, some, find?, arith, str_eq, Bool-cases, inl, inr,
}
use echopay.Store.Models.{Payment, PaymentStatus}
use echopay.Store.Query.{select_one}
use echopay.Store.Payments.{
  opt_eq, get_payment_by_charge_reference, get_payment_by_transfer_reference,
}
use echopay.World.{Env, World, ok, err}
use echopay.Action.{pure, query, ◌>>=◌, handle, when, on_some}
use echopay.Payments.Webhook.{
  WebhookEvent, ChargeEventData, TransferEventData, charge_success, charge_failed, transfer_success,
  transfer_failed, transfer_reversed, is_closed, lookup_payment, apply_charge, apply_charge_event,
  apply_transfer, apply_transfer_event, decoded, handle_webhook_event,
}

-- the payment that an event is about
abbrev pub subject : WebhookEvent → World → Option Payment
subject (charge_success (ok d)) w = find? (λ p. opt_eq p.charge_reference d.reference) w.payments
subject (charge_failed (ok d)) w = find? (λ p. opt_eq p.charge_reference d.reference) w.payments
subject (transfer_success (ok d)) w =
    find? (λ p. opt_eq p.transfer_reference d.reference) w.payments
subject (transfer_failed (ok d)) w = find? (λ p. opt_eq p.transfer_reference d.reference) w.payments
subject (transfer_reversed (ok d)) w =
    find? (λ p. opt_eq p.transfer_reference d.reference) w.payments
subject _ w = none

charge-closed :
    (d : ChargeEventData) (env : Env) (w : World) (p : Payment)
    → env.database_fault w.turn ≡ none
    → find? (λ q. opt_eq q.charge_reference d.reference) w.payments ≡ some p
    → is_closed p.status ≡ true
    → (n : ℕ) × (apply_charge_event d env w ≡ (ok tt, record w { turn = n }))
unfolding apply_charge_event apply_charge lookup_payment get_payment_by_charge_reference select_one
    query ◌>>=◌ handle when on_some pure
charge-closed d env w p quiet known closed = elim (Bool-cases (str_eq d.reference "")) [
  | inl blank ↦ (w.turn, ground arith)
  | inr named ↦ (suc w.turn, ground arith)
]

transfer-closed :
    (d : TransferEventData) (env : Env) (w : World) (p : Payment)
    → env.database_fault w.turn ≡ none
    → find? (λ q. opt_eq q.transfer_reference d.reference) w.payments ≡ some p
    → is_closed p.status ≡ true
    → (n : ℕ) × (apply_transfer_event d env w ≡ (ok tt, record w { turn = n }))
unfolding apply_transfer_event apply_transfer lookup_payment get_payment_by_transfer_reference
    select_one query ◌>>=◌ handle when on_some pure
transfer-closed d env w p quiet known closed = elim (Bool-cases (str_eq d.reference "")) [
  | inl blank ↦ (w.turn, ground arith)
  | inr named ↦ (suc w.turn, ground arith)
]

closed-event :
    (ev : WebhookEvent) (env : Env) (w : World) (p : Payment)
    → env.database_fault w.turn ≡ none
    → subject ev w ≡ some p
    → is_closed p.status ≡ true
    → (n : ℕ) × (handle_webhook_event ev env w ≡ (ok tt, record w { turn = n }))
unfolding handle_webhook_event decoded
closed-event (charge_success (ok d)) env w p quiet known closed =
    charge-closed d env w p quiet known closed
closed-event (charge_failed (ok d)) env w p quiet known closed =
    charge-closed d env w p quiet known closed
closed-event (transfer_success (ok d)) env w p quiet known closed =
    transfer-closed d env w p quiet known closed
closed-event (transfer_failed (ok d)) env w p quiet known closed =
    transfer-closed d env w p quiet known closed
closed-event (transfer_reversed (ok d)) env w p quiet known closed =
    transfer-closed d env w p quiet known closed
closed-event (charge_success (err e)) env w p quiet known closed = cc
closed-event (charge_failed (err e)) env w p quiet known closed = cc
closed-event (transfer_success (err e)) env w p quiet known closed = cc
closed-event (transfer_failed (err e)) env w p quiet known closed = cc
closed-event (transfer_reversed (err e)) env w p quiet known closed = cc
closed-event (WebhookEvent.other s) env w p quiet known closed = cc

over :
    (s : PaymentStatus)
    → (s ≡ PaymentStatus.settled) ⊎ (s ≡ PaymentStatus.failed)
    → is_closed s ≡ true
over s (inl settled) = rw settled refl
over s (inr failed) = rw failed refl

-- An event about a payment that is settled or failed already, delivered again or late, is accepted
-- and changes nothing but the count of turns, where its lookup does not fail: no status, no token and
-- no ledger entry.
pub handle_webhook_event-closed :
    (ev : WebhookEvent) (env : Env) (w : World) (p : Payment)
    → env.database_fault w.turn ≡ none
    → subject ev w ≡ some p
    → (p.status ≡ PaymentStatus.settled) ⊎ (p.status ≡ PaymentStatus.failed)
    → (n : ℕ) × (handle_webhook_event ev env w ≡ (ok tt, record w { turn = n }))
handle_webhook_event-closed ev env w p quiet known done =
    closed-event ev env w p quiet known (over p.status done)
