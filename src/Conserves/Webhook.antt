-- ===== src/Conserves/Webhook.antt =====
-- The webhook handler steps by a relation that conserves.
use echopay.Common.{ℕ, String, not}
use echopay.Store.Models.{Payment, PaystackStatus}
use echopay.World.{World, Result, ok, err}
use echopay.Action.{Action}
use echopay.Action.Steps.{Steps, Steps-when, steps_rules}
use echopay.Action.Yields.{
  Yields-within, Steps-bind_yields, StepsFrom, StepsFrom-bind, StepsFrom-Steps, StepsFrom-when,
  StepsFrom-within,
}
use echopay.Payments.Webhook.{
  ChargeEventData, TransferEventData, WebhookEvent, charge_success, lookup_payment, apply_charge,
  apply_charge_event, known_entries, settle_by_webhook, fail_by_webhook, finish_transfer,
  apply_transfer, apply_transfer_event, decoded, handle_webhook_event,
}
use echopay.Conserves.{Conserves}
use echopay.Conserves.Queries.{query_steps}
use echopay.Conserves.Entries.{
  Holds, Holds-stable, update_payment_transfer-Yields, record_payment_pair-StepsFrom,
}

module _ {R : World → World → Type 0} (c : Conserves R) where
  lookup_payment-Steps :
      (s : String) (m : Action Payment) → Steps R m → Steps R (lookup_payment s m)
  unfolding lookup_payment
  lookup_payment-Steps s m h = search steps_rules depth 8

  apply_charge_event-Steps : (d : ChargeEventData) → Steps R (apply_charge_event d)
  unfolding apply_charge_event apply_charge
  apply_charge_event-Steps d = search (steps_rules, query_steps, lookup_payment-Steps) depth 12

  known_entries-Steps : (id : ℕ) → Steps R (known_entries id)
  unfolding known_entries
  known_entries-Steps id = search (steps_rules, query_steps)

  -- the pair is written for a payment that the update before it has returned
  settle_by_webhook-StepsFrom : (p : Payment) → StepsFrom (Holds p) R (settle_by_webhook p)
  unfolding settle_by_webhook
  settle_by_webhook-StepsFrom p =
      StepsFrom-bind c.frame (Holds p) (Holds-stable c p) _ _
        (StepsFrom-Steps _ (known_entries-Steps p.id))
        λ recorded.
          StepsFrom-bind c.frame (Holds p) (Holds-stable c p) _ _
            (StepsFrom-when c.frame (not recorded) _ (
              StepsFrom-within c.frame "ledger via webhook" _
                (record_payment_pair-StepsFrom c p _)))
            (λ _. StepsFrom-Steps _ (search (steps_rules, query_steps) depth 8))

  fail_by_webhook-Steps : (s : PaystackStatus) (p : Payment) → Steps R (fail_by_webhook s p)
  unfolding fail_by_webhook
  fail_by_webhook-Steps s p = search (steps_rules, query_steps) depth 12

  finish_transfer-StepsFrom :
      (s : PaystackStatus) (p : Payment) → StepsFrom (Holds p) R (finish_transfer s p)
  unfolding finish_transfer
  finish_transfer-StepsFrom PaystackStatus.success p = settle_by_webhook-StepsFrom p
  finish_transfer-StepsFrom PaystackStatus.failed p = StepsFrom-Steps _ (fail_by_webhook-Steps _ p)
  finish_transfer-StepsFrom PaystackStatus.reversed p =
      StepsFrom-Steps _ (fail_by_webhook-Steps _ p)
  finish_transfer-StepsFrom (PaystackStatus.other s) p = StepsFrom-Steps _ (search steps_rules)

  apply_transfer-Steps : (d : TransferEventData) (p : Payment) → Steps R (apply_transfer d p)
  unfolding apply_transfer
  apply_transfer-Steps d p = Steps-when c.frame _ _ (
      Steps-bind_yields c.frame Holds _ _ (search (steps_rules, query_steps))
        (search (Yields-within, update_payment_transfer-Yields))
        (λ updated. finish_transfer-StepsFrom d.status updated))

  apply_transfer_event-Steps : (d : TransferEventData) → Steps R (apply_transfer_event d)
  unfolding apply_transfer_event
  apply_transfer_event-Steps d =
      search (steps_rules, query_steps, lookup_payment-Steps, apply_transfer-Steps) depth 12

  decoded-Steps :
      {D : Type 0} (s : String) (d : Result D) (f : D → Action (Unit {0}))
      → ((x : D) → Steps R (f x))
      → Steps R (decoded s d f)
  unfolding decoded
  decoded-Steps s (ok d) f h = h d
  decoded-Steps s (err e) f h = search steps_rules

  pub handle_webhook_event-Steps : (ev : WebhookEvent) → Steps R (handle_webhook_event ev)
  unfolding handle_webhook_event
  handle_webhook_event-Steps (charge_success d) = decoded-Steps _ d _ apply_charge_event-Steps
  handle_webhook_event-Steps (WebhookEvent.charge_failed d) =
      decoded-Steps _ d _ apply_charge_event-Steps
  handle_webhook_event-Steps (WebhookEvent.transfer_success d) =
      decoded-Steps _ d _ apply_transfer_event-Steps
  handle_webhook_event-Steps (WebhookEvent.transfer_failed d) =
      decoded-Steps _ d _ apply_transfer_event-Steps
  handle_webhook_event-Steps (WebhookEvent.transfer_reversed d) =
      decoded-Steps _ d _ apply_transfer_event-Steps
  handle_webhook_event-Steps (WebhookEvent.other s) = search steps_rules
