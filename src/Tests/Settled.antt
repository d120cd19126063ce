-- ===== src/Tests/Settled.antt =====
-- Payments that go through: at once, and in two halves around an undo window.
use echopay.World.{World, ok}
use echopay.Payments.Hold.{
  schedule_hold_release, set_timer, orchestrate_held, load_token, complete_release,
}
use echopay.Payments.Hold.Held.{Held, orchestrate_held-Held}
use echopay.Payments.Hold.Released.{Released, complete_release-Released}
use echopay.Store.Payments.{
  hold_payment, update_payments, update_payment_charge, update_payment_transfer,
  mark_payment_settled,
}
use echopay.Store.Users.{get_user_by_id}
use echopay.Store.Tokens.{get_token_by_id, update_tokens, mark_token_settled}
use echopay.Store.Query.{select_one}
use echopay.Action.{
  when, now, send, uuid_string, modify, ignore, on_some, query, pure, raise, ◌>>=◌, handle, within,
  require,
}
use echopay.Common.{◌+◌, ◌≡◌, refl, none, some, [], ◌∷◌}
use echopay.Store.Models.{Payment, PaymentStatus, PaystackStatus}
use echopay.Store.Records.{insert_ledger_entry, insert_audit_event}
use echopay.Audit.{record_event}
use echopay.Ledger.{record_entry, record_payment_pair}
use echopay.Payments.Orchestrate.Settled.{Settlement, orchestrate-Settlement}
use echopay.Payments.Legs.{
  charge, charge_authorization, transfer, create_recipient, initiate_transfer,
}
use echopay.Push.{notify_payment_received, is_enabled}
use echopay.Payments.Orchestrate.{audit_side, orchestrate}
use echopay.Tests.Data.{alice, bob, mandate, token, start, held_payment, empty_world, sunny}

-- a payment that has just been created
abbrev new_row : Payment
new_row = record held_payment {
  charge_reference = none;
  charge_status = none;
  transfer_reference = none;
  status = PaymentStatus.initiated;
  hold_expires_at = none;
}

abbrev new_world : World
new_world = record empty_world { payments = new_row ∷ [] }

-- the row once the money has gone through
abbrev paid_row : Payment
paid_row = record new_row {
  charge_reference = some "CHG_id";
  charge_status = some PaystackStatus.success;
  transfer_reference = some "TXF_id";
  transfer_status = some PaystackStatus.success;
  status = PaymentStatus.settled;
  updated_at = start + 7_000_000_000;
  settled_at = some (start + 7_000_000_000);
}

payment_goes_through :
    orchestrate new_row alice bob mandate (some token) sunny new_world
    ≡ (ok paid_row, (orchestrate new_row alice bob mandate (some token) sunny new_world).1)
unfolding orchestrate audit_side charge charge_authorization transfer create_recipient
    initiate_transfer record_payment_pair record_entry insert_ledger_entry update_payment_charge
    update_payment_transfer mark_payment_settled update_payments mark_token_settled update_tokens
    notify_payment_received is_enabled when record_event insert_audit_event send uuid_string modify
    query ◌>>=◌ handle within ignore on_some require pure raise
payment_goes_through = refl

orchestrate-Settlement_example :
    Settlement sunny new_row alice bob mandate new_world paid_row
      (orchestrate new_row alice bob mandate (some token) sunny new_world).1
orchestrate-Settlement_example =
    orchestrate-Settlement new_row alice bob mandate (some token) sunny new_world
      (orchestrate new_row alice bob mandate (some token) sunny new_world).1 paid_row refl
      payment_goes_through

-- the row of the payment that waits for its undo window of a minute
abbrev waiting_row : Payment
waiting_row = record new_row {
  charge_reference = some "CHG_id";
  charge_status = some PaystackStatus.success;
  status = PaymentStatus.held;
  updated_at = start + 3_000_000_000;
  hold_expires_at = some (start + 62_000_000_000);
}

payment_waits :
    orchestrate_held new_row alice bob mandate (some token) 60_000_000_000 sunny new_world ≡ (
      ok waiting_row,
      (orchestrate_held new_row alice bob mandate (some token) 60_000_000_000 sunny new_world).1,
    )
unfolding orchestrate_held schedule_hold_release set_timer hold_payment charge charge_authorization
    update_payment_charge update_payments now send uuid_string modify query ◌>>=◌ handle within
    require pure raise
payment_waits = refl

orchestrate_held-Held_example :
    Held sunny new_row alice mandate 60_000_000_000 new_world waiting_row
      (orchestrate_held new_row alice bob mandate (some token) 60_000_000_000 sunny new_world).1
orchestrate_held-Held_example =
    orchestrate_held-Held new_row alice bob mandate (some token) 60_000_000_000 sunny new_world
      (orchestrate_held new_row alice bob mandate (some token) 60_000_000_000 sunny new_world).1
      waiting_row refl payment_waits

-- the held payment, once the release has taken it
abbrev taken_row : Payment
taken_row = record held_payment { status = PaymentStatus.transferring }

abbrev taken_world : World
taken_world = record empty_world { payments = taken_row ∷ [] }

release_goes_through :
    complete_release taken_row sunny taken_world
    ≡ (ok tt, (complete_release taken_row sunny taken_world).1)
unfolding complete_release load_token get_user_by_id get_token_by_id select_one transfer
    create_recipient initiate_transfer record_payment_pair record_entry insert_ledger_entry
    update_payment_transfer mark_payment_settled update_payments mark_token_settled update_tokens
    notify_payment_received is_enabled when send uuid_string modify query ◌>>=◌ handle within ignore
    on_some pure raise
release_goes_through = refl

complete_release-Released_example :
    Released sunny taken_row taken_world (complete_release taken_row sunny taken_world).1
complete_release-Released_example =
    complete_release-Released taken_row sunny taken_world
      (complete_release taken_row sunny taken_world).1 refl release_goes_through
