-- ===== src/Tests/Witnesses.antt =====
-- Each property that has hypotheses, at a run where they hold.
use echopay.Common.{ℕ, suc, ◌+◌, ◌≤◌, ◌≡◌, ◌⊎◌, inl, refl, none, some, [], ◌∷◌, pos, select}
use Prim.Native.Nat.{min}
use echopay.Store.Models.{Payment, PaymentStatus, debit, PaystackStatus}
use echopay.Store.Query.{select_one}
use echopay.Store.Payments.{
  update_payments, mark_payment_refunded, release_held_payment, get_payment_by_id,
}
use echopay.Store.Records.{insert_ledger_entry, insert_audit_event}
use echopay.Store.Tokens.{update_tokens, mark_token_failed}
use echopay.Store.Users.{
  sum_user_sent_last_24h, get_trusted_merchant_cap, is_sent_by, sum_amounts, int64_limit,
}
use echopay.Store.Races.{release-after_refund, refund-after_release}
use echopay.World.{Error, ok, err, refunded, not_sender}
use echopay.Audit.{record_event}
use echopay.Payments.Hold.{drop_timer, orchestrate_held, release_hold}
use echopay.Payments.Undo.{refund_charge, complete_undo, issue_undo, undo}
use echopay.Action.{
  now, send, uuid_string, modify, ignore, on_some, query, pure, raise, ◌>>=◌, handle, within,
  require, rows_or,
}
use echopay.Ledger.{record_entry, record_payment_pair}
use echopay.Ledger.Pair.{side_total, record_payment_pair-balanced}
use echopay.Risk.Trusted.{effective_cap}
use echopay.Risk.Trusted.Cap.{effective_cap-le, effective_cap-min}
use echopay.Payments.Types.{CreateRequest, RefundRequest}
use echopay.Payments.Checks.{enforce_limits}
use echopay.Payments.Checks.Sound.{enforce_limits_sound, enforce_limits-held_uncounted}
use echopay.Payments.Create.{create, refund}
use echopay.Payments.Create.Repeat.{create-refund_repeated}
use echopay.Payments.Orchestrate.{orchestrate}
use echopay.Payments.Orchestrate.Declined.{Declined, orchestrate-Declined}
use echopay.Payments.Undo.Final.{release_hold-after_undo}
use echopay.Payments.Undo.Guards.{by_other, full_refund, undo-refused, undo-sends}
use echopay.Payments.Webhook.{WebhookEvent, transfer_failed, handle_webhook_event}
use echopay.Payments.Webhook.Closed.{handle_webhook_event-closed}
use echopay.System.{payment_created, holds_released, run}
use echopay.History.{Grows}
use echopay.History.Runs.{run-Grows}
use echopay.Validity.{IsValid}
use echopay.Validity.Runs.{run-IsValid}
use echopay.Tests.Data.{
  alice, bob, mandate, token, trusted, start, held_payment, settled_payment, empty_world,
  held_world, settled_world, sunny, declining, pay_now, pay_held, take_back, foreign_undo,
}

empty_world-IsValid : IsValid empty_world
empty_world-IsValid = record { table = tt; ledger = tt }

run-IsValid_example :
    IsValid (run sunny (payment_created pay_now ∷ holds_released ∷ []) empty_world)
run-IsValid_example =
    run-IsValid sunny (payment_created pay_now ∷ holds_released ∷ []) empty_world
      empty_world-IsValid

run-Grows_example :
    Grows held_world (run sunny (payment_created pay_held ∷ holds_released ∷ []) held_world)
run-Grows_example = run-Grows sunny (payment_created pay_held ∷ holds_released ∷ []) held_world

abbrev repeated : CreateRequest
repeated = record pay_now { idempotency_key = "key-10" }

abbrev repeated_refund : RefundRequest
repeated_refund = record {
  original_payment_id = 10;
  refunder_user_id = 2;
  mandate_id = 5;
  amount_kobo = pos 10;
  idempotency_key = "key-10";
}

create-refund_repeated_example :
    (create repeated sunny held_world
      ≡ (ok (record { payment = held_payment; token = none }), record held_world { turn = 1 }))
    × (refund repeated_refund sunny held_world
        ≡ (ok (record { payment = held_payment; token = none }), record held_world { turn = 1 }))
create-refund_repeated_example =
    create-refund_repeated repeated repeated_refund sunny held_world held_payment refl refl refl

undo-refused_example :
    (n : ℕ) × (undo foreign_undo sunny held_world
      ≡ (err not_sender, record held_world { turn = n }))
undo-refused_example =
    undo-refused foreign_undo sunny held_world held_payment not_sender refl refl
      (by_other (λ e. cc))

undo-sends_example :
    (undo take_back sunny held_world).1.exchanges
    ≡ refunded (full_refund held_payment) (ok (record { reference = "RFD_x" })) ∷ []
undo-sends_example = undo-sends take_back sunny held_world held_payment refl refl refl

abbrev refunded_payment : Payment
refunded_payment = record held_payment {
  status = PaymentStatus.refunded;
  auto_refund_reference = none;
  failure_reason = none;
  updated_at = start;
}

refund_wins : (mark_payment_refunded 10 none none sunny held_world).0 ≡ ok refunded_payment
unfolding mark_payment_refunded update_payments query
refund_wins = refl

no_release_after_refund :
    let w' = (mark_payment_refunded 10 none none sunny held_world).1 in
    (e : Error) × (release_held_payment 10 sunny w' ≡ (err e, record w' { turn = suc w'.turn }))
no_release_after_refund =
    release-after_refund 10 none none sunny sunny held_world refunded_payment refund_wins

abbrev released_payment : Payment
released_payment = record held_payment { status = PaymentStatus.transferring; updated_at = start }

release_wins : (release_held_payment 10 sunny held_world).0 ≡ ok released_payment
unfolding release_held_payment update_payments query
release_wins = refl

no_refund_after_release :
    let w' = (release_held_payment 10 sunny held_world).1 in
    (e : Error) × (mark_payment_refunded 10 none none sunny w'
      ≡ (err e, record w' { turn = suc w'.turn }))
no_refund_after_release =
    refund-after_release 10 none none sunny sunny held_world released_payment release_wins

cap_within_default :
    (cap : ℕ) × (effective_cap 1 2 100_000 sunny empty_world
      ≡ (ok cap, record empty_world { turn = 1 }))
    × (cap ≤ 100_000)
cap_within_default = effective_cap-le 1 2 100_000 sunny empty_world

cap_of_trusted :
    effective_cap 1 2 100_000 sunny empty_world
    ≡ (ok (min 60_000 100_000), record empty_world { turn = 1 })
cap_of_trusted = effective_cap-min 1 2 100_000 sunny empty_world trusted refl refl

limits_pass : (enforce_limits alice 2 50_000 sunny settled_world).0 ≡ ok tt
unfolding enforce_limits effective_cap get_trusted_merchant_cap sum_user_sent_last_24h query ◌>>=◌
    handle within require pure raise
limits_pass = refl

enforce_limits_sound_example :
    let sent = sum_amounts (select (is_sent_by 1 (sunny.time 1)) settled_world.payments) in
    (50_000 ≤ 100_000) × ((sent + 50_000 ≤ 500_000) ⊎ (int64_limit ≤ sent + 50_000))
enforce_limits_sound_example = enforce_limits_sound alice 2 50_000 sunny settled_world limits_pass

enforce_limits-held_uncounted_example :
    (enforce_limits alice 2 50_000 sunny (record empty_world { payments = held_payment ∷ [] })).0
    ≡ (enforce_limits alice 2 50_000 sunny empty_world).0
enforce_limits-held_uncounted_example =
    enforce_limits-held_uncounted alice 2 50_000 sunny empty_world held_payment refl

pair_recorded : (record_payment_pair 10 1 2 50_000 "CHG_10" sunny settled_world).0 ≡ ok tt
unfolding record_payment_pair record_entry insert_ledger_entry query ◌>>=◌ handle within pure raise
pair_recorded = refl

record_payment_pair-balanced_example :
    side_total debit 10
      (record_payment_pair 10 1 2 50_000 "CHG_10" sunny settled_world).1.ledger_entries
    ≡ 50_000
record_payment_pair-balanced_example =
    record_payment_pair-balanced 10 1 2 50_000 "CHG_10" sunny settled_world 10 debit pair_recorded

abbrev late_failure : WebhookEvent
late_failure =
    transfer_failed (ok (record { reference = "TXF_10"; status = PaystackStatus.failed }))

handle_webhook_event-closed_example :
    (n : ℕ) × (handle_webhook_event late_failure sunny settled_world
      ≡ (ok tt, record settled_world { turn = n }))
handle_webhook_event-closed_example =
    handle_webhook_event-closed late_failure sunny settled_world settled_payment refl refl
      (inl refl)

orchestrate-Declined_example :
    Declined declining held_payment alice mandate held_world
      (orchestrate held_payment alice bob mandate (some token) declining held_world)
    × Declined declining held_payment alice mandate held_world
        (orchestrate_held held_payment alice bob mandate (some token) 60 declining held_world)
orchestrate-Declined_example =
    orchestrate-Declined held_payment alice bob mandate (some token) 60 declining held_world refl

-- the payment that the undo returns
abbrev undone_payment : Payment
undone_payment = record held_payment {
  status = PaymentStatus.refunded;
  auto_refund_reference = some "RFD_x";
  failure_reason = some "undone within window";
  updated_at = start + 3_000_000_000;
}

undo_goes_through : (undo take_back sunny held_world).0 ≡ ok undone_payment
unfolding undo issue_undo complete_undo refund_charge get_payment_by_id mark_payment_refunded
    mark_token_failed update_tokens update_payments record_event insert_audit_event drop_timer
    select_one now send uuid_string modify query ◌>>=◌ handle within rows_or ignore on_some require
    pure raise
undo_goes_through = refl

release_hold-after_undo_example :
    let w' = (undo take_back sunny held_world).1 in
    release_hold 10 sunny w' ≡ (ok tt, record w' { turn = suc w'.turn })
release_hold-after_undo_example =
    release_hold-after_undo take_back sunny sunny held_world undone_payment undo_goes_through
