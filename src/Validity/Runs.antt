-- ===== src/Validity/Runs.antt =====
-- Every run of the server keeps the database valid.
use echopay.Common.{◌≡◌, refl, List, subst}
use echopay.World.{Env, World}
use echopay.Store.Payments.{new_payment}
use echopay.Store.Terms.{PaymentsKept, PaymentsKept-refl, PaymentsKept-trans}
use echopay.Store.Terms.Rows.{update_where-PaymentsKept, cons-PaymentsKept}
use echopay.Action.Steps.{Frame}
use echopay.Conserves.{Conserves, fresh_id}
use echopay.System.{Event, run}
use echopay.System.Runs.{run-Conserves}
use echopay.Validity.{IsTable, IsLedger, IsValid}
use echopay.Validity.Rows.{IsTable-update, IsTable-new, IsLedger-kept, admits-positive}

record KeepsValid (w w' : World) : Type 0 where
  kept : PaymentsKept w.payments w'.payments
  valid : IsValid w → IsValid w'

-- a write that leaves the payments and the ledger alone
apart :
    (w w' : World)
    → w.payments ≡ w'.payments
    → w.ledger_entries ≡ w'.ledger_entries
    → KeepsValid w w'
apart w w' p l = record {
  kept = subst (λ t. PaymentsKept w.payments t) p (PaymentsKept-refl w.payments);
  valid = λ v. record {
    table = subst IsTable p v.table;
    ledger =
        subst (λ t. IsLedger t w'.payments) l (subst (λ t. IsLedger w.ledger_entries t) p v.ledger);
  };
}

KeepsValid-frame : Frame KeepsValid
KeepsValid-frame = record {
  stays = λ w. apart w w refl refl;
  goes_on = λ a b c h k. record {
    kept = PaymentsKept-trans _ _ _ h.kept k.kept;
    valid = λ v. k.valid (h.valid v);
  };
  ticks = λ w n. apart w _ refl refl;
}

KeepsValid-Conserves : Conserves KeepsValid
KeepsValid-Conserves = record {
  frame = KeepsValid-frame;
  sends = record { logs = λ w n x. apart w _ refl refl };
  keeps = λ w w' h. h.kept;
  payments_change = λ w test change terms.
      let k = update_where-PaymentsKept test change terms w.payments in
      record {
        kept = k;
        valid = λ v. record {
          table = IsTable-update test change terms w.payments v.table;
          ledger = IsLedger-kept w.ledger_entries w.payments _ k v.ledger;
        };
      };
  payment_enters = λ w t id a fits.
      let k = cons-PaymentsKept (new_payment t id a) w.payments (fresh_id id a w fits) in
      record {
        kept = k;
        valid = λ v. record {
          table = IsTable-new w t id a fits v.table;
          ledger = IsLedger-kept w.ledger_entries w.payments _ k v.ledger;
        };
      };
  entry_enters = λ w e backed fits. record {
    kept = PaymentsKept-refl w.payments;
    valid = λ v. record { table = v.table; ledger = (admits-positive e w fits, backed, v.ledger) };
  };
  event_enters = λ w e. apart w _ refl refl;
  elsewhere = λ w w' p l a x. apart w w' p l;
}

-- Whatever the events, the clock, the database faults and the answers of Paystack, a run that starts
-- from a valid database ends in one: payments have distinct ids, distinct idempotency keys and
-- positive amounts, and every ledger entry has a positive amount and the id and the amount of a
-- payment in the table, whose sender it debits or whose receiver it credits.
pub run-IsValid : (env : Env) (es : List Event) (w : World) → IsValid w → IsValid (run env es w)
run-IsValid env es w = (run-Conserves KeepsValid-Conserves env es w).valid
