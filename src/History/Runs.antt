-- ===== src/History/Runs.antt =====
-- Every run of the server keeps the payments with their terms, and only adds to the ledger, the
-- audit trail and the log of requests.
use echopay.Common.{◌≡◌, sym, subst, List, []}
use echopay.World.{Env, World}
use echopay.Conserves.{Conserves, fresh_id}
use echopay.Store.Payments.{new_payment}
use echopay.System.{Event, run}
use echopay.System.Runs.{run-Conserves}
use echopay.Store.Terms.{PaymentsKept, PaymentsKept-refl}
use echopay.History.{Grows, Grows-frame, Grows-sends, Extends-refl, Extends-cons}
use echopay.Store.Terms.Rows.{update_where-PaymentsKept, cons-PaymentsKept}

-- the tables that the relation reads are the same
untouched :
    (w w' : World)
    → w.payments ≡ w'.payments
    → w.ledger_entries ≡ w'.ledger_entries
    → w.audit_events ≡ w'.audit_events
    → w.exchanges ≡ w'.exchanges
    → Grows w w'
untouched w w' p l a x = record {
  payments = subst (λ t. PaymentsKept w.payments t) p (PaymentsKept-refl w.payments);
  ledger = ([], sym l);
  audit = ([], sym a);
  exchanges = ([], sym x);
}

Grows-Conserves : Conserves Grows
Grows-Conserves = record {
  frame = Grows-frame;
  sends = Grows-sends;
  keeps = λ w w' h. h.payments;
  payments_change = λ w test change keeps. record {
    payments = update_where-PaymentsKept test change keeps w.payments;
    ledger = Extends-refl _;
    audit = Extends-refl _;
    exchanges = Extends-refl _;
  };
  payment_enters = λ w t id a fits. record {
    payments = cons-PaymentsKept (new_payment t id a) w.payments (fresh_id id a w fits);
    ledger = Extends-refl _;
    audit = Extends-refl _;
    exchanges = Extends-refl _;
  };
  entry_enters = λ w e backed fits. record {
    payments = PaymentsKept-refl _;
    ledger = Extends-cons e _;
    audit = Extends-refl _;
    exchanges = Extends-refl _;
  };
  event_enters = λ w e. record {
    payments = PaymentsKept-refl _;
    ledger = Extends-refl _;
    audit = Extends-cons e _;
    exchanges = Extends-refl _;
  };
  elsewhere = untouched;
}

-- Whatever the events, the clock, the database faults and the answers of Paystack: a payment that is
-- found by its id before a run is found by it afterwards with the same token, parties, mandate,
-- amount, idempotency key, creation time and refund link; and the ledger, the audit trail and the
-- log of requests to Paystack are what they were with new entries in front.
pub run-Grows : (env : Env) (es : List Event) (w : World) → Grows w (run env es w)
run-Grows = run-Conserves Grows-Conserves
