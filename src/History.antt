-- ===== src/History.antt =====
-- What no operation undoes: a payment keeps its row and its terms, and the ledger, the audit trail
-- and the log of requests only grow.
pub mod Runs
use mathlib.Core.List.{append_assoc}
use echopay.Common.{
  ℕ, ◌≡◌, refl, sym, ap, ◌∙◌, Option, none, some, List, [], ◌∷◌, ◌++◌, find?, arith,
}
use echopay.Store.Models.{Payment, LedgerEntry, AuditEvent}
use echopay.Store.Terms.{PaymentsKept, PaymentsKept-refl, PaymentsKept-trans}
use echopay.Store.Payments.{has_id}
use echopay.World.{World, Exchange}
use echopay.Action.Steps.{Frame, Sends}

-- `ys` is `xs` with rows put in front
abbrev pub Extends : {A : Type 0} → List A → List A → Type 0
Extends {A} xs ys = (news : List A) × (ys ≡ news ++ xs)

pub record Grows (w w' : World) : Type 0 where
  pub payments : PaymentsKept w.payments w'.payments
  pub ledger : Extends w.ledger_entries w'.ledger_entries
  pub audit : Extends w.audit_events w'.audit_events
  pub exchanges : Extends w.exchanges w'.exchanges

pub Extends-refl : {A : Type 0} (xs : List A) → Extends xs xs
Extends-refl xs = ([], refl)

pub Extends-cons : {A : Type 0} (x : A) (xs : List A) → Extends xs (x ∷ xs)
Extends-cons x xs = (x ∷ [], refl)

Extends-trans : {A : Type 0} {xs ys zs : List A} → Extends xs ys → Extends ys zs → Extends xs zs
Extends-trans (us, e) (vs, f) = (vs ++ us, f ∙ ap (λ t. vs ++ t) e ∙ sym (append_assoc vs us _))

pub Grows-frame : Frame Grows
Grows-frame = record {
  stays = λ w. record {
    payments = PaymentsKept-refl w.payments;
    ledger = Extends-refl w.ledger_entries;
    audit = Extends-refl w.audit_events;
    exchanges = Extends-refl w.exchanges;
  };
  goes_on = λ a b c h k. record {
    payments = PaymentsKept-trans _ _ _ h.payments k.payments;
    ledger = Extends-trans h.ledger k.ledger;
    audit = Extends-trans h.audit k.audit;
    exchanges = Extends-trans h.exchanges k.exchanges;
  };
  ticks = λ w n. record {
    payments = PaymentsKept-refl w.payments;
    ledger = Extends-refl w.ledger_entries;
    audit = Extends-refl w.audit_events;
    exchanges = Extends-refl w.exchanges;
  };
}

pub Grows-sends : Sends Grows
Grows-sends = record {
  logs = λ w n x. record {
    payments = PaymentsKept-refl w.payments;
    ledger = Extends-refl w.ledger_entries;
    audit = Extends-refl w.audit_events;
    exchanges = Extends-cons x w.exchanges;
  };
}
