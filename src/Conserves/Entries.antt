-- ===== src/Conserves/Entries.antt =====
-- The ledger pair: both entries are backed where the payment is in the table with its terms, and the
-- payment that `transfer` or the webhook hands on is.
use echopay.Common.{
  ℕ, ◌≡◌, sym, subst, String, Option, some, List, [], ◌∷◌, find?, update_where, arith,
}
use mathlib.Core.Option
use echopay.Store.Models.{Payment, Side, PaystackStatus, PaymentStatus}
use echopay.Store.Terms.{SameTerms, SameTerms-refl, SameTerms-trans, HasTerms}
use echopay.Store.Query.{found}
use echopay.Store.Payments.{has_id, update_payments, update_payment_transfer}
use echopay.Store.Records.{insert_ledger_entry}
use echopay.World.{World, ok}
use echopay.Action.{within}
use echopay.Action.Steps.{if_cases, Steps-raise, Steps-pure}
use echopay.Action.Yields.{
  Yields, StepsFrom, StepsFrom-bind, StepsFrom-Steps, StepsFrom-handle, StepsFrom-query,
  Yields-query,
}
use echopay.Ledger.{record_entry, record_payment_pair}
use echopay.Conserves.{Conserves, Backed, party}

-- the payment is in the table, with its terms
abbrev pub Holds : Payment → World → Type 0
Holds p w = HasTerms w.payments p.id p

-- an update finds in the new table the row that it returns, and that row has the id asked for
find-update_where :
    (id : ℕ) (change : Payment → Payment) (q : Payment)
    → ((p : Payment) → SameTerms p (change p))
    → (ps : List Payment) → found (Option.map change (find? (has_id id) ps)) ≡ ok q
    → (find? (has_id id) (update_where (has_id id) change ps) ≡ some q) × (q.id ≡ id)
find-update_where id change q keeps [] e = cc
find-update_where id change q keeps (x ∷ ps) e =
    ground (arith, (keeps x).id, find-update_where id change q keeps ps)

update_payments-Yields :
    (id : ℕ) (change : ℕ → Payment → Payment)
    → ((t : ℕ) (p : Payment) → SameTerms p (change t p))
    → Yields (update_payments (has_id id) change) Holds
unfolding update_payments
update_payments-Yields id change keeps = Yields-query _ λ t u w q e.
    let (at, same) = find-update_where id (change t) q (keeps t) w.payments e in
    record {
      row = q;
      found_at =
          subst (λ k. find? (has_id k) (update_where (has_id id) (change t) w.payments) ≡ some q)
            (sym same) at;
      same = SameTerms-refl q;
    }

pub update_payment_transfer-Yields :
    (id : ℕ) (r : Option String) (s : Option PaystackStatus) (t : PaymentStatus)
    → Yields (update_payment_transfer id r s t) Holds
unfolding update_payment_transfer
update_payment_transfer-Yields id r s t = update_payments-Yields _ _ (λ n p. ground arith)

-- the entry of a payment that is in the table is backed
Holds-Backed :
    (p : Payment) (w : World) (s : Side) (t : ℕ) (ref : String)
    → Holds p w
    → Backed
        (record {
          payment_id = p.id;
          user_id = party s p;
          side = s;
          amount_kobo = p.amount_kobo;
          reference = ref;
          created_at = t;
        })
        w.payments
Holds-Backed p w Side.debit t ref h = record {
  row = h.row;
  found_at = h.found_at;
  amount = sym h.same.amount;
  user = sym h.same.sender;
}
Holds-Backed p w Side.credit t ref h = record {
  row = h.row;
  found_at = h.found_at;
  amount = sym h.same.amount;
  user = sym h.same.receiver;
}

module _ {R : World → World → Type 0} (c : Conserves R) where
  pub Holds-stable : (p : Payment) (w w' : World) → R w w' → Holds p w → Holds p w'
  Holds-stable p w w' r h =
      let k = c.keeps w w' r p.id h.row h.found_at in
      record { row = k.row; found_at = k.found_at; same = SameTerms-trans h.same k.same }

  insert_ledger_entry-StepsFrom :
      (p : Payment) (s : Side) (ref : String)
      → StepsFrom (Holds p) R (insert_ledger_entry p.id (party s p) s p.amount_kobo ref)
  unfolding insert_ledger_entry
  insert_ledger_entry-StepsFrom p s ref =
      StepsFrom-query c.frame (Holds p) (λ w n h. h) _
        λ t u w h.
          if_cases R w _ _ _ (c.entry_enters w _ (Holds-Backed p w s t ref h)) (c.frame.stays w)

  record_entry-StepsFrom :
      (context : String) (p : Payment) (s : Side) (ref : String)
      → StepsFrom (Holds p) R (
          within context (
            record_entry (record {
              payment_id = p.id;
              user_id = party s p;
              side = s;
              amount_kobo = p.amount_kobo;
              reference = ref;
            })))
  unfolding within record_entry
  record_entry-StepsFrom context p s ref =
      StepsFrom-handle c.frame (Holds p) _ _ (insert_ledger_entry-StepsFrom p s ref)
        (λ e. Steps-raise c.frame _)

  pub record_payment_pair-StepsFrom :
      (p : Payment) (ref : String)
      → StepsFrom
          (Holds p)
          R
          (record_payment_pair p.id p.sender_user_id p.receiver_user_id p.amount_kobo ref)
  unfolding record_payment_pair
  record_payment_pair-StepsFrom p ref =
      StepsFrom-bind c.frame (Holds p) (Holds-stable p) _ _
        (record_entry-StepsFrom "record debit" p Side.debit ref)
        (λ _.
          StepsFrom-bind c.frame (Holds p) (Holds-stable p) _ _
            (record_entry-StepsFrom "record credit" p Side.credit ref)
            (λ _. StepsFrom-Steps _ (Steps-pure c.frame tt)))
