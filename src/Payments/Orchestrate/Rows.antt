-- ===== src/Payments/Orchestrate/Rows.antt =====
-- A single update of the row of a payment, seen from the call that goes through it.
use echopay.Common.{
  Bool-cases, inl, inr, ◌==◌, ℕ, ◌≡◌, sym, ap, subst, ◌∙◌, true, some, List, [], ◌∷◌, find?, arith,
  update_where,
}
use echopay.Store.Models.{same_status, Payment, PaymentStatus}
use echopay.Store.Payments.{has_id_and, has_id, update_payments}
use echopay.Store.Terms.{SameTerms}
use echopay.World.{Env, World, ok}
use echopay.Action.Ends.{query-ends}

-- A step has left `q` in the place of the payment `p`, with the terms of `p`, and the ledger as it was.
pub record Carries (p : Payment) (w : World) (q : Payment) (w' : World) : Type 0 where
  pub row : find? (has_id p.id) w'.payments ≡ some q
  pub terms : SameTerms p q
  pub ledger : w'.ledger_entries ≡ w.ledger_entries

-- an update by id changes the row that the id finds
pub find-updated :
    (id : ℕ) (change : Payment → Payment) (p : Payment) (ps : List Payment)
    → ((x : Payment) → (change x).id ≡ x.id)
    → find? (has_id id) ps ≡ some p
    → find? (has_id id) (update_where (has_id id) change ps) ≡ some (change p)
find-updated id change p [] keeps known = cc
find-updated id change p (x ∷ ps) keeps known =
    ground (arith, keeps x, find-updated id change p ps keeps)

pub update_payments-ends :
    (change : ℕ → Payment → Payment) (env : Env) (w w' : World) (p q : Payment)
    → ((t : ℕ) (x : Payment) → SameTerms x (change t x))
    → find? (has_id p.id) w.payments ≡ some p
    → update_payments (has_id p.id) change env w ≡ (ok q, w')
    → (q ≡ change (env.time w.turn) p) × (w'.exchanges ≡ w.exchanges) × Carries p w q w'
unfolding update_payments
update_payments-ends change env w w' p q keeps known done =
    let t = env.time w.turn in
    let stepped = query-ends _ env w w' q done in
    let still = find-updated p.id (change t) p w.payments (λ x. (keeps t x).id) known in
    let row : q ≡ change t p = ground arith in
    (
      row,
      ground arith,
      record {
        row = ground arith;
        terms = subst (λ z. SameTerms p z) (sym row) (keeps t p);
        ledger = ground arith;
      },
    )

find-narrowed :
    (id : ℕ) (s : PaymentStatus) (change : Payment → Payment) (p : Payment) (ps : List Payment)
    → ((x : Payment) → (change x).id ≡ x.id)
    → same_status p.status s ≡ true
    → find? (has_id id) ps ≡ some p
    → (find? (has_id_and id s) ps ≡ some p)
      × (find? (has_id id) (update_where (has_id_and id s) change ps) ≡ some (change p))
find-narrowed id s change p [] keeps fits known = cc
find-narrowed id s change p (x ∷ ps) keeps fits known = elim (Bool-cases (x.id == id)) [
  | inl here ↦
      let same : x ≡ p = ground arith in
      let head : same_status x.status s ≡ true = ap (λ z. same_status z.status s) same ∙ fits in
      (ground arith, ground (arith, keeps x))
  | inr there ↦
      let (first, second) = find-narrowed id s change p ps keeps fits (ground arith) in
      (ground arith, ground arith)
]

-- the same for an update that asks for a status, which the row has
pub update_held-ends :
    (s : PaymentStatus) (change : ℕ → Payment → Payment) (env : Env) (w w' : World) (p q : Payment)
    → ((t : ℕ) (x : Payment) → SameTerms x (change t x))
    → same_status p.status s ≡ true
    → find? (has_id p.id) w.payments ≡ some p
    → update_payments (has_id_and p.id s) change env w ≡ (ok q, w')
    → (q ≡ change (env.time w.turn) p) × (w'.exchanges ≡ w.exchanges) × Carries p w q w'
unfolding update_payments
update_held-ends s change env w w' p q keeps fits known done =
    let t = env.time w.turn in
    let stepped = query-ends _ env w w' q done in
    let (first, still) =
      find-narrowed p.id s (change t) p w.payments (λ x. (keeps t x).id) fits known in
    let row : q ≡ change t p = ground arith in
    (
      row,
      ground arith,
      record {
        row = ground arith;
        terms = subst (λ z. SameTerms p z) (sym row) (keeps t p);
        ledger = ground arith;
      },
    )
