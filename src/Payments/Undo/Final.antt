-- ===== src/Payments/Undo/Final.antt =====
-- After an undo that has gone through the money cannot leave any more.
use mathlib.Core.Option
use echopay.Common.{
  ℕ, suc, ◌≡◌, refl, sym, subst, String, Option, none, List, [], ◌∷◌, find?, update_where, arith,
}
use echopay.Store.Models.{Payment, PaymentStatus}
use echopay.Store.Query.{found}
use echopay.Store.Payments.{
  has_id_and, update_payments, mark_payment_refunded, release_held_payment,
}
use echopay.Store.Races.{find-update_where-none, update_payments-misses}
use echopay.World.{Env, World, Error, ok}
use echopay.Action.{◌>>=◌, rows_or, ignore}
use echopay.Action.Yields.{
  Yields, YieldsFrom, Yields-bind_yields, YieldsFrom-bind, YieldsFrom-pure, Yields-query,
  Yields-rows_or, yields_rules,
}
use echopay.Quiet.{IsQuiet, quiet_rules}
use echopay.Payments.Types.{UndoRequest}
use echopay.Payments.Undo.{complete_undo, issue_undo, undo}
use echopay.Payments.Hold.{release_hold}

-- no held payment has this id
abbrev pub NotHeld : ℕ → World → Type 0
NotHeld id w = find? (has_id_and id PaymentStatus.held) w.payments ≡ none

-- the row that an update returns has the id that it asked for
found-id :
    (id : ℕ) (s : PaymentStatus) (change : Payment → Payment) (q : Payment) (ps : List Payment)
    → ((p : Payment) → (change p).id ≡ p.id)
    → found (Option.map change (find? (has_id_and id s) ps)) ≡ ok q
    → q.id ≡ id
found-id id s change q [] keeps e = cc
found-id id s change q (p ∷ ps) keeps e = ground (arith, keeps p, found-id id s change q ps keeps)

mark_payment_refunded-Yields :
    (id : ℕ) (r s : Option String) → Yields (mark_payment_refunded id r s) (λ q. NotHeld q.id)
unfolding mark_payment_refunded update_payments
mark_payment_refunded-Yields id r s = Yields-query _ λ t u w q e.
    let change = λ (p : Payment). record p {
      status = PaymentStatus.refunded;
      auto_refund_reference = r;
      failure_reason = s;
      updated_at = t;
    } in
    subst
      (λ k.
        find? (has_id_and k PaymentStatus.held)
          (update_where (has_id_and id PaymentStatus.held) change w.payments)
        ≡ none)
      (sym (found-id id PaymentStatus.held change q w.payments (λ p. refl) e))
      (find-update_where-none (has_id_and id PaymentStatus.held) change (λ p. ground arith)
        w.payments)

NotHeld-stable : (id : ℕ) (w w' : World) → IsQuiet w w' → NotHeld id w → NotHeld id w'
NotHeld-stable id w w' h n =
    subst (λ ps. find? (has_id_and id PaymentStatus.held) ps ≡ none) (sym h.payments) n

complete_undo-YieldsFrom :
    (id : ℕ) (p : Payment) → YieldsFrom (NotHeld p.id) (complete_undo id p) (λ q. NotHeld q.id)
unfolding complete_undo
complete_undo-YieldsFrom id p =
    YieldsFrom-bind {R = IsQuiet} (NotHeld p.id) (NotHeld-stable p.id) _ _
      (search quiet_rules depth 8)
      λ _.
        YieldsFrom-bind {R = IsQuiet} (NotHeld p.id) (NotHeld-stable p.id) _ _
          (search quiet_rules depth 8)
          λ _.
            YieldsFrom-bind {R = IsQuiet} (NotHeld p.id) (NotHeld-stable p.id) _ _
              (search quiet_rules depth 8)
              λ _.
                YieldsFrom-bind {R = IsQuiet} (NotHeld p.id) (NotHeld-stable p.id) _ _
                  (search quiet_rules depth 8) λ _. YieldsFrom-pure p (λ w h. h)

undo-Yields : (req : UndoRequest) → Yields (undo req) (λ q. NotHeld q.id)
unfolding undo issue_undo
undo-Yields req =
    search
      (
        yields_rules,
        λ (id : ℕ) (p : Payment) (r s : Option String) (e : Error) (t : String).
            Yields-bind_yields _ (rows_or e t (mark_payment_refunded p.id r s)) _
              (Yields-rows_or e t _ (mark_payment_refunded-Yields p.id r s))
              (complete_undo-YieldsFrom id),
      )
      depth 12

-- Once `Undo` has returned a payment, a release of its hold, by the timer or by the reconciler and
-- whatever the environment answers, changes nothing but the count of turns: no transfer is sent, no
-- ledger entry is written and the payment stays as it is.
pub release_hold-after_undo :
    (req : UndoRequest) (env env' : Env) (w : World) (p : Payment)
    → (undo req env w).0 ≡ ok p
    → let w' = (undo req env w).1 in
      release_hold p.id env' w' ≡ (ok tt, record w' { turn = suc w'.turn })
unfolding release_hold release_held_payment ignore ◌>>=◌
release_hold-after_undo req env env' w p done =
    let w' = (undo req env w).1 in
    let (e, missed) =
      update_payments-misses (has_id_and p.id PaymentStatus.held)
        (λ t q. record q { status = PaymentStatus.transferring; updated_at = t }) env' w'
        ((undo-Yields req).at env w p done) in
    ground arith
