-- ===== src/Store/Races.antt =====
-- The conditional updates that decide a race on a held payment.
use echopay.Common.{
  ℕ, ◌≡◌, refl, String, Bool, false, Option, none, List, [], ◌∷◌, find?, update_where, arith,
  Option-cases, suc, inl, inr,
}
use echopay.Store.Models.{Payment, PaymentStatus}
use echopay.Store.Payments.{
  has_id_and, update_payments, release_held_payment, mark_payment_refunded,
}
use echopay.World.{Env, World, Error, ok, err, no_rows, failure}
use echopay.Action.{query}

-- An update that falsifies its own test leaves no row that passes it.
pub find-update_where-none :
    (test : Payment → Bool) (change : Payment → Payment)
    → ((p : Payment) → test (change p) ≡ false)
    → (ps : List Payment) → find? test (update_where test change ps) ≡ none
find-update_where-none test change leaves [] = refl
find-update_where-none test change leaves (p ∷ ps) =
    ground (arith, leaves p, find-update_where-none test change leaves ps)

update_where-missing :
    (test : Payment → Bool) (change : Payment → Payment) (ps : List Payment)
    → find? test ps ≡ none
    → update_where test change ps ≡ ps
update_where-missing test change [] h = refl
update_where-missing test change (p ∷ ps) h = ground (arith, update_where-missing test change ps)

-- An update that has gone through and falsifies its own test leaves no row that passes it.
pub update_payments-leaves :
    (test : Payment → Bool) (change : ℕ → Payment → Payment) (env : Env) (w : World) (p : Payment)
    → ((t : ℕ) (p : Payment) → test (change t p) ≡ false)
    → (update_payments test change env w).0 ≡ ok p
    → find? test (update_payments test change env w).1.payments ≡ none
unfolding update_payments query
update_payments-leaves test change env w p leaves e =
    elim (Option-cases (env.database_fault w.turn)) [
      | inl quiet ↦ ground (
        arith,
        find-update_where-none test (change (env.time w.turn)) (leaves (env.time w.turn))
            w.payments,
      )
      | inr (text, fault) ↦ ground arith
    ]

-- An update that finds no row fails and changes nothing but the count of turns.
pub update_payments-misses :
    (test : Payment → Bool) (change : ℕ → Payment → Payment) (env : Env) (w : World)
    → find? test w.payments ≡ none
    → (e : Error) × (update_payments test change env w ≡ (err e, record w { turn = suc w.turn }))
unfolding update_payments query
update_payments-misses test change env w missing = elim (Option-cases (env.database_fault w.turn)) [
  | inl quiet ↦ (
    no_rows,
    ground (arith, update_where-missing test (change (env.time w.turn)) w.payments missing),
  )
  | inr (text, fault) ↦ (failure text, ground arith)
]

-- Once `mark_payment_refunded` has returned a row, `release_held_payment` of the same payment fails
-- and changes nothing but the count of turns, whatever the environment answers: the undo has won the
-- race and the timer cannot send the money.
pub release-after_refund :
    (id : ℕ) (reference reason : Option String) (env env' : Env) (w : World) (p : Payment)
    → (mark_payment_refunded id reference reason env w).0 ≡ ok p
    → let w' = (mark_payment_refunded id reference reason env w).1 in
      (e : Error) × (release_held_payment id env' w' ≡ (err e, record w' { turn = suc w'.turn }))
unfolding mark_payment_refunded release_held_payment
release-after_refund id reference reason env env' w p won =
    update_payments-misses _ _ env' _ (
      update_payments-leaves (has_id_and id PaymentStatus.held) _ env w p (λ t q. ground arith) won)

-- Once `release_held_payment` has returned a row, `mark_payment_refunded` of the same payment fails
-- and changes nothing but the count of turns, whatever the environment answers: the timer has won
-- the race and the undo cannot mark the payment refunded.
pub refund-after_release :
    (id : ℕ) (reference reason : Option String) (env env' : Env) (w : World) (p : Payment)
    → (release_held_payment id env w).0 ≡ ok p
    → let w' = (release_held_payment id env w).1 in
      (e : Error) × (mark_payment_refunded id reference reason env' w'
        ≡ (err e, record w' { turn = suc w'.turn }))
unfolding mark_payment_refunded release_held_payment
refund-after_release id reference reason env env' w p won =
    update_payments-misses _ _ env' _ (
      update_payments-leaves (has_id_and id PaymentStatus.held) _ env w p (λ t q. ground arith) won)
