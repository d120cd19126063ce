-- ===== src/Payments/Create/Parts.antt =====
-- What each check of a Create that returns has established.
use echopay.Common.{
  ℕ, suc, ◌≡◌, inl, inr, sym, ap, subst, ◌∙◌, String, Bool, true, false, Option, none, some, List,
  ◌∷◌, find?, arith, ◌==◌, ==_eq, ==_refl, str_eq, Option-cases, if◌then◌else◌,
}
use echopay.Store.Models.{Payment, Mandate, User, is_active}
use echopay.Store.Query.{select_one}
use echopay.Store.Users.{get_mandate_by_id, get_user_by_id}
use echopay.Store.Payments.{
  has_id, create_payment, CreatePaymentParams, new_payment, get_payment_by_idempotency_key,
}
use echopay.World.{Env, World, Error, Result, ok, err}
use echopay.Action.{Action, pure, raise, ◌>>=◌, handle, query}
use echopay.Action.Ends.{
  bind_then, handle-ends, within-ends, query-ends, require-ends, select_one-ends,
}
use echopay.Action.Yields.{yields_rules}
use echopay.Payments.Types.{Receipt}
use echopay.Payments.Checks.{idempotent_return, validated_mandate}
use echopay.Payments.Create.{or_fail_token}

-- an insertion that returns a row has taken the branch that adds it
inserted :
    (b : Bool) (row p : Payment) (v v' w' : World) (e : Error)
    → ◌≡◌ {A = Result Payment × World} (if b then (ok row, v') else (err e, v)) (ok p, w')
    → (p ≡ row) × (w' ≡ v')
inserted true row p v v' w' e done = (ground (arith, ap (λ x. x.0) done), sym (ap (λ x. x.1) done))
inserted false row p v v' w' e done = ground (arith, ap (λ x. x.0) done)

head_found : (p : Payment) (ps : List Payment) → find? (has_id p.id) (p ∷ ps) ≡ some p
head_found p ps = ground (arith, ==_refl p.id)

pub create_payment-ends :
    (a : CreatePaymentParams) (env : Env) (w w' : World) (p : Payment)
    → create_payment a env w ≡ (ok p, w')
    → (p ≡ new_payment (env.time w.turn) (env.random_uuid w.turn) a)
      × (find? (has_id p.id) w'.payments ≡ some p)
      × (w'.exchanges ≡ w.exchanges)
      × (w'.ledger_entries ≡ w.ledger_entries)
unfolding create_payment
create_payment-ends a env w w' p done =
    let stepped = query-ends _ env w w' p done in
    let (row, after) = inserted _ _ p _ _ w' _ stepped in
    (
      row,
      subst (λ x. find? (has_id x.id) w'.payments ≡ some x) (sym row)
          (subst
            (λ v.
              find? (has_id (new_payment (env.time w.turn) (env.random_uuid w.turn) a).id)
                v.payments
              ≡ some (new_payment (env.time w.turn) (env.random_uuid w.turn) a))
            (sym after)
            (head_found (new_payment (env.time w.turn) (env.random_uuid w.turn) a) w.payments)),
      ap (λ v. v.exchanges) after,
      ap (λ v. v.ledger_entries) after,
    )

pub get_user_by_id-ticks :
    (id : ℕ) (env : Env) (w w' : World) (u : User)
    → get_user_by_id id env w ≡ (ok u, w')
    → w' ≡ record w { turn = suc w.turn }
unfolding get_user_by_id
get_user_by_id-ticks id env w w' u done =
    (select_one-ends (λ v. v.users) (λ r. r.id == id) env w w' u done).1

pub validated_mandate-ends :
    (id user : ℕ) (env : Env) (w w' : World) (m : Mandate)
    → validated_mandate id user env w ≡ (ok m, w')
    → (find? (λ x. x.id == id) w.mandates ≡ some m)
      × (m.user_id ≡ user)
      × (is_active m.status ≡ true)
      × (w' ≡ record w { turn = suc w.turn })
unfolding validated_mandate get_mandate_by_id pure
validated_mandate-ends id user env w w' m done = bind_then _ _ env w w' m done λ x w1 first d1.
    bind_then _ _ env w1 w' m d1 λ _ w2 second d2. bind_then _ _ env w2 w' m d2 λ _ w3 third d3.
      let (stored, ticked) =
        select_one-ends (λ v. v.mandates) (λ r. r.id == id) env w w1 x
          (within-ends _ _ env w w1 x first) in
      let (mine, same2) = require-ends _ _ env w1 w2 second in
      let (active, same3) = require-ends _ _ env w2 w3 third in
      let same : m ≡ x = ground (arith, ap (λ z. z.0) d3) in
      (
        stored ∙ ap some (sym same),
        ap (λ z. z.user_id) same ∙ ==_eq x.user_id user mine,
        ap (λ z. is_active z.status) same ∙ active,
        sym (ap (λ z. z.1) d3) ∙ sym same3 ∙ sym same2 ∙ ticked,
      )

pub or_fail_token-ends :
    (id : ℕ) (m : Action (Unit {0})) (env : Env) (w w' : World)
    → or_fail_token id m env w ≡ (ok tt, w')
    → m env w ≡ (ok tt, w')
unfolding or_fail_token
or_fail_token-ends id m env w w' done = handle-ends m _ env w w' tt (λ e. search yields_rules) done

pub idempotent_return-ends :
    (key : String) (env : Env) (w w' : World) (r : Option Receipt)
    → find? (λ p. str_eq p.idempotency_key key) w.payments ≡ none
    → idempotent_return key env w ≡ (ok r, w')
    → (r ≡ none) × (w' ≡ record w { turn = suc w.turn })
unfolding idempotent_return get_payment_by_idempotency_key select_one query ◌>>=◌ handle pure raise
idempotent_return-ends key env w w' r fresh done = elim (Option-cases (env.database_fault w.turn)) [
  | inl quiet ↦ (ground arith, ground arith)
  | inr (text, fault) ↦ ground arith
]
