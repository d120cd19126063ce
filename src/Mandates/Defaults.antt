-- ===== src/Mandates/Defaults.antt =====
-- What SetDefault, VerifyMandate and Revoke leave behind.
use echopay.Common.{
  ==_eq, ℕ, Bool, true, false, ◌&&◌, Option, none, some, List, [], ◌∷◌, ◌≡◌, ◌≢◌, refl, sym, ap,
  ◌∙◌, subst, find?, find?_passes, update_where, select, select-untouched, not, All, ◌==◌, arith,
  inl, inr, Bool-cases,
}
use echopay.Store.Models.{Mandate, MandateStatus, is_active}
use echopay.Store.Users.{get_mandate_by_id}
use echopay.Store.Mandates.{
  unset, as_default, is_own_mandate, clashes, set_default_row, unset_default_mandate,
  set_default_mandate, revoke_mandate,
}
use echopay.World.{Env, World, Result, ok, err, failure}
use echopay.Action.Ends.{
  bind_then, within_query_then, within-ends, query-ends, require_then, select_one-ends,
}
use echopay.Payments.Checks.{validated_mandate}
use echopay.Mandates.{set_default, revoke}

-- no mandate of the user is a default but those with the id
abbrev pub IsDefaultOnly : ℕ → ℕ → Mandate → Type 0
IsDefaultOnly user id m = m.user_id ≡ user → m.is_default ≡ true → m.id ≡ id

default_only :
    (user id : ℕ) (rows : List Mandate)
    → All (IsDefaultOnly user id) (
        update_where
          (is_own_mandate id user)
          as_default
          (update_where (λ m. m.user_id == user && m.is_default) unset rows))
default_only user id [] = tt
default_only user id (m ∷ rows) = (λ own set. ground arith, default_only user id rows)

own_stays :
    (id user : ℕ) (rows : List Mandate) (x : Mandate)
    → find? (is_own_mandate id user) rows ≡ some x
    → find?
        (λ y. y.id == id && y.user_id == user)
        (update_where (is_own_mandate id user) as_default rows)
      ≡ some (as_default x)
own_stays id user [] x h = cc
own_stays id user (y ∷ rows) x h = elim (Bool-cases (is_own_mandate id user y)) [
  | inl this ↦ ground arith
  | inr other ↦ ground (arith, own_stays id user rows x)
]

set_row-ends :
    (id user : ℕ) (w w' : World) (o : Option Mandate) (m : Mandate)
    → find? (is_own_mandate id user) w.mandates ≡ o
    → set_default_row id user w o ≡ (ok m, w')
    → (m.is_default ≡ true)
      × (m.id ≡ id)
      × (m.user_id ≡ user)
      × (w'.mandates ≡ update_where (is_own_mandate id user) as_default w.mandates)
      × (find? (λ x. x.id == id && x.user_id == user) w'.mandates ≡ some m)
set_row-ends id user w w' none m known done =
    absurd (cc (ap (λ (x : Result Mandate × World). x.0) done))
set_row-ends id user w w' (some x) m known done = elim (Bool-cases (clashes id user x w)) [
  | inl taken ↦
      let refused : set_default_row id user w (some x) ≡ (err (failure "constraint violated"), w) =
        rw taken refl in
      absurd (cc (ap (λ (y : Result Mandate × World). y.0) (sym done ∙ refused)))
  | inr free ↦
      let went : set_default_row id user w (some x) ≡ (
        ok (as_default x),
        record w { mandates = update_where (is_own_mandate id user) as_default w.mandates },
      ) =
        rw free refl in
      let same : as_default x ≡ m =
        cc (ap (λ (y : Result Mandate × World). y.0) (sym went ∙ done)) in
      let own = find?_passes (is_own_mandate id user) w.mandates x known in
      (
        sym (ap (λ (y : Mandate). y.is_default) same),
        sym (ap (λ (y : Mandate). y.id) same) ∙ ground arith,
        sym (ap (λ (y : Mandate). y.user_id) same) ∙ ground arith,
        sym (ap (λ (y : Result Mandate × World). y.1.mandates) (sym went ∙ done)),
        subst (λ rows. find? (λ y. y.id == id && y.user_id == user) rows ≡ some m)
            (ap (λ (y : Result Mandate × World). y.1.mandates) (sym went ∙ done))
            (own_stays id user w.mandates x known ∙ ap some same),
      )
]

-- Where SetDefault returns a mandate, it is the user's mandate of that id and a default, the table holds
-- it so, no mandate of the user with another id is a default, and the mandates of the other users are as
-- they were.
pub set_default-IsDefaultOnly :
    (user id : ℕ) (env : Env) (w w' : World) (m : Mandate)
    → set_default user id env w ≡ (ok m, w')
    → (m.is_default ≡ true)
      × (m.id ≡ id)
      × (m.user_id ≡ user)
      × (find? (λ x. x.id == id && x.user_id == user) w'.mandates ≡ some m)
      × All (IsDefaultOnly user id) w'.mandates
      × (select (λ x. not (x.user_id == user)) w'.mandates
          ≡ select (λ x. not (x.user_id == user)) w.mandates)
unfolding set_default unset_default_mandate set_default_mandate
set_default-IsDefaultOnly user id env w w' m done =
    within_query_then "unset default" _ _ env w w' m done λ _ v first rest.
      let cleared = ap (λ (x : Result (Unit {0}) × World). x.1.mandates) first in
      let (set, this, own, rows, held) =
        set_row-ends id user _ w' _ m refl (query-ends _ env v w' m rest) in
      (
        set,
        this,
        own,
        held,
        subst (All (IsDefaultOnly user id))
            (sym (rows ∙ ap (update_where (is_own_mandate id user) as_default) (sym cleared)))
            (default_only user id w.mandates),
        ap (select (λ x. not (x.user_id == user)))
              (rows ∙ ap (update_where (is_own_mandate id user) as_default) (sym cleared))
            ∙ select-untouched (is_own_mandate id user) as_default (λ x. not (x.user_id == user))
                (λ x. refl) (λ x h. ground arith)
                (update_where (λ x. x.user_id == user && x.is_default) unset w.mandates)
            ∙ select-untouched (λ x. x.user_id == user && x.is_default) unset
                (λ x. not (x.user_id == user)) (λ x. refl) (λ x h. ground arith) w.mandates,
      )

abbrev IsRevoked : ℕ → ℕ → Mandate → Type 0
IsRevoked user id m = m.id ≡ id → m.user_id ≡ user → is_active m.status ≡ false

-- the rows of the mandate are revoked
revoked_rows :
    (user id t : ℕ) (rows : List Mandate)
    → All (IsRevoked user id) (
        update_where
          (is_own_mandate id user)
          (λ m. record m {
            status = MandateStatus.revoked;
            revoked_at = some t;
            is_default = false;
          })
          rows)
revoked_rows user id t [] = tt
revoked_rows user id t (m ∷ rows) = (λ this own. ground arith, revoked_rows user id t rows)

found_All :
    (Q : Mandate → Type 0) (test : Mandate → Bool) (rows : List Mandate) (m : Mandate)
    → All Q rows
    → find? test rows ≡ some m
    → Q m
found_All Q test [] m all h = cc
found_All Q test (x ∷ rows) m all h = elim (Bool-cases (test x)) [
  | inl this ↦ subst Q (ground arith) all.0
  | inr other ↦ found_All Q test rows m all.1 (ground arith)
]

-- Once Revoke has returned, no payment of the user goes through with that mandate: it is not validated.
pub revoke-validated_mandate :
    (user id : ℕ) (env env' : Env) (w w' v : World) (m : Mandate)
    → revoke user id env w ≡ (ok tt, w')
    → v.mandates ≡ w'.mandates
    → (validated_mandate id user env' v).0 ≢ ok m
unfolding revoke revoke_mandate validated_mandate get_mandate_by_id
revoke-validated_mandate user id env env' w w' v m done same valid =
    let v' = (validated_mandate id user env' v).1 in
    bind_then _ _ env' v v' m (ap (λ (r : Result Mandate). (r, v')) valid) λ x v1 first d1.
      let (known, moved) = select_one-ends _ _ env' v v1 x (within-ends _ _ env' v v1 x first) in
      let (own, d2) = require_then (x.user_id == user) _ _ env' v1 v' m d1 in
      let (active, d3) = require_then (is_active x.status) _ _ env' v1 v' m d2 in
      let rows =
        ap (λ (y : Result (Unit {0}) × World). y.1.mandates) (query-ends _ env w w' tt done) in
      let dead =
        found_All (IsRevoked user id) (λ y. y.id == id) w'.mandates x
          (subst (All (IsRevoked user id)) rows (revoked_rows user id (env.time w.turn) w.mandates))
          (subst (λ ms. find? (λ y. y.id == id) ms ≡ some x) same known) in
      let this = find?_passes (λ y. y.id == id) v.mandates x known in
      ground (arith, dead (==_eq x.id id this) (==_eq x.user_id user own))
