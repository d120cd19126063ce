-- ===== src/Risk/Limits/Tables.antt =====
-- internal/risk/limits.go: what a change of limits leaves in the tables of users and of pending changes.
use mathlib.Core.Option
use echopay.Common.{
  ==_refl, ℕ, ◌≡◌, refl, ◌∙◌, Bool, true, ◌&&◌, some, List, [], ◌∷◌, find?, update_where, select,
  not, is_some, find?-updated, select-others, ◌==◌, arith, Option-cases, inl, inr,
}
use echopay.Store.Models.{User, PendingLimitChange}
use echopay.Store.Query.{found}
use echopay.Store.Limits.{is_pending_of}
use echopay.World.{ok}

-- not applied, not cancelled, and of this user
abbrev pub awaits : ℕ → PendingLimitChange → Bool
awaits id p = p.user_id == id && not (is_some p.applied_at) && not (is_some p.cancelled_at)

-- after the cancellation none of the user's changes waits
pub cancelled-awaits :
    (id t : ℕ) (ps : List PendingLimitChange)
    → select
        (awaits id)
        (update_where (is_pending_of id) (λ p. record p { cancelled_at = some t }) ps)
      ≡ []
cancelled-awaits id t [] = refl
cancelled-awaits id t (p ∷ ps) = ground (arith, cancelled-awaits id t ps)

pub cancelled-others :
    (id t : ℕ) (ps : List PendingLimitChange)
    → select
        (λ x. not (x.user_id == id))
        (update_where (is_pending_of id) (λ p. record p { cancelled_at = some t }) ps)
      ≡ select (λ x. not (x.user_id == id)) ps
cancelled-others id t [] = refl
cancelled-others id t (p ∷ ps) = ground (arith, cancelled-others id t ps)

pub first_selected :
    (test : PendingLimitChange → Bool) (p : PendingLimitChange) (ps : List PendingLimitChange)
    → test p ≡ true
    → select test ps ≡ []
    → select test (p ∷ ps) ≡ p ∷ []
first_selected test p ps this others = ground arith

pub first_dropped :
    (id : ℕ) (p : PendingLimitChange) (ps : List PendingLimitChange)
    → p.user_id ≡ id
    → select (λ x. not (x.user_id == id)) (p ∷ ps) ≡ select (λ x. not (x.user_id == id)) ps
first_dropped id p ps owner = ground (arith, ==_refl id)

abbrev pub with_limits : ℕ → ℕ → ℕ → User → User
with_limits x y t r = record r { per_tx_limit_kobo = x; per_day_limit_kobo = y; updated_at = t }

-- the table after an update of limits that returns a row
pub stored-limits :
    (id x y t : ℕ) (us : List User) (u : User)
    → found (Option.map (with_limits x y t) (find? (λ r. r.id == id) us)) ≡ ok u
    → (find? (λ r. r.id == id) (update_where (λ r. r.id == id) (with_limits x y t) us) ≡ some u)
      × (select (λ r. not (r.id == id)) (update_where (λ r. r.id == id) (with_limits x y t) us)
          ≡ select (λ r. not (r.id == id)) us)
stored-limits id x y t us u e = elim (Option-cases (find? (λ r. r.id == id) us)) [
  | inl missing ↦ ground arith
  | inr (r, known) ↦ (
    find?-updated (λ r. r.id == id) (with_limits x y t) (λ r. refl) us r known ∙ ground arith,
    select-others (λ r. r.id == id) (with_limits x y t) (λ r. refl) us,
  )
]
