-- ===== src/Store/Limits.antt =====
-- internal/store/pending_limits.sql.go and `UpdateUserLimits` of users.sql.go, with the constraints
-- of migration 000008.
use mathlib.Core.Option
use echopay.Common.{
  ℕ, Bool, not, ◌&&◌, none, some, List, ◌∷◌, ℤ, pos_part, is_positive, find?, select, update_where,
  is_some, sort_by, take, leb, ◌==◌, if◌then◌else◌,
}
use echopay.Store.Models.{User, PendingLimitChange}
use echopay.World.{World, ok, err, failure}
use echopay.Action.{Action, query}
use echopay.Store.Query.{found, select_one, select_many}

-- the columns have no CHECK: the callers pass positive amounts
unfoldable pub update_user_limits : ℕ → ℕ → ℕ → Action User
update_user_limits id per_tx per_day = query λ t u w.
    let change = λ (r : User). record r {
      per_tx_limit_kobo = per_tx;
      per_day_limit_kobo = per_day;
      updated_at = t;
    } in
    (
      found (Option.map change (find? (λ r. r.id == id) w.users)),
      record w { users = update_where (λ r. r.id == id) change w.users },
    )

-- applied_at IS NULL AND cancelled_at IS NULL
abbrev pub is_pending : PendingLimitChange → Bool
is_pending p = not (is_some p.applied_at) && not (is_some p.cancelled_at)

-- user_id = $1 AND applied_at IS NULL AND cancelled_at IS NULL
abbrev pub is_pending_of : ℕ → PendingLimitChange → Bool
is_pending_of user p = p.user_id == user && is_pending p

unfoldable pub cancel_pending_limit_changes : ℕ → Action (Unit {0})
cancel_pending_limit_changes user = query λ t u w. (
  ok tt,
  record w {
    pending_limits =
        update_where (is_pending_of user) (λ p. record p { cancelled_at = some t })
          w.pending_limits;
  },
)

-- CHECK (… > 0), and one pending change for each user
abbrev pub accepts_pending : ℕ → ℕ → ℤ → ℤ → World → Bool
accepts_pending id user per_tx per_day w =
    not (is_some (find? (λ p. p.id == id) w.pending_limits))
    && is_positive per_tx
    && is_positive per_day
    && not (is_some (find? (is_pending_of user) w.pending_limits))
    && is_some (find? (λ r. r.id == user) w.users)

abbrev pub new_pending : ℕ → ℕ → ℕ → ℤ → ℤ → ℕ → PendingLimitChange
new_pending t id user per_tx per_day applies_at = record {
  id = id;
  user_id = user;
  per_tx_limit_kobo = pos_part per_tx;
  per_day_limit_kobo = pos_part per_day;
  applies_at = applies_at;
  applied_at = none;
  cancelled_at = none;
  created_at = t;
}

unfoldable pub create_pending_limit_change : ℕ → ℤ → ℤ → ℕ → Action PendingLimitChange
create_pending_limit_change user per_tx per_day applies_at = query λ t id w.
    let row = new_pending t id user per_tx per_day applies_at in
    if accepts_pending id user per_tx per_day w
    then (ok row, record w { pending_limits = row ∷ w.pending_limits })
    else (err (failure "constraint violated"), w)

unfoldable pub get_pending_limit_change : ℕ → Action PendingLimitChange
get_pending_limit_change user = select_one (λ w. w.pending_limits) (is_pending_of user)

unfoldable pub list_due_pending_limits : ℕ → ℕ → Action (List PendingLimitChange)
list_due_pending_limits t limit =
    select_many (λ w. w.pending_limits)
      (λ _ rows.
        take limit
          (sort_by (λ p. p.applies_at) (select (λ p. is_pending p && leb p.applies_at t) rows)))

unfoldable pub mark_pending_limit_applied : ℕ → Action (Unit {0})
mark_pending_limit_applied id = query λ t u w. (
  ok tt,
  record w {
    pending_limits =
        update_where (λ p. p.id == id) (λ p. record p { applied_at = some t }) w.pending_limits;
  },
)
