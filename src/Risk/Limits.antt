-- ===== src/Risk/Limits.antt =====
-- internal/risk/limits.go: lowering the limits is instant, raising them waits for a cooldown.
pub mod Tables
pub mod Cooldown
use echopay.Common.{
  ℕ, zero, suc, ◌+◌, Bool, true, false, ◌&&◌, Option, none, some, List, [], ◌∷◌, ℤ, pos_part,
  is_positive, leb, if◌then◌else◌,
}
use echopay.Store.Models.{User, PendingLimitChange}
use echopay.Store.Users.{get_user_by_id}
use echopay.Store.Limits.{
  update_user_limits, cancel_pending_limit_changes, create_pending_limit_change,
  get_pending_limit_change, list_due_pending_limits, mark_pending_limit_applied,
}
use echopay.World.{is_no_rows, limits_invalid}
use echopay.Action.{Action, pure, raise, now, ◌>>=◌, ◌>>◌, handle, within, require}

-- `Outcome`: the change is applied to this user, or pending
pub data Outcome : Type 0 where
  applied : User → Outcome
  scheduled : User → PendingLimitChange → Outcome

abbrev pub is_lowering : ℤ → ℤ → User → Bool
is_lowering per_tx per_day u =
    leb (pos_part per_tx) u.per_tx_limit_kobo && leb (pos_part per_day) u.per_day_limit_kobo

-- the two ends of `SetLimits`
unfoldable pub change_limits : ℕ → ℕ → ℤ → ℤ → User → Bool → Action Outcome
change_limits cooldown user_id per_tx per_day user true = do
  updated ← within "apply limits" (update_user_limits user_id (pos_part per_tx) (pos_part per_day))
  pure (applied updated)
change_limits cooldown user_id per_tx per_day user false = do
  t ← now
  pending ←
      within "schedule change" (create_pending_limit_change user_id per_tx per_day (t + cooldown))
  pure (scheduled user pending)

-- both limits are positive by the guards of `set_limits`
unfoldable pub set_limits : ℕ → ℕ → ℤ → ℤ → Action Outcome
set_limits cooldown user_id per_tx per_day = do
  require (is_positive per_tx && is_positive per_day) limits_invalid
  require (leb (pos_part per_tx) (pos_part per_day)) limits_invalid
  user ← within "load user" (get_user_by_id user_id)
  within "cancel pending" (cancel_pending_limit_changes user_id)
  change_limits cooldown user_id per_tx per_day user (is_lowering per_tx per_day user)

-- `Pending`
unfoldable pub pending_change : ℕ → Action (Option PendingLimitChange)
pending_change user_id =
    handle (do p ← get_pending_limit_change user_id; pure (some p))
      (λ e. if is_no_rows e then pure none else raise e)

-- `CancelPending`
unfoldable pub cancel_pending : ℕ → Action (Unit {0})
cancel_pending user_id = cancel_pending_limit_changes user_id

-- one round of the loop of `ApplyDue`: whether the change counts as applied
unfoldable pub apply_one : PendingLimitChange → Action Bool
apply_one p =
    handle
      (do
        update_user_limits p.user_id p.per_tx_limit_kobo p.per_day_limit_kobo
        mark_pending_limit_applied p.id
        pure true)
      (λ _. pure false)

unfoldable pub apply_all : List PendingLimitChange → Action ℕ
apply_all [] = pure 0
apply_all (p ∷ ps) = do
  done ← apply_one p
  count ← apply_all ps
  pure (if done then suc count else count)

unfoldable pub apply_due : ℕ → Action ℕ
apply_due batch_size = do
  t ← now
  due ← within "list due" (list_due_pending_limits t batch_size)
  apply_all due
