-- ===== src/Conserves/Jobs.antt =====
-- The sweeps of the reconciler, and the limits that they apply, step by a relation that conserves.
use echopay.Common.{ℕ, ℤ, List, [], ◌∷◌, Bool, true, false}
use echopay.Store.Models.{Payment, PaystackStatus, PendingLimitChange, User}
use echopay.World.{World}
use echopay.Action.Steps.{Steps, steps_rules}
use echopay.Risk.Limits.{change_limits, set_limits, cancel_pending, apply_one, apply_all, apply_due}
use echopay.Payments.Undo.{refund_charge}
use echopay.Jobs.Reconciler.{
  verify_transfer, verify_transaction, settle, fail_token, close_transfer, reconcile_transfer,
  reconcile_charge, age_out, reconcile_one, has_landed, refund_stuck, auto_refund_one,
  attempt_auto_refunds, sweep, release_due,
}
use echopay.Conserves.{Conserves}
use echopay.Conserves.Queries.{query_steps}
use echopay.Conserves.Payments.{release_due_holds-Steps}

module _ {R : World → World → Type 0} (c : Conserves R) where
  change_limits-Steps :
      (d u : ℕ) (x y : ℤ) (old : User) (b : Bool) → Steps R (change_limits d u x y old b)
  unfolding change_limits
  change_limits-Steps d u x y old true = search (steps_rules, query_steps) depth 16
  change_limits-Steps d u x y old false = search (steps_rules, query_steps) depth 16

  pub set_limits-Steps : (d u : ℕ) (x y : ℤ) → Steps R (set_limits d u x y)
  unfolding set_limits
  set_limits-Steps d u x y = search (steps_rules, query_steps, change_limits-Steps) depth 16

  pub cancel_pending-Steps : (u : ℕ) → Steps R (cancel_pending u)
  unfolding cancel_pending
  cancel_pending-Steps u = search query_steps

  apply_one-Steps : (p : PendingLimitChange) → Steps R (apply_one p)
  unfolding apply_one
  apply_one-Steps p = search (steps_rules, query_steps) depth 8

  apply_all-Steps : (ps : List PendingLimitChange) → Steps R (apply_all ps)
  unfolding apply_all
  apply_all-Steps [] = search steps_rules
  apply_all-Steps (p ∷ ps) = search (steps_rules, apply_one-Steps p, apply_all-Steps ps)

  apply_due-Steps : (n : ℕ) → Steps R (apply_due n)
  unfolding apply_due
  apply_due-Steps n = search (steps_rules, query_steps, apply_all-Steps) depth 8

  settle-Steps : (p : Payment) → Steps R (settle p)
  unfolding settle
  settle-Steps p = search (steps_rules, query_steps) depth 8

  fail_token-Steps : (p : Payment) → Steps R (fail_token p)
  unfolding fail_token
  fail_token-Steps p = search (steps_rules, query_steps) depth 8

  close_transfer-Steps : (s : PaystackStatus) (p : Payment) → Steps R (close_transfer s p)
  unfolding close_transfer
  close_transfer-Steps PaystackStatus.success p = settle-Steps p
  close_transfer-Steps PaystackStatus.failed p = search (steps_rules, query_steps, fail_token-Steps)
  close_transfer-Steps PaystackStatus.reversed p =
      search (steps_rules, query_steps, fail_token-Steps)
  close_transfer-Steps (PaystackStatus.other s) p = search steps_rules

  reconcile_one-Steps : (p : Payment) → Steps R (reconcile_one p)
  unfolding reconcile_one reconcile_transfer reconcile_charge age_out verify_transfer
      verify_transaction
  reconcile_one-Steps p =
      search (steps_rules, query_steps, close_transfer-Steps, fail_token-Steps) depth 12

  auto_refund_one-Steps : (p : Payment) → Steps R (auto_refund_one p)
  unfolding auto_refund_one has_landed refund_stuck verify_transfer refund_charge
  auto_refund_one-Steps p =
      search (steps_rules, query_steps, settle-Steps, fail_token-Steps) depth 12

  attempt_auto_refunds-Steps : Steps R attempt_auto_refunds
  unfolding attempt_auto_refunds
  attempt_auto_refunds-Steps = search (steps_rules, query_steps, auto_refund_one-Steps) depth 8

  pub sweep-Steps : Steps R sweep
  unfolding sweep
  sweep-Steps =
      search
        (steps_rules, query_steps, apply_due-Steps, reconcile_one-Steps, attempt_auto_refunds-Steps)
        depth 12

  pub release_due-Steps : Steps R release_due
  unfolding release_due
  release_due-Steps = search (steps_rules, release_due_holds-Steps)
