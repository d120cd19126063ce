-- ===== src/System/Runs.antt =====
-- A relation that conserves holds between the two ends of every run.
use echopay.Common.{List, [], ◌∷◌}
use echopay.World.{Env, World}
use echopay.Action.Steps.{Steps, steps_rules}
use echopay.Conserves.{Conserves}
use echopay.Conserves.Payments.{
  issue-Steps, resolve-Steps, create-Steps, refund-Steps, undo-Steps, timer_fires-Steps,
}
use echopay.Conserves.Webhook.{handle_webhook_event-Steps}
use echopay.Conserves.Jobs.{set_limits-Steps, cancel_pending-Steps, sweep-Steps, release_due-Steps}
use echopay.System.{
  Event, token_issued, token_resolved, payment_created, payment_refunded, payment_undone,
  limits_set, limits_cancelled, timer_fired, webhook_received, swept, holds_released, dispatch, run,
}

module _ {R : World → World → Type 0} (c : Conserves R) where
  pub dispatch-Steps : (e : Event) → Steps R (dispatch e)
  unfolding dispatch
  dispatch-Steps (token_issued code req) = search (steps_rules, issue-Steps)
  dispatch-Steps (token_resolved code) = search (steps_rules, resolve-Steps)
  dispatch-Steps (payment_created req) = search (steps_rules, create-Steps)
  dispatch-Steps (payment_refunded req) = search (steps_rules, refund-Steps)
  dispatch-Steps (payment_undone req) = search (steps_rules, undo-Steps)
  dispatch-Steps (limits_set cooldown user x y) = search (steps_rules, set_limits-Steps)
  dispatch-Steps (limits_cancelled user) = cancel_pending-Steps c user
  dispatch-Steps (timer_fired id) = timer_fires-Steps c id
  dispatch-Steps (webhook_received ev) = handle_webhook_event-Steps c ev
  dispatch-Steps swept = search (steps_rules, sweep-Steps)
  dispatch-Steps holds_released = release_due-Steps c

  pub run-Conserves : (env : Env) (es : List Event) (w : World) → R w (run env es w)
  unfolding run
  run-Conserves env [] w = c.frame.stays w
  run-Conserves env (e ∷ es) w =
      c.frame.goes_on w _ _ ((dispatch-Steps e).at env w)
        (run-Conserves env es (dispatch e env w).1)
