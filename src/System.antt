-- ===== src/System.antt =====
-- The running server as a sequence of events: each one is a whole call of a service, by a client, by
-- Paystack, by a timer of `holdTimers` or by a ticker of the reconciler. Calls do not overlap here.
pub mod Runs
use echopay.Common.{ℕ, String, ℤ, List, [], ◌∷◌}
use echopay.World.{Env, World}
use echopay.Action.{Action, ignore}
use echopay.Tokens.{IssueRequest, issue, resolve}
use echopay.Risk.Limits.{set_limits, cancel_pending}
use echopay.Payments.Types.{CreateRequest, RefundRequest, UndoRequest}
use echopay.Payments.Create.{create, refund}
use echopay.Payments.Undo.{undo}
use echopay.Payments.Hold.{timer_fires}
use echopay.Payments.Webhook.{WebhookEvent, handle_webhook_event}
use echopay.Jobs.Reconciler.{sweep, release_due}

pub data Event : Type 0 where
  -- the code that is drawn, and the request
  token_issued : String → IssueRequest → Event
  token_resolved : String → Event
  payment_created : CreateRequest → Event
  payment_refunded : RefundRequest → Event
  payment_undone : UndoRequest → Event
  -- the cooldown, the user and the two limits
  limits_set : ℕ → ℕ → ℤ → ℤ → Event
  limits_cancelled : ℕ → Event
  timer_fired : ℕ → Event
  webhook_received : WebhookEvent → Event
  swept holds_released : Event

-- what the server runs on an event; the reply goes to the client and not to the world
pub dispatch : Event → Action (Unit {0})
dispatch (token_issued code req) = ignore (issue code req)
dispatch (token_resolved code) = ignore (resolve code)
dispatch (payment_created req) = ignore (create req)
dispatch (payment_refunded req) = ignore (refund req)
dispatch (payment_undone req) = ignore (undo req)
dispatch (limits_set cooldown user x y) = ignore (set_limits cooldown user x y)
dispatch (limits_cancelled user) = cancel_pending user
dispatch (timer_fired id) = timer_fires id
dispatch (webhook_received ev) = handle_webhook_event ev
dispatch swept = ignore sweep
dispatch holds_released = release_due

unfoldable pub run : Env → List Event → World → World
unfolding dispatch
run env [] w = w
run env (e ∷ es) w = run env es (dispatch e env w).1
