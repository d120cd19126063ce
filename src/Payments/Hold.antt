-- ===== src/Payments/Hold.antt =====
-- internal/payments/service.go: the held path. The charge runs at once, and the transfer when the
-- undo window has elapsed: by the in-process timer, or by the safety net of the reconciler.
pub mod Timers
pub mod Held
pub mod Released
use Prim.Native.String.{◌++◌}
use echopay.Common.{ℕ, ◌+◌, not, Option, none, some, List, ◌∷◌, select, length, ◌==◌}
use echopay.Store.Models.{User, Mandate, Token, Payment}
use echopay.Store.Payments.{
  hold_payment, list_expired_holds, release_held_payment, mark_payment_settled,
}
use echopay.Store.Tokens.{get_token_by_id, mark_token_settled}
use echopay.Store.Users.{get_user_by_id}
use echopay.World.{HoldTimer, error_text}
use echopay.Action.{Action, pure, now, modify, ◌>>=◌, ◌>>◌, handle, within, ignore, on_some, each}
use echopay.Push.{notify_payment_received}
use echopay.Ledger.{record_payment_pair}
use echopay.Payments.Legs.{charge, transfer, fail, deref, sender_name}

abbrev pub without_timer : ℕ → List HoldTimer → List HoldTimer
without_timer id = select (λ t. not (t.payment_id == id))

-- `delete(s.holdTimers, id)`, after `Stop`
unfoldable pub drop_timer : ℕ → Action (Unit {0})
drop_timer id = modify λ w. record w { hold_timers = without_timer id w.hold_timers }

-- `s.holdTimers[id] = time.AfterFunc(…)`, after the `Stop` of an older one
unfoldable pub set_timer : ℕ → ℕ → Action (Unit {0})
set_timer id fires_at = modify λ w. record w {
  hold_timers = record { payment_id = id; fires_at = fires_at } ∷ without_timer id w.hold_timers;
}

unfoldable pub schedule_hold_release : ℕ → ℕ → Action (Unit {0})
schedule_hold_release id window = do t ← now; set_timer id (t + window)

unfoldable pub orchestrate_held :
    Payment → User → User → Mandate → Option Token → ℕ → Action Payment
orchestrate_held payment sender receiver mandate tok window = do
  debited ←
      handle (charge payment sender mandate) (λ e. fail payment tok ("charge: " ++ error_text e))
  t ← now
  held ← within "hold payment" (hold_payment debited.id (t + window))
  schedule_hold_release held.id window
  pure held

-- a token that cannot be loaded is treated as no token
unfoldable pub load_token : Option ℕ → Action (Option Token)
load_token none = pure none
load_token (some id) = handle (do k ← get_token_by_id id; pure (some k)) (λ _. pure none)

-- what follows once this call has moved the payment from held to transferring
unfoldable pub complete_release : Payment → Action (Unit {0})
complete_release released = do
  receiver ← get_user_by_id released.receiver_user_id
  sender ← get_user_by_id released.sender_user_id
  tok ← load_token released.token_id
  sent ←
      handle (transfer released receiver)
        (λ e. fail released tok ("transfer (post-hold): " ++ error_text e))
  handle
      (record_payment_pair sent.id sent.sender_user_id sent.receiver_user_id sent.amount_kobo
        (deref sent.charge_reference ""))
      (λ e. fail sent tok ("ledger (post-hold): " ++ error_text e))
  settled ← mark_payment_settled sent.id
  on_some tok (λ k. ignore (mark_token_settled k.id settled.id))
  notify_payment_received settled (sender_name sender)

-- every error is only logged
unfoldable pub release_hold : ℕ → Action (Unit {0})
release_hold id = ignore (do released ← release_held_payment id; complete_release released)

-- the function that `time.AfterFunc` runs
unfoldable pub timer_fires : ℕ → Action (Unit {0})
timer_fires id = do drop_timer id; release_hold id

unfoldable pub release_due_holds : ℕ → Action ℕ
release_due_holds batch_size = do
  t ← now
  rows ← list_expired_holds t batch_size
  each rows (λ p. release_hold p.id)
  pure (length rows)
