-- ===== src/Payments/Hold/Timers.antt =====
-- internal/payments/service.go: what scheduleHoldRelease, and the charge before it, leave of the timers.
use echopay.Common.{
  not, Bool, ℕ, ◌+◌, ◌≡◌, refl, sym, ap, ◌∙◌, List, [], ◌∷◌, select, ◌==◌, ==_refl, arith,
}
use echopay.Store.Models.{Payment, User, Mandate}
use echopay.Store.Payments.{update_payments, update_payment_charge}
use echopay.World.{Env, World, HoldTimer, Result, ok}
use echopay.Action.{Action, now, modify, ◌>>=◌}
use echopay.Action.Steps.{Frame, Sends, Steps, Steps-query, steps_rules}
use echopay.Payments.Hold.{without_timer, set_timer, schedule_hold_release}
use echopay.Payments.Legs.{charge, charge_authorization}

unarmed :
    (id : ℕ) (ts : List HoldTimer) → select (λ t. t.payment_id == id) (without_timer id ts) ≡ []
unarmed id [] = refl
unarmed id (t ∷ ts) = ground (arith, unarmed id ts)

unarmed_others :
    (id : ℕ) (ts : List HoldTimer)
    → select (λ t. not (t.payment_id == id)) (without_timer id ts)
      ≡ select (λ t. not (t.payment_id == id)) ts
unarmed_others id [] = refl
unarmed_others id (t ∷ ts) = ground (arith, unarmed_others id ts)

-- the timers are as they were
pub record SameTimers (w w' : World) : Type 0 where
  pub timers : w'.hold_timers ≡ w.hold_timers

SameTimers-frame : Frame SameTimers
SameTimers-frame = record {
  stays = λ w. record { timers = refl };
  goes_on = λ a b c h k. record { timers = k.timers ∙ h.timers };
  ticks = λ w n. record { timers = refl };
}

SameTimers-sends : Sends SameTimers
SameTimers-sends = record { logs = λ w n x. record { timers = refl } }

pub update_payments-SameTimers :
    (test : Payment → Bool) (change : ℕ → Payment → Payment)
    → Steps SameTimers (update_payments test change)
unfolding update_payments
update_payments-SameTimers test change =
    Steps-query SameTimers-frame _ (λ t u w. record { timers = refl })

pub charge-SameTimers :
    (p : Payment) (sender : User) (m : Mandate) → Steps SameTimers (charge p sender m)
unfolding charge charge_authorization update_payment_charge
charge-SameTimers p sender m =
    search (steps_rules, SameTimers-frame, SameTimers-sends, update_payments-SameTimers) depth 14

pub same_timers :
    {A : Type 0} (m : Action A) (env : Env) (w w' : World) (a : A)
    → Steps SameTimers m
    → m env w ≡ (ok a, w')
    → w'.hold_timers ≡ w.hold_timers
same_timers m env w w' a steps done = ap (λ x. x.1.hold_timers) (sym done) ∙ (steps.at env w).timers

-- a hold that is scheduled leaves one timer of the payment
pub schedule-ends :
    (id window : ℕ) (env : Env) (w w' : World)
    → schedule_hold_release id window env w ≡ (ok tt, w')
    → select (λ t. t.payment_id == id) w'.hold_timers
      ≡ record { payment_id = id; fires_at = env.time w.turn + window } ∷ []
unfolding schedule_hold_release set_timer now modify ◌>>=◌
schedule-ends id window env w w' done =
    ap (λ (x : Result (Unit {0}) × World). select (λ t. t.payment_id == id) x.1.hold_timers)
      (sym done)
    ∙ rw (==_refl id, unarmed id w.hold_timers) refl

pub schedule-others :
    (id window : ℕ) (env : Env) (w w' : World)
    → schedule_hold_release id window env w ≡ (ok tt, w')
    → select (λ t. not (t.payment_id == id)) w'.hold_timers
      ≡ select (λ t. not (t.payment_id == id)) w.hold_timers
unfolding schedule_hold_release set_timer now modify ◌>>=◌
schedule-others id window env w w' done =
    ap (λ (x : Result (Unit {0}) × World). select (λ t. not (t.payment_id == id)) x.1.hold_timers)
      (sym done)
    ∙ rw (==_refl id) (unarmed_others id w.hold_timers)
