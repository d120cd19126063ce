-- ===== src/Http/Auth/Quiet.antt =====
-- What the middleware leaves as it is: all but the sessions that it notes as seen.
use echopay.Common.{ℕ, Option, none, some, Bytes, ◌≡◌, refl, ◌∙◌}
use echopay.Codec.{Claims}
use echopay.Store.Models.{UserStatus}
use echopay.Store.Query.{select_one}
use echopay.Store.Users.{get_user_by_id}
use echopay.Store.Devices.{update_sessions, get_active_device_session_by_jti, touch_device_session}
use echopay.World.{World, Error}
use echopay.Action.Steps.{Frame, Steps, Steps-query, steps_rules}
use echopay.Auth.Same.{parse-Steps}
use echopay.Http.{refuse, give}
use echopay.Http.Auth.{touch, admit, lookup_refused, with_token, authenticate}

-- the payments are as they were
pub record SamePayments (w w' : World) : Type 0 where
  pub payments : w'.payments ≡ w.payments

SamePayments-frame : Frame SamePayments
SamePayments-frame = record {
  stays = λ w. record { payments = refl };
  goes_on = λ a b c h k. record { payments = k.payments ∙ h.payments };
  ticks = λ w n. record { payments = refl };
}

touch-SamePayments : (claims : Claims) → Steps SamePayments (touch claims)
unfolding touch touch_device_session update_sessions
touch-SamePayments claims = search (steps_rules, SamePayments-frame, Steps-query SamePayments-frame)

admit-SamePayments : (claims : Claims) (s : UserStatus) → Steps SamePayments (admit claims s)
unfolding refuse give
admit-SamePayments claims UserStatus.active =
    search (steps_rules, SamePayments-frame, touch-SamePayments)
admit-SamePayments claims UserStatus.locked = search (steps_rules, SamePayments-frame)
admit-SamePayments claims UserStatus.suspended = search (steps_rules, SamePayments-frame)

get_session-SamePayments : (jti : ℕ) → Steps SamePayments (get_active_device_session_by_jti jti)
unfolding get_active_device_session_by_jti select_one
get_session-SamePayments jti =
    Steps-query SamePayments-frame _ (λ t u w. SamePayments-frame.stays w)

get_user-SamePayments : (id : ℕ) → Steps SamePayments (get_user_by_id id)
unfolding get_user_by_id select_one
get_user-SamePayments id = Steps-query SamePayments-frame _ (λ t u w. SamePayments-frame.stays w)

lookup_refused-SamePayments : (e : Error) → Steps SamePayments (lookup_refused e)
unfolding refuse
lookup_refused-SamePayments e = search (steps_rules, SamePayments-frame)

with_token-SamePayments : (o : Option Bytes) → Steps SamePayments (with_token o)
unfolding refuse
with_token-SamePayments none = search (steps_rules, SamePayments-frame)
with_token-SamePayments (some token) =
    search
      (
        steps_rules,
        SamePayments-frame,
        parse-Steps SamePayments-frame,
        get_session-SamePayments,
        get_user-SamePayments,
        lookup_refused-SamePayments,
        admit-SamePayments,
      )
      depth 12

pub authenticate-SamePayments : (header : Bytes) → Steps SamePayments (authenticate header)
unfolding authenticate
authenticate-SamePayments header = with_token-SamePayments _
