-- ===== src/Http/Devices.antt =====
-- internal/http/devices.go: the sessions of a user, and their revocation.
use echopay.Common.{ℕ, Bool, if◌then◌else◌, ◌||◌, Option, none, some, List, ◌==◌}
use mathlib.Core.List.{map}
use echopay.Store.Models.Sessions.{DeviceSession}
use echopay.Store.Devices.{
  list_user_device_sessions, get_active_device_session_by_jti, revoke_device_session,
  revoke_all_other_device_sessions,
}
use echopay.World.{error_text}
use echopay.Action.{Action, attempt}
use echopay.Http.{Outcome, refuse, give, Context, for_user}

-- sessionToJSON
pub record SessionView : Type 0 where
  pub session : DeviceSession
  pub is_current : Bool

unfoldable pub list_devices : Context → Action (Outcome (List SessionView))
list_devices c = for_user c (
    attempt (list_user_device_sessions c.user_id) (λ e. refuse 500 (error_text e))
      λ sessions. give (map (λ s. record { session = s; is_current = s.jti == c.jti }) sessions))

-- `uuid.Parse(c.Param("id"))`
abbrev pub revoke_parsed : Context → Option ℕ → Action (Outcome (Unit {0}))
revoke_parsed c none = refuse 400 "invalid session id"
revoke_parsed c (some id) =
    attempt (revoke_device_session id c.user_id) (λ e. refuse 500 (error_text e)) λ _. give tt

unfoldable pub revoke_device : Context → Option ℕ → Action (Outcome (Unit {0}))
revoke_device c id = for_user c (revoke_parsed c id)

unfoldable pub revoke_all_others : Context → Action (Outcome (Unit {0}))
revoke_all_others c =
    if c.user_id == 0 || c.jti == 0
    then refuse 401 "no user"
    else attempt (get_active_device_session_by_jti c.jti) (λ e. refuse 500 (error_text e))
        λ session.
          attempt (revoke_all_other_device_sessions c.user_id session.id)
            (λ e. refuse 500 (error_text e)) λ _. give tt
