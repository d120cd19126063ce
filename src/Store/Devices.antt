-- ===== src/Store/Devices.antt =====
-- internal/store/device_sessions.sql.go, with the constraints of migration 000011.
use echopay.Common.{
  ℕ, String, Bool, not, ◌&&◌, Option, none, some, List, ◌∷◌, find?, select, update_where, is_some,
  sort_desc_by, ltb, ◌==◌, if◌then◌else◌,
}
use echopay.Store.Models.Sessions.{DeviceSession}
use echopay.World.{World, ok, err, failure}
use echopay.Action.{Action, query}
use echopay.Store.Query.{select_one, select_many}

pub record CreateDeviceSessionParams : Type 0 where
  pub user_id : ℕ
  pub jti : ℕ
  pub fingerprint : Option String
  pub model : Option String
  pub os_name : Option String
  pub os_version : Option String
  pub app_version : Option String

-- PRIMARY KEY, UNIQUE (jti) and the foreign key of the user
abbrev pub accepts_session : ℕ → CreateDeviceSessionParams → World → Bool
accepts_session id a w =
    not (is_some (find? (λ s. s.id == id) w.device_sessions))
    && not (is_some (find? (λ s. s.jti == a.jti) w.device_sessions))
    && is_some (find? (λ u. u.id == a.user_id) w.users)

abbrev pub new_session : ℕ → ℕ → CreateDeviceSessionParams → DeviceSession
new_session t id a = record {
  id = id;
  user_id = a.user_id;
  jti = a.jti;
  fingerprint = a.fingerprint;
  model = a.model;
  os_name = a.os_name;
  os_version = a.os_version;
  app_version = a.app_version;
  last_seen_at = t;
  created_at = t;
  revoked_at = none;
}

unfoldable pub create_device_session : CreateDeviceSessionParams → Action DeviceSession
create_device_session a = query λ t id w.
    if accepts_session id a w
    then (
      ok (new_session t id a),
      record w { device_sessions = new_session t id a ∷ w.device_sessions },
    )
    else (err (failure "constraint violated"), w)

-- revoked_at IS NULL
abbrev pub is_live : DeviceSession → Bool
is_live s = not (is_some s.revoked_at)

abbrev pub has_jti : ℕ → DeviceSession → Bool
has_jti jti s = s.jti == jti && is_live s

unfoldable pub get_active_device_session_by_jti : ℕ → Action DeviceSession
get_active_device_session_by_jti jti = select_one (λ w. w.device_sessions) (has_jti jti)

-- UPDATE device_sessions SET `change` WHERE `test`
unfoldable pub update_sessions :
    (DeviceSession → Bool) → (ℕ → DeviceSession → DeviceSession) → Action (Unit {0})
update_sessions test change =
    query λ t u w.
      (ok tt, record w { device_sessions = update_where test (change t) w.device_sessions })

unfoldable pub touch_device_session : ℕ → ℕ → Action (Unit {0})
touch_device_session jti before =
    update_sessions (λ s. has_jti jti s && ltb s.last_seen_at before)
      (λ t s. record s { last_seen_at = t })

-- ORDER BY last_seen_at DESC
unfoldable pub list_user_device_sessions : ℕ → Action (List DeviceSession)
list_user_device_sessions user =
    select_many (λ w. w.device_sessions)
      (λ _ rows.
        sort_desc_by (λ s. s.last_seen_at) (select (λ s. s.user_id == user && is_live s) rows))

abbrev pub revoke_at : ℕ → DeviceSession → DeviceSession
revoke_at t s = record s { revoked_at = some t }

unfoldable pub revoke_device_session : ℕ → ℕ → Action (Unit {0})
revoke_device_session id user =
    update_sessions (λ s. s.id == id && s.user_id == user && is_live s) revoke_at

unfoldable pub revoke_all_other_device_sessions : ℕ → ℕ → Action (Unit {0})
revoke_all_other_device_sessions user id =
    update_sessions (λ s. s.user_id == user && not (s.id == id) && is_live s) revoke_at
