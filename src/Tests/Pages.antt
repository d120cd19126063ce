-- ===== src/Tests/Pages.antt =====
-- Alice has two sessions; she revokes one, revokes the others, and locks her account. Bob's requests
-- still pass.
use echopay.Common.{ℕ, ◌≡◌, ◌≢◌, refl, none, some, [], ◌∷◌, ◌++◌, Bytes, find?}
use echopay.Codec.{Claims}
use echopay.Store.Models.Sessions.{DeviceSession}
use echopay.Store.Query.{select_one}
use echopay.Store.Users.{get_user_by_id}
use echopay.Store.Accounts.{set_user_status, update_user}
use echopay.Store.Devices.{
  has_jti, get_active_device_session_by_jti, update_sessions, touch_device_session,
  revoke_device_session, revoke_all_other_device_sessions,
}
use echopay.Store.Records.{insert_audit_event}
use echopay.World.{World, ok}
use echopay.Action.{pure, raise, now, query, ◌>>=◌, ignore, attempt, when}
use echopay.Audit.{record_event}
use echopay.Push.{notify_account_locked, is_enabled}
use echopay.Auth.Jwt.{configured, parse, split_dots, write_token}
use echopay.Http.{passed, refuse, give, Context, for_user}
use echopay.Http.Auth.{bearer, touch, authenticate}
use echopay.Http.Auth.Admitted.{Admitted, authenticate-Admitted}
use echopay.Http.Devices.{revoke_device, revoke_all_others}
use echopay.Http.Me.{revoke_sessions, lock}
use echopay.Http.Revoked.{revoke_device-SignsOut, revoke_all_others-SignsOut}
use echopay.Http.Locked.{lock-SignsOut}
use echopay.Tests.Data.{start, empty_world, sunny}

abbrev session : ℕ → ℕ → ℕ → DeviceSession
session id user jti = record {
  id = id;
  user_id = user;
  jti = jti;
  fingerprint = none;
  model = some "Pixel";
  os_name = none;
  os_version = none;
  app_version = none;
  last_seen_at = start;
  created_at = start;
  revoked_at = none;
}

abbrev pub signed_in_world : World
signed_in_world = record empty_world {
  device_sessions = session 40 1 41 ∷ session 42 1 43 ∷ session 44 2 45 ∷ [];
}

abbrev claims_for : ℕ → ℕ → Claims
claims_for user jti = record {
  user_id = user;
  phone = "+2348011111111";
  jti = jti;
  issued_at = 1_000_000;
  expires_at = 1_003_600;
}

abbrev pub header_for : ℕ → ℕ → Bytes
header_for user jti = bearer ++ write_token sunny.codec (claims_for user jti)

abbrev alice_context : Context
alice_context = record { user_id = 1; jti = 41 }

abbrev bob_context : Context
bob_context = record { user_id = 2; jti = 45 }

alice_passes : (authenticate (header_for 1 41) sunny signed_in_world).0 ≡ ok (passed alice_context)
unfolding authenticate parse configured write_token split_dots get_active_device_session_by_jti
    get_user_by_id select_one attempt touch touch_device_session update_sessions ignore query now
    ◌>>=◌ pure raise refuse give
alice_passes = refl

authenticate-Admitted_example : Admitted sunny (header_for 1 41) signed_in_world alice_context
authenticate-Admitted_example =
    authenticate-Admitted (header_for 1 41) sunny signed_in_world alice_context alice_passes

abbrev after_revoke : World
after_revoke = (revoke_device alice_context (some 42) sunny signed_in_world).1

revoked_42 :
    revoke_device alice_context (some 42) sunny signed_in_world ≡ (ok (passed tt), after_revoke)
unfolding revoke_device for_user revoke_device_session update_sessions attempt query give refuse
    pure
revoked_42 = refl

alice_still_passes :
    (authenticate (header_for 1 41) sunny after_revoke).0 ≡ ok (passed alice_context)
unfolding revoke_device for_user revoke_device_session authenticate parse configured write_token
    split_dots get_active_device_session_by_jti get_user_by_id select_one attempt touch
    touch_device_session update_sessions ignore query now ◌>>=◌ pure raise refuse give
alice_still_passes = refl

one_session_signed_out :
    (a : Admitted sunny (header_for 1 41) after_revoke alice_context) × (a.session.id ≡ 42
      → a.session.user_id ≢ 1)
one_session_signed_out =
    revoke_device-SignsOut alice_context 42 sunny sunny signed_in_world after_revoke after_revoke
      (header_for 1 41) alice_context revoked_42 refl alice_still_passes

abbrev after_others : World
after_others = (revoke_all_others alice_context sunny signed_in_world).1

others_revoked :
    revoke_all_others alice_context sunny signed_in_world ≡ (ok (passed tt), after_others)
unfolding revoke_all_others revoke_all_other_device_sessions get_active_device_session_by_jti
    select_one update_sessions attempt query give refuse pure
others_revoked = refl

alice_alone_passes :
    (authenticate (header_for 1 41) sunny after_others).0 ≡ ok (passed alice_context)
unfolding revoke_all_others revoke_all_other_device_sessions authenticate parse configured
    write_token split_dots get_active_device_session_by_jti get_user_by_id select_one attempt touch
    touch_device_session update_sessions ignore query now ◌>>=◌ pure raise refuse give
alice_alone_passes = refl

revoke_all_others-SignsOut_example :
    (s : DeviceSession) × (find? (has_jti 41) signed_in_world.device_sessions ≡ some s)
    × (a : Admitted sunny (header_for 1 41) after_others alice_context) × (a.session.user_id ≡ 1
        → a.session.id ≡ s.id)
revoke_all_others-SignsOut_example =
    revoke_all_others-SignsOut alice_context sunny sunny signed_in_world after_others after_others
      (header_for 1 41) alice_context others_revoked refl alice_alone_passes

abbrev after_lock : World
after_lock = (lock alice_context sunny signed_in_world).1

locked_out : lock alice_context sunny signed_in_world ≡ (ok (passed tt), after_lock)
unfolding lock for_user set_user_status update_user notify_account_locked is_enabled when
    record_event insert_audit_event revoke_sessions revoke_all_other_device_sessions
    revoke_device_session get_active_device_session_by_jti select_one update_sessions attempt ignore
    ◌>>=◌ query give refuse pure
locked_out = refl

bob_passes : (authenticate (header_for 2 45) sunny after_lock).0 ≡ ok (passed bob_context)
unfolding lock for_user set_user_status update_user notify_account_locked is_enabled when
    record_event insert_audit_event revoke_sessions revoke_all_other_device_sessions
    revoke_device_session authenticate parse configured write_token split_dots
    get_active_device_session_by_jti get_user_by_id select_one attempt touch touch_device_session
    update_sessions ignore query now ◌>>=◌ pure raise refuse give
bob_passes = refl

lock-SignsOut_example :
    (a : Admitted sunny (header_for 2 45) after_lock bob_context) × (a.session.user_id ≢ 1)
lock-SignsOut_example =
    lock-SignsOut alice_context sunny sunny signed_in_world after_lock after_lock (header_for 2 45)
      bob_context locked_out refl bob_passes
