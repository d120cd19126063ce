-- ===== src/Push/Handler.antt =====
-- internal/push/handler.go: the pages that bind a device's push token and let it go.
use echopay.Common.{ℕ, String, Option, none, some, str_eq, ◌==◌, if◌then◌else◌}
use echopay.Store.Models.Sessions.{Platform}
use echopay.Store.Devices.{get_active_device_session_by_jti}
use echopay.Store.PushTokens.{upsert_push_token, revoke_push_token}
use echopay.World.{error_text}
use echopay.Action.{Action, pure, ◌>>=◌, attempt}
use echopay.Http.{Outcome, refuse, give, Context, for_user}

abbrev pub platform_of : String → Option Platform
platform_of s =
    if str_eq s "ios"
    then some Platform.ios
    else if str_eq s "android"
    then some Platform.android
    else none

-- the session that asked, where it is found
unfoldable pub session_of : ℕ → Action (Option ℕ)
session_of jti =
    if jti == 0
    then pure none
    else attempt (get_active_device_session_by_jti jti) (λ _. pure none) (λ s. pure (some s.id))

abbrev pub register_on : Context → String → Option Platform → Action (Outcome (Unit {0}))
register_on c fcm_token none = refuse 400 "fcm_token and platform required"
register_on c fcm_token (some platform) = do
  session ← session_of c.jti
  attempt
      (upsert_push_token (record {
        user_id = c.user_id;
        device_session_id = session;
        fcm_token = fcm_token;
        platform = platform;
      }))
      (λ e. refuse 500 (error_text e)) (λ _. give tt)

unfoldable pub register_page : Context → String → String → Action (Outcome (Unit {0}))
register_page c fcm_token platform = for_user c (
    if str_eq fcm_token ""
    then refuse 400 "fcm_token and platform required"
    else register_on c fcm_token (platform_of platform))

-- whosever token it is
unfoldable pub revoke_page : String → Action (Outcome (Unit {0}))
revoke_page fcm_token =
    if str_eq fcm_token ""
    then refuse 400 "fcm_token required"
    else attempt (revoke_push_token fcm_token) (λ e. refuse 500 (error_text e)) give
