-- ===== src/Http/Me.antt =====
-- internal/http/me.go: the account page. The IP and the user agent of audit events are left out.
use echopay.Common.{
  ℕ, String, Bool, true, false, ◌||◌, some, [], ◌∷◌, str_eq, ℤ, pos_part, if◌then◌else◌,
}
use echopay.Store.Models.{User, UserStatus, number}
use echopay.Store.Accounts.{set_user_status, update_user_receive_account}
use echopay.Store.Devices.{
  get_active_device_session_by_jti, revoke_device_session, revoke_all_other_device_sessions,
}
use echopay.World.{Error, limits_invalid, wrapped, error_text}
use echopay.Action.{Action, pure, ask, ◌>>◌, ignore, attempt}
use echopay.Audit.{record_event}
use echopay.Push.{notify_account_locked}
use echopay.Auth.{current_user}
use echopay.Risk.Limits.{Outcome as LimitsOutcome, applied, scheduled, set_limits}
use echopay.Http.{Outcome, refuse, give, Context, for_user}

-- the sessions of the user, the calling one included, as far as the lookup of it succeeds
unfoldable pub revoke_sessions : Context → Action (Unit {0})
revoke_sessions c =
    attempt (get_active_device_session_by_jti c.jti) (λ _. pure tt)
      λ session. do
        ignore (revoke_all_other_device_sessions c.user_id session.id)
        ignore (revoke_device_session session.id c.user_id)

unfoldable pub lock : Context → Action (Outcome (Unit {0}))
lock c = for_user c (
    attempt (set_user_status c.user_id UserStatus.locked) (λ e. refuse 500 (error_text e))
      λ _. do
        notify_account_locked c.user_id
        record_event (record {
          user_id = c.user_id;
          actor_id = c.user_id;
          action = "auth.account_locked";
          target_typ = "";
          target_id = "";
          metadata = [];
        })
        revoke_sessions c
        give tt)

unfoldable pub get_me : Context → Action (Outcome User)
get_me c = for_user c (attempt (current_user c.user_id) (λ _. refuse 404 "user not found") give)

pub record ReceiveAccountBody : Type 0 where
  pub nuban : String
  pub bank_code : String

unfoldable pub set_receive_account : Context → ReceiveAccountBody → Action (Outcome User)
set_receive_account c body = for_user c (
    if str_eq body.nuban "" || str_eq body.bank_code ""
    then refuse 400 "nuban and bank_code required"
    else attempt (ask (λ env n. env.resolve_account n body.nuban body.bank_code))
        (λ _. refuse 502 "could not resolve account at bank")
        λ resolved.
          attempt
            (update_user_receive_account c.user_id (some body.nuban) (some body.bank_code)
              (some resolved.account_name))
            (λ e. refuse 500 (error_text e)) give)

-- errors.Is(err, risk.ErrLimitsInvalid)
abbrev is_limits_invalid : Error → Bool
is_limits_invalid limits_invalid = true
is_limits_invalid (wrapped s e) = is_limits_invalid e
is_limits_invalid _ = false

abbrev limits_action : LimitsOutcome → String
limits_action (applied u) = "limits.applied_now"
limits_action (scheduled u p) = "limits.scheduled"

-- the limits are positive where SetLimits has returned
unfoldable pub set_limits_of : ℕ → Context → ℤ → ℤ → Action (Outcome LimitsOutcome)
set_limits_of cooldown c per_tx per_day = for_user c (
    attempt (set_limits cooldown c.user_id per_tx per_day)
      (λ e. refuse (if is_limits_invalid e then 400 else 500) (error_text e))
      λ outcome. do
        record_event (record {
          user_id = c.user_id;
          actor_id = c.user_id;
          action = limits_action outcome;
          target_typ = "";
          target_id = "";
          metadata =
              ("per_tx_limit_kobo", number (pos_part per_tx))
              ∷ ("per_day_limit_kobo", number (pos_part per_day))
              ∷ [];
        })
        give outcome)
