-- ===== src/Push.antt =====
-- internal/push/service.go: the notifications and their fanout to the devices of a user. What goes to
-- Firebase is logged in the world; a device that Firebase no longer knows loses its push token. The
-- channel, the priority and the sound of a message are constants and are left out.
pub mod Others
pub mod Fanout
pub mod Handler
pub mod Delivered
use echopay.Common.{
  ℕ, suc, ◌+◌, String, Bool, true, false, ◌&&◌, ◌||◌, Option, none, some, List, [], ◌∷◌, Bytes, pos,
  leb, ltb, ◌==◌, str_eq, if◌then◌else◌,
}
use echopay.Money.{format_naira}
use echopay.Store.Models.{Payment}
use echopay.Store.Models.Sessions.{PushToken}
use echopay.Store.PushTokens.{
  list_user_push_tokens, list_user_push_tokens_except_session, revoke_push_token,
}
use echopay.World.{
  Env, Alert, payment_received, account_locked, new_device, Push, PushError, Result, ok, err,
}
use echopay.Action.{Action, pure, ◌>>=◌, ignore, each, when}

-- strings.ToLower, on a letter of ASCII
abbrev to_lower : ℕ → ℕ
to_lower c = if leb b'A' c && leb c b'Z' then c + 32 else c

starts_with : Bytes → Bytes → Bool
starts_with [] text = true
starts_with (c ∷ cs) [] = false
starts_with (c ∷ cs) (d ∷ ds) = c == to_lower d && starts_with cs ds

-- strings.Contains(strings.ToLower(text), word), for a word in lower case
contains : Bytes → Bytes → Bool
unfolding starts_with
contains word [] = starts_with word []
contains word (c ∷ cs) = starts_with word (c ∷ cs) || contains word cs

abbrev unregistered : Bytes
unregistered =
    b'u' ∷ b'n' ∷ b'r' ∷ b'e' ∷ b'g' ∷ b'i' ∷ b's' ∷ b't' ∷ b'e' ∷ b'r' ∷ b'e' ∷ b'd' ∷ []

abbrev invalid_registration : Bytes
invalid_registration =
    b'i' ∷ b'n' ∷ b'v' ∷ b'a' ∷ b'l' ∷ b'i' ∷ b'd' ∷ b' ' ∷ b'r' ∷ b'e' ∷ b'g' ∷ b'i' ∷ b's' ∷ b't'
    ∷ b'r' ∷ b'a' ∷ b't' ∷ b'i' ∷ b'o' ∷ b'n' ∷ []

abbrev not_found : Bytes
not_found = b'n' ∷ b'o' ∷ b't' ∷ b'-' ∷ b'f' ∷ b'o' ∷ b'u' ∷ b'n' ∷ b'd' ∷ []

abbrev invalid_argument : Bytes
invalid_argument =
    b'i' ∷ b'n' ∷ b'v' ∷ b'a' ∷ b'l' ∷ b'i' ∷ b'd' ∷ b'-' ∷ b'a' ∷ b'r' ∷ b'g' ∷ b'u' ∷ b'm' ∷ b'e'
    ∷ b'n' ∷ b't' ∷ []

-- isUnregistered
unfoldable pub is_unregistered : PushError → Bool
unfolding contains
is_unregistered e =
    e.not_registered
    || contains unregistered e.text
    || contains invalid_registration e.text
    || contains not_found e.text
    || contains invalid_argument e.text

-- s.messaging.Send
unfoldable pub send_message : Push → Action (Option PushError)
send_message m env w =
    (ok (env.send_push w.turn m), record w { turn = suc w.turn; pushes = m ∷ w.pushes })

-- s.enabled
unfoldable pub is_enabled : Action Bool
is_enabled env w = (ok env.push_enabled, w)

-- `if isUnregistered(err) { _ = RevokePushToken(token) }`; other errors are only logged
abbrev pub prune : String → Option PushError → Action (Unit {0})
prune fcm_token none = pure tt
prune fcm_token (some e) = when (is_unregistered e) (ignore (revoke_push_token fcm_token))

-- one round of sendToRows
unfoldable pub send_to_row : Alert → PushToken → Action (Unit {0})
send_to_row alert row = do
  answer ← send_message (record { fcm_token = row.fcm_token; alert = alert })
  prune row.fcm_token answer

-- sendToRows
unfoldable pub send_to_rows : List PushToken → Alert → Action (Unit {0})
send_to_rows rows alert = each rows (send_to_row alert)

-- fanoutToUser; a failed listing is only logged
unfoldable pub fanout_to_user : ℕ → Alert → Action (Unit {0})
fanout_to_user user alert = ignore (do rows ← list_user_push_tokens user; send_to_rows rows alert)

-- NotifyPaymentReceived
unfoldable pub notify_payment_received : Payment → String → Action (Unit {0})
notify_payment_received p sender_name = do
  enabled ← is_enabled
  when enabled (
      fanout_to_user p.receiver_user_id
        (payment_received sender_name (format_naira (pos p.amount_kobo)) p.id))

-- NotifyAccountLocked
unfoldable pub notify_account_locked : ℕ → Action (Unit {0})
notify_account_locked user = do
  enabled ← is_enabled
  when enabled (fanout_to_user user account_locked)

-- NotifyNewDeviceLogin: to every device but the one that signed in
unfoldable pub notify_new_device_login : ℕ → ℕ → String → Action (Unit {0})
notify_new_device_login user new_session device_label = do
  enabled ← is_enabled
  when enabled (
      ignore (do
        rows ← list_user_push_tokens_except_session user new_session
        send_to_rows rows (new_device device_label new_session)))
