-- ===== src/Push/Fanout.antt =====
-- A notification steps by every relation that lets the push tokens and the log of pushes change.
use echopay.Common.{ℕ, suc, String, Bool, Option, none, some, List}
use echopay.Store.Models.{Payment}
use echopay.Store.Models.Sessions.{PushToken}
use echopay.Store.Query.{select_many}
use echopay.Store.PushTokens.{
  list_user_push_tokens, list_user_push_tokens_except_session, revoke_push_tokens,
  revoke_push_token,
}
use echopay.World.{World, Alert, Push, PushError}
use echopay.Action.Steps.{
  Frame, Steps, Steps-query, Steps-pure, Steps-when, Steps-ignore, steps_rules,
}
use echopay.Push.{
  is_unregistered, send_message, is_enabled, prune, send_to_row, send_to_rows, fanout_to_user,
  notify_payment_received, notify_account_locked, notify_new_device_login,
}

module _ {R : World → World → Type 0} (frame : Frame R)
    (free : (w : World) (n : ℕ) (rows : List PushToken) (sent : List Push)
      → R w (record w { turn = n; push_tokens = rows; pushes = sent })) where
  list_tokens-Steps : (user : ℕ) → Steps R (list_user_push_tokens user)
  unfolding list_user_push_tokens select_many
  list_tokens-Steps user = Steps-query frame _ (λ t u w. frame.stays w)

  list_other_tokens-Steps :
      (user session : ℕ) → Steps R (list_user_push_tokens_except_session user session)
  unfolding list_user_push_tokens_except_session select_many
  list_other_tokens-Steps user session = Steps-query frame _ (λ t u w. frame.stays w)

  revoke_tokens-Steps : (test : PushToken → Bool) → Steps R (revoke_push_tokens test)
  unfolding revoke_push_tokens
  revoke_tokens-Steps test = Steps-query frame _ (λ t u w. free w w.turn _ w.pushes)

  revoke_token-Steps : (fcm_token : String) → Steps R (revoke_push_token fcm_token)
  unfolding revoke_push_token
  revoke_token-Steps fcm_token = revoke_tokens-Steps _

  send_message-Steps : (m : Push) → Steps R (send_message m)
  unfolding send_message
  send_message-Steps m = record { at = λ env w. free w (suc w.turn) w.push_tokens _ }

  is_enabled-Steps : Steps R is_enabled
  unfolding is_enabled
  is_enabled-Steps = record { at = λ env w. frame.stays w }

  prune-Steps : (fcm_token : String) (answer : Option PushError) → Steps R (prune fcm_token answer)
  prune-Steps fcm_token none = Steps-pure frame tt
  prune-Steps fcm_token (some e) =
      Steps-when frame (is_unregistered e) _ (Steps-ignore _ (revoke_token-Steps fcm_token))

  send_to_rows-Steps : (rows : List PushToken) (alert : Alert) → Steps R (send_to_rows rows alert)
  unfolding send_to_rows send_to_row
  send_to_rows-Steps rows alert =
      search (steps_rules, frame, send_message-Steps, prune-Steps) depth 8

  pub notify_payment_received-Steps :
      (p : Payment) (name : String) → Steps R (notify_payment_received p name)
  unfolding notify_payment_received fanout_to_user
  notify_payment_received-Steps p name =
      search (steps_rules, frame, is_enabled-Steps, list_tokens-Steps, send_to_rows-Steps) depth 10

  pub notify_account_locked-Steps : (user : ℕ) → Steps R (notify_account_locked user)
  unfolding notify_account_locked fanout_to_user
  notify_account_locked-Steps user =
      search (steps_rules, frame, is_enabled-Steps, list_tokens-Steps, send_to_rows-Steps) depth 10

  pub notify_new_device_login-Steps :
      (user session : ℕ) (label : String) → Steps R (notify_new_device_login user session label)
  unfolding notify_new_device_login
  notify_new_device_login-Steps user session label =
      search (steps_rules, frame, is_enabled-Steps, list_other_tokens-Steps, send_to_rows-Steps)
        depth 10
