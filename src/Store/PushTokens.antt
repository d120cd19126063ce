-- ===== src/Store/PushTokens.antt =====
-- internal/store/push_tokens.sql.go, with the constraints of migration 000012.
use echopay.Common.{
  ℕ, String, Bool, true, false, not, ◌&&◌, Option, none, some, List, ◌∷◌, find?, select,
  update_where, is_some, sort_desc_by, ◌==◌, str_eq, if◌then◌else◌,
}
use echopay.Store.Models.Sessions.{PushToken, Platform}
use echopay.World.{World, Result, ok, err, failure}
use echopay.Action.{Action, query}
use echopay.Store.Query.{select_many}

pub record UpsertPushTokenParams : Type 0 where
  pub user_id : ℕ
  pub device_session_id : Option ℕ
  pub fcm_token : String
  pub platform : Platform

-- fcm_token = $1 AND revoked_at IS NULL
abbrev pub is_active_token : String → PushToken → Bool
is_active_token fcm_token p = str_eq p.fcm_token fcm_token && not (is_some p.revoked_at)

abbrev session_exists : Option ℕ → World → Bool
session_exists none w = true
session_exists (some id) w = is_some (find? (λ s. s.id == id) w.device_sessions)

-- the foreign keys of the user and of the session
abbrev pub accepts_owner : UpsertPushTokenParams → World → Bool
accepts_owner a w =
    is_some (find? (λ u. u.id == a.user_id) w.users) && session_exists a.device_session_id w

abbrev pub new_push_token : ℕ → ℕ → UpsertPushTokenParams → PushToken
new_push_token t id a = record {
  id = id;
  user_id = a.user_id;
  device_session_id = a.device_session_id;
  fcm_token = a.fcm_token;
  platform = a.platform;
  last_seen_at = t;
  created_at = t;
  revoked_at = none;
}

-- DO UPDATE SET …, last_seen_at = NOW()
abbrev pub reassigned : ℕ → UpsertPushTokenParams → PushToken → PushToken
reassigned t a p = record p {
  user_id = a.user_id;
  device_session_id = a.device_session_id;
  platform = a.platform;
  last_seen_at = t;
}

-- ON CONFLICT (fcm_token) WHERE revoked_at IS NULL; else the PRIMARY KEY is tested
abbrev upsert_row :
    ℕ → ℕ → UpsertPushTokenParams → World → Option PushToken → Result PushToken × World
upsert_row t id a w (some p) = (
  ok (reassigned t a p),
  record w {
    push_tokens = update_where (is_active_token a.fcm_token) (reassigned t a) w.push_tokens;
  },
)
upsert_row t id a w none =
    if is_some (find? (λ p. p.id == id) w.push_tokens)
    then (err (failure "constraint violated"), w)
    else (
      ok (new_push_token t id a),
      record w { push_tokens = new_push_token t id a ∷ w.push_tokens },
    )

unfoldable pub upsert_push_token : UpsertPushTokenParams → Action PushToken
upsert_push_token a = query λ t id w.
    if accepts_owner a w
    then upsert_row t id a w (find? (is_active_token a.fcm_token) w.push_tokens)
    else (err (failure "constraint violated"), w)

-- user_id = $1 AND revoked_at IS NULL
abbrev pub is_push_token_of : ℕ → PushToken → Bool
is_push_token_of user p = p.user_id == user && not (is_some p.revoked_at)

-- device_session_id IS NULL OR device_session_id <> $2
abbrev pub is_elsewhere : ℕ → Option ℕ → Bool
is_elsewhere session none = true
is_elsewhere session (some id) = not (id == session)

-- ORDER BY last_seen_at DESC
unfoldable pub list_user_push_tokens : ℕ → Action (List PushToken)
list_user_push_tokens user =
    select_many (λ w. w.push_tokens)
      (λ _ rows. sort_desc_by (λ p. p.last_seen_at) (select (is_push_token_of user) rows))

unfoldable pub list_user_push_tokens_except_session : ℕ → ℕ → Action (List PushToken)
list_user_push_tokens_except_session user session =
    select_many (λ w. w.push_tokens)
      (λ _ rows.
        sort_desc_by (λ p. p.last_seen_at)
          (select (λ p. is_push_token_of user p && is_elsewhere session p.device_session_id) rows))

-- UPDATE push_tokens SET revoked_at = NOW() WHERE `test`
unfoldable pub revoke_push_tokens : (PushToken → Bool) → Action (Unit {0})
revoke_push_tokens test = query λ t u w. (
  ok tt,
  record w {
    push_tokens = update_where test (λ p. record p { revoked_at = some t }) w.push_tokens;
  },
)

unfoldable pub revoke_push_token : String → Action (Unit {0})
revoke_push_token fcm_token = revoke_push_tokens (is_active_token fcm_token)

-- device_session_id = $1
abbrev is_of_session : ℕ → Option ℕ → Bool
is_of_session session none = false
is_of_session session (some id) = id == session

unfoldable pub revoke_push_tokens_for_session : ℕ → Action (Unit {0})
revoke_push_tokens_for_session session =
    revoke_push_tokens
      (λ p. is_of_session session p.device_session_id && not (is_some p.revoked_at))
