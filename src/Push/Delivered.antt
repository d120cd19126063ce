-- ===== src/Push/Delivered.antt =====
-- Who gets a push, and which push tokens are pruned.
use echopay.Common.{
  ℕ, suc, not, All, String, true, false, ◌&&◌, Option, none, some, List, [], ◌∷◌, ◌≡◌, refl, sym,
  subst, ◌∙◌, ap, select, sort_desc_by, rev_append, update_where, str_eq, eq_iff, arith,
  Option-cases, Bool-cases, inl, inr,
}
use mathlib.Core.List.{map}
use echopay.Store.Models.Sessions.{PushToken}
use echopay.Store.Query.{select_many}
use echopay.Store.PushTokens.{
  is_push_token_of, is_elsewhere, list_user_push_tokens_except_session, revoke_push_tokens,
  revoke_push_token, is_active_token,
}
use echopay.World.{Env, World, Alert, new_device, Push, PushError}
use echopay.Action.{pure, query, ◌>>=◌, ignore, each, when}
use echopay.Push.{
  is_unregistered, send_message, is_enabled, prune, send_to_row, send_to_rows,
  notify_new_device_login,
}
use echopay.Push.Others.{IsOther, is_other, other_devices, chosen-IsOther, passed_over, same_choice}

-- the message for a device
abbrev pub message : Alert → PushToken → Push
message alert row = record { fcm_token = row.fcm_token; alert = alert }

revoke-pushes :
    (fcm_token : String) (env : Env) (w : World)
    → (revoke_push_token fcm_token env w).1.pushes ≡ w.pushes
unfolding revoke_push_token revoke_push_tokens query
revoke-pushes fcm_token env w = elim (Option-cases (env.database_fault w.turn)) [
  | inl quiet ↦ ground arith
  | inr (text, fault) ↦ ground arith
]

prune-pushes :
    (fcm_token : String) (answer : Option PushError) (env : Env) (w : World)
    → (prune fcm_token answer env w).1.pushes ≡ w.pushes
unfolding when pure ignore
prune-pushes fcm_token none env w = refl
prune-pushes fcm_token (some e) env w = elim (Bool-cases (is_unregistered e)) [
  | inl dead ↦ rw dead (revoke-pushes fcm_token env w)
  | inr alive ↦ rw alive refl
]

send_to_row-pushes :
    (alert : Alert) (row : PushToken) (env : Env) (w : World)
    → (send_to_row alert row env w).1.pushes ≡ message alert row ∷ w.pushes
unfolding send_to_row send_message ◌>>=◌
send_to_row-pushes alert row env w = prune-pushes row.fcm_token _ env _

send_to_rows-pushes :
    (rows : List PushToken) (alert : Alert) (env : Env) (w : World)
    → (send_to_rows rows alert env w).1.pushes ≡ rev_append (map (message alert) rows) w.pushes
unfolding send_to_rows each ignore ◌>>=◌ pure
send_to_rows-pushes [] alert env w = refl
send_to_rows-pushes (row ∷ rows) alert env w =
    send_to_rows-pushes rows alert env (send_to_row alert row env w).1
    ∙ ap (rev_append (map (message alert) rows)) (send_to_row-pushes alert row env w)

login-pushes :
    (user session : ℕ) (label : String) (env : Env) (w : World)
    → env.push_enabled ≡ true
    → env.database_fault w.turn ≡ none
    → (notify_new_device_login user session label env w).1.pushes
      ≡ rev_append
          (map (message (new_device label session)) (
            sort_desc_by
              (λ p. p.last_seen_at)
              (select
                (λ p. is_push_token_of user p && is_elsewhere session p.device_session_id)
                w.push_tokens)))
          w.pushes
unfolding notify_new_device_login is_enabled when ignore ◌>>=◌ list_user_push_tokens_except_session
    select_many query
login-pushes user session label env w enabled quiet = ground (
  arith,
  send_to_rows-pushes
      (sort_desc_by (λ p. p.last_seen_at)
        (select (λ p. is_push_token_of user p && is_elsewhere session p.device_session_id)
          w.push_tokens))
      (new_device label session) env (record w { turn = suc w.turn }),
)

-- Where pushes are enabled and the listing does not fail, a sign-in sends one message to each push token
-- of the user that is not revoked and not bound to the new session, the last seen first, and to no
-- other token: the tokens that get one are all such tokens, and none that is passed over is.
pub notify_new_device_login-pushes :
    (user session : ℕ) (label : String) (env : Env) (w : World)
    → env.push_enabled ≡ true
    → env.database_fault w.turn ≡ none
    → ((notify_new_device_login user session label env w).1.pushes
        ≡ rev_append
            (map (message (new_device label session)) (other_devices user session w.push_tokens))
            w.pushes)
      × All (IsOther user session) (select (is_other user session) w.push_tokens)
      × All
          (λ p. ¬ IsOther user session p)
          (select (λ p. not (is_other user session p)) w.push_tokens)
notify_new_device_login-pushes user session label env w enabled quiet = (
  login-pushes user session label env w enabled quiet
      ∙ ap
          (λ rows.
            rev_append
              (map (message (new_device label session)) (sort_desc_by (λ p. p.last_seen_at) rows))
              w.pushes)
          (same_choice user session w.push_tokens),
  chosen-IsOther user session w.push_tokens,
  passed_over user session w.push_tokens,
)

-- the rows of one token
abbrev pub rows_of : String → World → List PushToken
rows_of fcm_token w = select (λ p. str_eq p.fcm_token fcm_token) w.push_tokens

select-revoked_other :
    (fcm_token dead : String) (t : ℕ) (rows : List PushToken)
    → str_eq fcm_token dead ≡ false
    → select
        (λ p. str_eq p.fcm_token fcm_token)
        (update_where (is_active_token dead) (λ p. record p { revoked_at = some t }) rows)
      ≡ select (λ p. str_eq p.fcm_token fcm_token) rows
select-revoked_other fcm_token dead t [] h = refl
select-revoked_other fcm_token dead t (p ∷ rows) h = ground (
  arith,
  eq_iff p.fcm_token fcm_token,
  eq_iff p.fcm_token dead,
  eq_iff fcm_token dead,
  select-revoked_other fcm_token dead t rows,
)

revoke-rows_of :
    (fcm_token dead : String) (env : Env) (w : World)
    → str_eq fcm_token dead ≡ false
    → rows_of fcm_token (revoke_push_token dead env w).1 ≡ rows_of fcm_token w
unfolding revoke_push_token revoke_push_tokens query
revoke-rows_of fcm_token dead env w h = elim (Option-cases (env.database_fault w.turn)) [
  | inl quiet ↦ ground (arith, select-revoked_other fcm_token dead (env.time w.turn) w.push_tokens)
  | inr (text, fault) ↦ ground arith
]

-- Firebase never reports the token dead
abbrev pub Accepted : Env → Alert → String → Type 0
Accepted env alert fcm_token =
    (n : ℕ) (e : PushError)
    → env.send_push n (record { fcm_token = fcm_token; alert = alert }) ≡ some e
    → is_unregistered e ≡ false

prune-rows_of :
    (fcm_token other : String) (answer : Option PushError) (env : Env) (w : World)
    → ((e : PushError)
        → answer ≡ some e
        → str_eq fcm_token other ≡ true
        → is_unregistered e ≡ false)
    → rows_of fcm_token (prune other answer env w).1 ≡ rows_of fcm_token w
unfolding when pure ignore
prune-rows_of fcm_token other none env w h = refl
prune-rows_of fcm_token other (some e) env w h = elim (Bool-cases (is_unregistered e)) [
  | inl dead ↦ elim (Bool-cases (str_eq fcm_token other)) [
    | inl same ↦ ground (arith, h e refl same)
    | inr differs ↦ rw dead (revoke-rows_of fcm_token other env w differs)
  ]
  | inr alive ↦ rw alive refl
]

-- A token that Firebase never reports dead keeps its rows, whatever else is sent and pruned.
pub send_to_rows_kept :
    (rows : List PushToken) (alert : Alert) (fcm_token : String) (env : Env) (w : World)
    → Accepted env alert fcm_token
    → rows_of fcm_token (send_to_rows rows alert env w).1 ≡ rows_of fcm_token w
unfolding send_to_rows each ignore ◌>>=◌ pure send_to_row send_message
send_to_rows_kept [] alert fcm_token env w accepted = refl
send_to_rows_kept (row ∷ rows) alert fcm_token env w accepted =
    send_to_rows_kept rows alert fcm_token env _ accepted
    ∙ prune-rows_of fcm_token row.fcm_token _ env _ (λ e said same. accepted w.turn e (
        subst
          (λ (t : String). env.send_push w.turn (record { fcm_token = t; alert = alert }) ≡ some e)
          (sym ((eq_iff fcm_token row.fcm_token).0 same)) said))
