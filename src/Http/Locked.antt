-- ===== src/Http/Locked.antt =====
-- internal/http/me.go: a locked account no longer passes the middleware.
use echopay.Common.{
  ℕ, some, List, [], ◌∷◌, Bytes, ◌≡◌, ◌≢◌, refl, sym, ap, ◌∙◌, subst, find?, update_where, ◌==◌,
  arith,
}
use echopay.Store.Models.{User, UserStatus}
use echopay.Store.Query.{select_one}
use echopay.Store.Accounts.{set_user_status, update_user}
use echopay.Store.Devices.{
  update_sessions, get_active_device_session_by_jti, revoke_device_session,
  revoke_all_other_device_sessions,
}
use echopay.Store.Records.{accepts_event, insert_audit_event, InsertAuditEventParams}
use echopay.World.{Env, World, Result, ok}
use echopay.Action.{◌>>◌}
use echopay.Action.Steps.{Frame, Steps, Steps-query, if_cases, steps_rules}
use echopay.Action.Ends.{attempt_ends, query-ends}
use echopay.Audit.{Event, record_event}
use echopay.Push.{notify_account_locked}
use echopay.Push.Fanout.{notify_account_locked-Steps}
use echopay.Http.{Outcome, passed, give, Context}
use echopay.Http.Answers.{refuse-ends, for_user-ends}
use echopay.Http.Auth.{authenticate}
use echopay.Http.Auth.Admitted.{Admitted, authenticate-Admitted}
use echopay.Http.Me.{revoke_sessions, lock}

-- the user who is found by the id has the status that was set
status_set :
    (id t : ℕ) (s : UserStatus) (us : List User) (u : User)
    → find?
        (λ u. u.id == id)
        (update_where
          (λ u. u.id == id)
          (λ u. record (record u { status = s }) { updated_at = t })
          us)
      ≡ some u
    → u.status ≡ s
status_set id t s [] u h = cc
status_set id t s (x ∷ us) u h = ground (arith, status_set id t s us u)

-- the users are as they were
record SameUsers (w w' : World) : Type 0 where
  users : w'.users ≡ w.users

SameUsers-frame : Frame SameUsers
SameUsers-frame = record {
  stays = λ w. record { users = refl };
  goes_on = λ a b c h k. record { users = k.users ∙ h.users };
  ticks = λ w n. record { users = refl };
}

notify-SameUsers : (user : ℕ) → Steps SameUsers (notify_account_locked user)
notify-SameUsers =
    notify_account_locked-Steps SameUsers-frame (λ w n rows sent. record { users = refl })

insert_audit_event-SameUsers : (a : InsertAuditEventParams) → Steps SameUsers (insert_audit_event a)
unfolding insert_audit_event
insert_audit_event-SameUsers a = Steps-query SameUsers-frame _ (λ t u w.
    if_cases SameUsers w (accepts_event a w) _ _ (λ _. record { users = refl })
      (SameUsers-frame.stays w))

record_event-SameUsers : (e : Event) → Steps SameUsers (record_event e)
unfolding record_event
record_event-SameUsers e = search (steps_rules, insert_audit_event-SameUsers)

get_session-SameUsers : (jti : ℕ) → Steps SameUsers (get_active_device_session_by_jti jti)
unfolding get_active_device_session_by_jti select_one
get_session-SameUsers jti = Steps-query SameUsers-frame _ (λ t u w. SameUsers-frame.stays w)

revoke-SameUsers : (id user : ℕ) → Steps SameUsers (revoke_device_session id user)
unfolding revoke_device_session update_sessions
revoke-SameUsers id user = Steps-query SameUsers-frame _ (λ t u w. record { users = refl })

revoke_others-SameUsers : (user id : ℕ) → Steps SameUsers (revoke_all_other_device_sessions user id)
unfolding revoke_all_other_device_sessions update_sessions
revoke_others-SameUsers user id = Steps-query SameUsers-frame _ (λ t u w. record { users = refl })

revoke_sessions-SameUsers : (c : Context) → Steps SameUsers (revoke_sessions c)
unfolding revoke_sessions
revoke_sessions-SameUsers c =
    search
      (
        steps_rules, SameUsers-frame, get_session-SameUsers, revoke-SameUsers,
        revoke_others-SameUsers,
      )
      depth 12

-- the rest of the lock, once the status is set
after_status-SameUsers :
    (c : Context) (e : Event)
    → Steps SameUsers
        (notify_account_locked c.user_id >> (record_event e >> (revoke_sessions c >> give tt)))
unfolding give
after_status-SameUsers c e =
    search
      (
        steps_rules, SameUsers-frame, notify-SameUsers, record_event-SameUsers,
        revoke_sessions-SameUsers,
      )
      depth 12

set_status-ends :
    (id : ℕ) (s : UserStatus) (env : Env) (w w' : World) (u : User)
    → set_user_status id s env w ≡ (ok u, w')
    → w'.users
      ≡ update_where
          (λ u. u.id == id)
          (λ u. record (record u { status = s }) { updated_at = env.time w.turn })
          w.users
unfolding set_user_status update_user
set_status-ends id s env w w' u done =
    ap (λ (x : Result User × World). x.1.users) (sym (query-ends _ env w w' u done))

differ : UserStatus.locked ≡ UserStatus.active → ⊥
differ e = cc

-- Once an account was locked, the middleware passes no token of any session of the user, whatever
-- else of the lock failed.
pub lock-SignsOut :
    (c : Context) (env env' : Env) (w w' v : World) (header : Bytes) (d : Context)
    → lock c env w ≡ (ok (passed tt), w')
    → v.users ≡ w'.users
    → (authenticate header env' v).0 ≡ ok (passed d)
    → (a : Admitted env' header v d) × (a.session.user_id ≢ c.user_id)
unfolding lock
lock-SignsOut c env env' w w' v header d done same admitted =
    attempt_ends _ _ _ env w w' (passed tt) (for_user-ends c _ env w w' tt done)
      (λ e x failed. absurd (refuse-ends 500 _ env x w' tt failed))
      λ u x locked_row d1.
        let a = authenticate-Admitted header env' v d admitted in
        let kept = (after_status-SameUsers c _).at env x in
        let rows =
          same
          ∙ ap (λ (y : Result (Outcome (Unit {0})) × World). y.1.users) (sym d1)
          ∙ kept.users
          ∙ set_status-ends c.user_id UserStatus.locked env w x u locked_row in
        (
          a,
          λ own.
              let set = status_set c.user_id (env.time w.turn) UserStatus.locked w.users a.user (
                subst (λ us. find? (λ u. u.id == c.user_id) us ≡ some a.user) rows
                  (subst (λ id. find? (λ u. u.id == id) v.users ≡ some a.user) own a.known)) in
              absurd (differ (sym set ∙ a.status)),
        )
