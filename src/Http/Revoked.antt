-- ===== src/Http/Revoked.antt =====
-- internal/http/devices.go: a session that was revoked no longer passes the middleware.
use echopay.Common.{
  ℕ, Bool, true, false, not, ◌&&◌, ◌||◌, some, List, [], ◌∷◌, Bytes, ◌≡◌, ◌≢◌, sym, ap, ◌∙◌, subst,
  find?, update_where, ◌==◌, arith, inl, inr, Bool-cases,
}
use echopay.Store.Models.Sessions.{DeviceSession}
use echopay.Store.Devices.{
  has_jti, is_live, revoke_at, update_sessions, get_active_device_session_by_jti,
  revoke_device_session, revoke_all_other_device_sessions,
}
use echopay.World.{Env, World, Result, ok}
use echopay.Action.Ends.{attempt_ends, select_one-ends, query-ends}
use echopay.Http.{passed, Context}
use echopay.Http.Answers.{refuse-ends, give-ends, for_user-ends}
use echopay.Http.Auth.{authenticate}
use echopay.Http.Auth.Admitted.{Admitted, authenticate-Admitted}
use echopay.Http.Devices.{revoke_device, revoke_all_others}

-- an active session that is found after a revocation is none of those that the revocation meant
still_live :
    (test : DeviceSession → Bool) (t jti : ℕ) (rows : List DeviceSession) (s : DeviceSession)
    → find? (has_jti jti) (update_where test (revoke_at t) rows) ≡ some s
    → (test s ≡ false) × (is_live s ≡ true)
still_live test t jti [] s h = cc
still_live test t jti (x ∷ rows) s h = elim (Bool-cases (test x)) [
  | inl gone ↦ still_live test t jti rows s (ground arith)
  | inr spared ↦ elim (Bool-cases (has_jti jti x)) [
    | inl this ↦ ground arith
    | inr other ↦ still_live test t jti rows s (ground arith)
  ]
]

update_sessions-ends :
    (test : DeviceSession → Bool) (change : ℕ → DeviceSession → DeviceSession) (env : Env)
    (w w' : World)
    → update_sessions test change env w ≡ (ok tt, w')
    → w'.device_sessions ≡ update_where test (change (env.time w.turn)) w.device_sessions
unfolding update_sessions
update_sessions-ends test change env w w' done =
    ap (λ (x : Result (Unit {0}) × World). x.1.device_sessions)
      (sym (query-ends _ env w w' tt done))

-- Once the page has revoked a session of the user, the middleware passes no token of that session.
pub revoke_device-SignsOut :
    (c : Context) (id : ℕ) (env env' : Env) (w w' v : World) (header : Bytes) (d : Context)
    → revoke_device c (some id) env w ≡ (ok (passed tt), w')
    → v.device_sessions ≡ w'.device_sessions
    → (authenticate header env' v).0 ≡ ok (passed d)
    → (a : Admitted env' header v d) × (a.session.id ≡ id → a.session.user_id ≢ c.user_id)
unfolding revoke_device revoke_device_session
revoke_device-SignsOut c id env env' w w' v header d done same admitted =
    attempt_ends _ _ _ env w w' (passed tt) (for_user-ends c _ env w w' tt done)
      (λ e x failed. absurd (refuse-ends 500 _ env x w' tt failed))
      λ _ x revoked d1.
        let a = authenticate-Admitted header env' v d admitted in
        let rows =
          same
          ∙ ap (λ (y : World). y.device_sessions) (sym (give-ends tt tt env x w' d1))
          ∙ update_sessions-ends _ _ env w x revoked in
        let (spared, live) =
          still_live (λ s. s.id == id && s.user_id == c.user_id && is_live s) (env.time w.turn)
            a.claims.jti w.device_sessions a.session
            (subst (λ ss. find? (has_jti a.claims.jti) ss ≡ some a.session) rows a.live) in
        (a, λ this own. ground arith)

-- Once the page has revoked all other sessions, the middleware passes a token of the user only for the
-- session that asked.
pub revoke_all_others-SignsOut :
    (c : Context) (env env' : Env) (w w' v : World) (header : Bytes) (d : Context)
    → revoke_all_others c env w ≡ (ok (passed tt), w')
    → v.device_sessions ≡ w'.device_sessions
    → (authenticate header env' v).0 ≡ ok (passed d)
    → (s : DeviceSession) × (find? (has_jti c.jti) w.device_sessions ≡ some s)
      × (a : Admitted env' header v d) × (a.session.user_id ≡ c.user_id → a.session.id ≡ s.id)
unfolding revoke_all_others revoke_all_other_device_sessions get_active_device_session_by_jti
revoke_all_others-SignsOut c env env' w w' v header d done same admitted =
    elim (Bool-cases (c.user_id == 0 || c.jti == 0)) [
      | inl nobody ↦
          absurd (refuse-ends 401 "no user" env w w' tt (rw (nobody, revoke_all_others) at done))
      | inr somebody ↦
          attempt_ends _ _ _ env w w' (passed tt) (rw (somebody, revoke_all_others) at done)
            (λ e x failed. absurd (refuse-ends 500 _ env x w' tt failed))
            λ s w1 read d1.
              attempt_ends _ _ _ env w1 w' (passed tt) d1
                (λ e x failed. absurd (refuse-ends 500 _ env x w' tt failed))
                λ _ x revoked d2.
                  let a = authenticate-Admitted header env' v d admitted in
                  let (known, moved) = select_one-ends _ _ env w w1 s read in
                  let rows =
                    same
                    ∙ ap (λ (y : World). y.device_sessions) (sym (give-ends tt tt env x w' d2))
                    ∙ update_sessions-ends _ _ env w1 x revoked in
                  let (spared, live) =
                    still_live (λ r. r.user_id == c.user_id && not (r.id == s.id) && is_live r)
                      (env.time w1.turn) a.claims.jti w1.device_sessions a.session
                      (subst (λ ss. find? (has_jti a.claims.jti) ss ≡ some a.session) rows
                        a.live) in
                  (s, known, a, λ own. ground arith)
    ]
