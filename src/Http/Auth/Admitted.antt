-- ===== src/Http/Auth/Admitted.antt =====
-- Who passes the middleware.
use echopay.Common.{
  ℕ, String, Option, none, some, Bytes, ◌≡◌, refl, ap, ◌∙◌, subst, find?, ◌==◌, arith, inl, inr,
  Bool-cases,
}
use echopay.Codec.{Claims}
use echopay.Store.Models.{User, UserStatus}
use echopay.Store.Models.Sessions.{DeviceSession}
use echopay.Store.Users.{get_user_by_id}
use echopay.Store.Devices.{has_jti, get_active_device_session_by_jti}
use echopay.World.{Env, World, Error, Result, ok, is_no_rows}
use echopay.Action.{ignore, pure, ◌>>=◌}
use echopay.Action.Ends.{attempt_then, select_one-ends}
use echopay.Auth.Same.{SameAccounts, SameAccounts-frame, parse-Steps}
use echopay.Auth.Jwt.Read.{Signed, parse-Signed}
use echopay.Http.{passed, refuse, give, Context}
use echopay.Http.Auth.{
  without_prefix, bearer, admit, lookup_refused, with_token, authenticate, touch,
}

-- A request that is let through: it carries a signed token that has not expired, the session of the
-- token is active, and its user is neither locked nor suspended.
pub record Admitted (env : Env) (header : Bytes) (w : World) (c : Context) : Type 0 where
  pub token : Bytes
  pub carried : without_prefix bearer header ≡ some token
  pub claims : Claims
  pub signed : Signed env.codec token claims (env.time w.turn)
  pub subject : c ≡ record { user_id = claims.user_id; jti = claims.jti }
  pub session : DeviceSession
  pub live : find? (has_jti claims.jti) w.device_sessions ≡ some session
  pub user : User
  pub known : find? (λ u. u.id == session.user_id) w.users ≡ some user
  pub status : user.status ≡ UserStatus.active

admit-ends :
    (claims : Claims) (s : UserStatus) (env : Env) (w : World) (c : Context)
    → (admit claims s env w).0 ≡ ok (passed c)
    → (s ≡ UserStatus.active) × (c ≡ record { user_id = claims.user_id; jti = claims.jti })
unfolding refuse give pure ◌>>=◌ touch ignore
admit-ends claims UserStatus.active env w c done = ground arith
admit-ends claims UserStatus.locked env w c done = ground arith
admit-ends claims UserStatus.suspended env w c done = ground arith

refuse-ends :
    (status : ℕ) (message : String) (env : Env) (w : World) (c : Context)
    → (refuse status message env w).0 ≡ ok (passed c)
    → ⊥
unfolding refuse pure
refuse-ends status message env w c done = ground arith

lookup_refused-ends :
    (e : Error) (env : Env) (w : World) (c : Context)
    → (lookup_refused e env w).0 ≡ ok (passed c)
    → ⊥
lookup_refused-ends e env w c done = elim (Bool-cases (is_no_rows e)) [
  | inl missing ↦ refuse-ends 401 "session revoked" env w c (rw missing at done)
  | inr other ↦ refuse-ends 500 "session lookup failed" env w c (rw other at done)
]

with_token-Admitted :
    (header : Bytes) (o : Option Bytes) (env : Env) (w : World) (c : Context)
    → without_prefix bearer header ≡ o
    → (with_token o env w).0 ≡ ok (passed c)
    → Admitted env header w c
unfolding get_active_device_session_by_jti get_user_by_id
with_token-Admitted header none env w c carried done = absurd (refuse-ends 401 _ env w c done)
with_token-Admitted header (some token) env w c carried done =
    attempt_then _ _ _ env w (passed c) done
      (λ e v failed. absurd (refuse-ends 401 _ env v c failed))
      λ claims w1 read d1.
        attempt_then _ _ _ env w1 (passed c) d1
          (λ e v failed. absurd (lookup_refused-ends e env v c failed))
          λ session w2 second d2.
            attempt_then _ _ _ env w2 (passed c) d2
              (λ e v failed. absurd (refuse-ends 500 _ env v c failed))
              λ user w3 third d3.
                let (unlocked, subject) = admit-ends claims user.status env w3 c d3 in
                let (live, moved) = select_one-ends _ _ env w1 w2 session second in
                let (known, moved2) = select_one-ends _ _ env w2 w3 user third in
                let same : SameAccounts w w1 =
                  subst (SameAccounts w) (ap (λ (x : Result Claims × World). x.1) read)
                    ((parse-Steps SameAccounts-frame token).at env w) in
                record {
                  token = token;
                  carried = carried;
                  claims = claims;
                  signed =
                      parse-Signed token env w claims
                        (ap (λ (x : Result Claims × World). x.0) read);
                  subject = subject;
                  session = session;
                  live =
                      subst (λ rows. find? (has_jti claims.jti) rows ≡ some session) same.sessions
                        live;
                  user = user;
                  known =
                      subst (λ us. find? (λ u. u.id == session.user_id) us ≡ some user)
                        (ap (λ (x : World). x.users) moved ∙ same.users) known;
                  status = unlocked;
                }

-- A request passes the middleware only with a signed token that has not expired, of an active session
-- whose user is neither locked nor suspended; the context is that of the claims.
pub authenticate-Admitted :
    (header : Bytes) (env : Env) (w : World) (c : Context)
    → (authenticate header env w).0 ≡ ok (passed c)
    → Admitted env header w c
unfolding authenticate
authenticate-Admitted header env w c done = with_token-Admitted header _ env w c refl done
