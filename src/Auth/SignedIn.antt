-- ===== src/Auth/SignedIn.antt =====
-- What a sign-in that goes through has done.
use echopay.Common.{
  ℕ, suc, ◌+◌, String, Bool, none, some, List, [], ◌∷◌, Bytes, ◌≡◌, sym, ap, ◌∙◌, subst, find?,
  str_eq, eq_iff, arith, inl, inr, Option-cases, Bool-cases,
}
use echopay.Store.Models.{User}
use echopay.Store.Models.Sessions.{OtpRequest, DeviceSession}
use echopay.Store.Query.{select_one}
use echopay.Store.Accounts.{get_user_by_phone, create_user}
use echopay.Store.Devices.{CreateDeviceSessionParams, create_device_session, accepts_session}
use echopay.World.{Env, World, Result, ok}
use echopay.Action.{pure, raise, query, now, ◌>>=◌, handle, within}
use echopay.Action.Steps.{Steps, steps_rules}
use echopay.Action.Yields.{Yields, Yields-pure, yields_rules}
use echopay.Action.Ends.{within-ends, bind_then}
use echopay.Auth.Jwt.{new_uuid, configured, issue, write_token, unix}
use echopay.Auth.{upsert_user, DeviceInfo, VerifyResult, announced, sign_in, verify_otp}
use echopay.Auth.Same.{
  SameAccounts, SameAccounts-frame, notify-SameAccounts, record_event-SameAccounts,
}
use echopay.Auth.Checked.{Checked, check_otp-Checked}

user_found :
    (phone : String) (us : List User) (u : User)
    → find? (λ u. str_eq u.phone phone) us ≡ some u
    → u.phone ≡ phone
user_found phone [] u h = cc
user_found phone (x ∷ us) u h = ground (arith, eq_iff x.phone phone, user_found phone us u)

-- The user of the phone is found or created; no session changes.
upsert_user-ends :
    (phone : String) (env : Env) (w w' : World) (u : User) (is_new : Bool)
    → upsert_user phone env w ≡ (ok (u, is_new), w')
    → (u.phone ≡ phone) × (w'.device_sessions ≡ w.device_sessions)
unfolding upsert_user get_user_by_phone select_one create_user query ◌>>=◌ handle within pure raise
upsert_user-ends phone env w w' u is_new done = elim (Option-cases (env.database_fault w.turn)) [
  | inr (why, fault) ↦ ground arith
  | inl quiet ↦ elim (Option-cases (find? (λ x. str_eq x.phone phone) w.users)) [
    | inr (x, known) ↦ ground (arith, user_found phone w.users x)
    | inl missing ↦ elim (Option-cases (env.database_fault (suc w.turn))) [
      | inr (why, fault) ↦ ground arith
      | inl still ↦ ground arith
    ]
  ]
]

-- A sign-in of a user, from the world before to the world after.
pub record SignedIn (env : Env) (phone : String) (w : World) (v : VerifyResult) (w' : World)
    : Type 0 where
  pub phone_of : v.user.phone ≡ phone
  pub owner : v.session.user_id ≡ v.user.id
  pub live : v.session.revoked_at ≡ none
  pub sessions : w'.device_sessions ≡ v.session ∷ w.device_sessions
  pub token :
      (t : ℕ) × (v.token
        ≡ write_token env.codec (record {
          user_id = v.user.id;
          phone = v.user.phone;
          jti = v.session.jti;
          issued_at = unix t;
          expires_at = unix (t + env.jwt_ttl);
        }))

issue-ends :
    (id : ℕ) (phone : String) (env : Env) (w w' : World) (token : Bytes) (jti : ℕ)
    → issue id phone env w ≡ (ok (token, jti), w')
    → (t : ℕ) × (token
        ≡ write_token env.codec (record {
          user_id = id;
          phone = phone;
          jti = jti;
          issued_at = unix t;
          expires_at = unix (t + env.jwt_ttl);
        }))
      × (w'.device_sessions ≡ w.device_sessions)
unfolding issue new_uuid configured now ◌>>=◌ pure
issue-ends id phone env w w' token jti done = (env.time (suc w.turn), ground arith, ground arith)

create_session-ends :
    (a : CreateDeviceSessionParams) (env : Env) (w w' : World) (s : DeviceSession)
    → create_device_session a env w ≡ (ok s, w')
    → (s.user_id ≡ a.user_id)
      × (s.jti ≡ a.jti)
      × (s.revoked_at ≡ none)
      × (w'.device_sessions ≡ s ∷ w.device_sessions)
unfolding create_device_session query
create_session-ends a env w w' s done = elim (Option-cases (env.database_fault w.turn)) [
  | inr (why, fault) ↦ ground arith
  | inl quiet ↦
      elim (Bool-cases
        (accepts_session (env.random_uuid w.turn) a (record w { turn = suc w.turn }))) [
          | inl fits ↦ ground arith
          | inr refused ↦ ground arith
        ]
]

announced-SameAccounts :
    (device : DeviceInfo) (user : User) (is_new : Bool) (token : Bytes) (session : DeviceSession)
    → Steps SameAccounts (announced device user is_new token session)
unfolding announced
announced-SameAccounts device user is_new token session =
    search (steps_rules, SameAccounts-frame, notify-SameAccounts, record_event-SameAccounts) depth
      12

announced-Yields :
    (device : DeviceInfo) (user : User) (is_new : Bool) (token : Bytes) (session : DeviceSession)
    → Yields
        (announced device user is_new token session)
        (λ v _. v ≡ record { token = token; user = user; is_new = is_new; session = session })
unfolding announced
announced-Yields device user is_new token session = search (yields_rules, Yields-pure) depth 12

sign_in-SignedIn :
    (phone : String) (device : DeviceInfo) (env : Env) (w w' : World) (v : VerifyResult)
    → sign_in phone device env w ≡ (ok v, w')
    → SignedIn env phone w v w'
unfolding sign_in
sign_in-SignedIn phone device env w w' v done =
    bind_then _ _ env w w' v done λ (user, is_new) w1 first d1.
      bind_then _ _ env w1 w' v d1 λ (token, jti) w2 second d2.
        bind_then _ _ env w2 w' v d2 λ session w3 third d3.
          let (named, kept) = upsert_user-ends phone env w w1 user is_new first in
          let (t, written, kept2) =
            issue-ends user.id user.phone env w1 w2 token jti
              (within-ends _ _ env w1 w2 (token, jti) second) in
          let (owner, own_jti, live, added) =
            create_session-ends _ env w2 w3 session (within-ends _ _ env w2 w3 session third) in
          let last = announced-SameAccounts device user is_new token session in
          let gave =
            (announced-Yields device user is_new token session).at env w3 v
              (ap (λ (x : Result VerifyResult × World). x.0) d3) in
          subst (λ x. SignedIn env phone w x w') (sym gave)
            (record {
              phone_of = named;
              owner = owner;
              live = live;
              sessions =
                  ap (λ (x : Result VerifyResult × World). x.1.device_sessions) (sym d3)
                  ∙ (last.at env w3).sessions
                  ∙ added
                  ∙ ap (λ ss. session ∷ ss) (kept2 ∙ kept);
              token = (
                t,
                written
                    ∙ ap
                        (λ j. write_token env.codec (record {
                          user_id = user.id;
                          phone = user.phone;
                          jti = j;
                          issued_at = unix t;
                          expires_at = unix (t + env.jwt_ttl);
                        }))
                        (sym own_jti),
              );
            })

-- Where VerifyOTP returns, the code was accepted, and exactly one session was added: an active one of
-- the user who is returned, whose phone is the one given; the token names that user and the session.
pub verify_otp-SignedIn :
    (phone purpose : String) (code : Bytes) (device : DeviceInfo) (env : Env) (w w' : World)
    (v : VerifyResult)
    → verify_otp phone purpose code device env w ≡ (ok v, w')
    → (r : OtpRequest) × (w1 : World) × Checked env phone purpose code w r w1
      × SignedIn env phone w v w'
unfolding verify_otp
verify_otp-SignedIn phone purpose code device env w w' v done =
    bind_then _ _ env w w' v done λ r w1 first d1.
      let passed = check_otp-Checked phone purpose code env w w1 r first in
      let into = sign_in-SignedIn phone device env w1 w' v d1 in
      (
        r,
        w1,
        passed,
        record {
          phone_of = into.phone_of;
          owner = into.owner;
          live = into.live;
          sessions = into.sessions ∙ ap (λ ss. v.session ∷ ss) passed.sessions;
          token = into.token;
        },
      )
