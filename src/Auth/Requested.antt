-- ===== src/Auth/Requested.antt =====
-- A code that was just requested is accepted.
use echopay.Common.{
  ℕ, suc, ◌+◌, ◌≤◌, String, true, false, none, some, List, ◌∷◌, Bytes, ◌≡◌, refl, sym, ap, ◌∙◌,
  subst, find?, select, latest, is_some, eq_iff, ltb, ◌==◌, arith, inl, inr, Bool-cases,
}
use echopay.Store.Models.Sessions.{OtpRequest}
use echopay.Store.Otp.{
  is_open_for, CreateOtpRequestParams, new_otp_request, create_otp_request, expire_previous_otps,
  get_latest_otp_request, increment_otp_attempts, mark_otp_verified,
}
use echopay.World.{Env, World, Result, ok}
use echopay.Action.{pure, raise, now, query, ◌>>=◌, handle, within, rows_or, require}
use echopay.Action.Ends.{ask-ends, bind_then, within-ends, query-ends, now_then, pure-ends}
use echopay.Auth.Jwt.{configured}
use echopay.Auth.{OtpResult, purpose_of, generate_otp, otp_ttl, request_otp, is_code, check_otp}
use echopay.Auth.Newest.{Old, select-Old, expired-Old, latest_head}

-- What a request for a code leaves: the new row in front of the others.
record Fresh (env : Env) (phone purpose : String) (w : World) (res : OtpResult) (w' : World)
    : Type 0 where
  row : OtpRequest
  others : List OtpRequest
  rows : w'.otp_requests ≡ row ∷ others
  older : Old row.created_at others
  opened : is_open_for phone (purpose_of purpose) row ≡ true
  untried : (row.attempts ≡ 0) × (row.max_attempts ≡ 5)
  until : row.expires_at ≡ res.expires_at
  turn : ℕ
  hashed : env.hash_password turn res.code ≡ ok row.code_hash

-- from now on the clock does not fall behind the rows
abbrev pub Advances : Env → World → Type 0
Advances env w = (n : ℕ) → w.turn ≤ n → Old (env.time n) w.otp_requests

create-ends :
    (a : CreateOtpRequestParams) (env : Env) (w w' : World) (r : OtpRequest)
    → create_otp_request a env w ≡ (ok r, w')
    → w'.otp_requests
      ≡ new_otp_request (env.time w.turn) (env.random_uuid w.turn) a ∷ w.otp_requests
unfolding create_otp_request
create-ends a env w w' r done =
    let ran = query-ends _ env w w' r done in
    elim (Bool-cases (is_some (find? (λ r. r.id == env.random_uuid w.turn) w.otp_requests))) [
      | inl clash ↦ ground arith
      | inr fresh ↦ ap (λ (x : Result OtpRequest × World). x.1.otp_requests) (sym (rw fresh at ran))
    ]

opened_new :
    (phone purpose hash : String) (t id later : ℕ)
    → is_open_for phone purpose (
        new_otp_request t id
          (record { phone = phone; code_hash = hash; purpose = purpose; expires_at = later }))
      ≡ true
opened_new phone purpose hash t id later =
    ground (arith, eq_iff phone phone, eq_iff purpose purpose)

generate_otp-ends :
    (env : Env) (w w' : World) (code : Bytes)
    → generate_otp env w ≡ (ok code, w')
    → (w'.turn ≡ suc w.turn) × (w'.otp_requests ≡ w.otp_requests)
unfolding generate_otp
generate_otp-ends env w w' code done = bind_then _ _ env w w' code done λ b w1 first d1.
    let (drawn, moved) = ask-ends _ env w w1 b first in
    let (same, still) = pure-ends _ code env w1 w' d1 in
    let whole = moved ∙ still in
    (ap (λ (x : World). x.turn) (sym whole), ap (λ (x : World). x.otp_requests) (sym whole))

request_otp-Fresh :
    (phone purpose : String) (env : Env) (w w' : World) (res : OtpResult)
    → request_otp phone purpose env w ≡ (ok res, w')
    → Advances env w
    → Fresh env phone purpose w res w'
unfolding request_otp expire_previous_otps
request_otp-Fresh phone purpose env w w' res done clock =
    bind_then _ _ env w w' res done λ _ w1 first d1.
      bind_then _ _ env w1 w' res d1 λ code w2 second d2.
        bind_then _ _ env w2 w' res d2 λ hash w3 third d3.
          let d4 = now_then _ env w3 (ok res, w') d3 in
          bind_then _ _ env (record w3 { turn = suc w3.turn }) w' res d4
            λ r w4 fourth d5.
              let expired = query-ends _ env w w1 _ (within-ends _ _ env w w1 _ first) in
              let made = create-ends _ env _ w4 r (within-ends _ _ env _ w4 r fourth) in
              let answered = pure-ends _ res env w4 w' d5 in
              let (turn2, kept2) =
                generate_otp-ends env w1 w2 code (within-ends _ _ env w1 w2 code second) in
              let (hashed, moved) =
                ask-ends _ env w2 w3 hash (within-ends _ _ env w2 w3 hash third) in
              let turn1 : w1.turn ≡ suc w.turn =
                ap (λ (x : Result (Unit {0}) × World). x.1.turn) (sym expired) in
              let turn3 : w3.turn ≡ suc w2.turn = ap (λ (x : World). x.turn) (sym moved) in
              let others =
                ap (λ (x : World). x.otp_requests) (sym moved)
                ∙ kept2
                ∙ ap (λ (x : Result (Unit {0}) × World). x.1.otp_requests) (sym expired) in
              let later : w.turn ≤ suc w3.turn = ground (arith, turn1, turn2, turn3) in
              record {
                row =
                    new_otp_request (env.time (suc w3.turn)) (env.random_uuid (suc w3.turn))
                      (record {
                        phone = phone;
                        code_hash = hash;
                        purpose = purpose_of purpose;
                        expires_at = env.time w3.turn + otp_ttl;
                      });
                others = w3.otp_requests;
                rows = ap (λ (x : World). x.otp_requests) (sym answered.1) ∙ made;
                older =
                    subst (Old (env.time (suc w3.turn))) (sym others)
                      (expired-Old _ _ _ _ (clock (suc w3.turn) later));
                opened =
                    opened_new phone (purpose_of purpose) hash (env.time (suc w3.turn))
                      (env.random_uuid (suc w3.turn)) (env.time w3.turn + otp_ttl);
                untried = (refl, refl);
                until = ap (λ (x : OtpResult). x.expires_at) answered.0;
                turn = w2.turn;
                hashed =
                    subst (λ c. env.hash_password w2.turn c ≡ ok hash)
                      (ap (λ (x : OtpResult). x.code) answered.0) hashed;
              }

-- a request that may be tried, with its code
accepts :
    (phone purpose : String) (code : Bytes) (env : Env) (w : World) (r : OtpRequest)
    → env.database_fault w.turn ≡ none
    → env.database_fault (suc (suc w.turn)) ≡ none
    → env.database_fault (suc (suc (suc w.turn))) ≡ none
    → latest (λ x. x.created_at) (select (is_open_for phone (purpose_of purpose)) w.otp_requests)
      ≡ some r
    → find? (λ x. x.id == r.id) w.otp_requests ≡ some r
    → ltb r.expires_at (env.time (suc w.turn)) ≡ false
    → ltb r.attempts r.max_attempts ≡ true
    → ltb r.attempts 32767 ≡ true
    → is_code env phone r code ≡ true
    → (v : World) × (check_otp phone purpose code env w ≡ (ok r, v))
unfolding check_otp get_latest_otp_request increment_otp_attempts mark_otp_verified query now ◌>>=◌
    handle rows_or within require configured pure raise
accepts phone purpose code env w r quiet still calm known row early first small fits =
    ((check_otp phone purpose code env w).1, ground arith)

first_of : (r : OtpRequest) (rows : List OtpRequest) → find? (λ x. x.id == r.id) (r ∷ rows) ≡ some r
first_of r rows = ground arith

first_open :
    (phone purpose : String) (r : OtpRequest) (rows : List OtpRequest)
    → is_open_for phone purpose r ≡ true
    → latest (λ x. x.created_at) (r ∷ select (is_open_for phone purpose) rows) ≡ some r
    → latest (λ x. x.created_at) (select (is_open_for phone purpose) (r ∷ rows)) ≡ some r
first_open phone purpose r rows opened newest = rw opened newest

code_fits :
    (env : Env) (phone : String) (r : OtpRequest) (code : Bytes)
    → env.password_matches r.code_hash code ≡ true
    → is_code env phone r code ≡ true
code_fits env phone r code fits = rw fits (ground arith)

-- Where the clock does not fall behind the requests in the table, a code that RequestOTP returned is
-- accepted: while the requests stay as they were, until it expires, where the database does not fail
-- and bcrypt matches a password with its hash, the check of that code returns.
pub request_otp-accepted :
    (phone purpose : String) (env env' : Env) (w w' v : World) (res : OtpResult)
    → request_otp phone purpose env w ≡ (ok res, w')
    → Advances env w
    → v.otp_requests ≡ w'.otp_requests
    → ((n : ℕ) → env'.database_fault n ≡ none)
    → env'.time (suc v.turn) ≤ res.expires_at
    → ((n : ℕ) (code : Bytes) (hash : String)
        → env.hash_password n code ≡ ok hash
        → env'.password_matches hash code ≡ true)
    → (r : OtpRequest) × (v' : World) × (check_otp phone purpose res.code env' v ≡ (ok r, v'))
request_otp-accepted phone purpose env env' w w' v res done clock same quiet early matches =
    let fresh = request_otp-Fresh phone purpose env w w' res done clock in
    let rows = same ∙ fresh.rows in
    let newest =
      latest_head fresh.row (select (is_open_for phone (purpose_of purpose)) fresh.others) (
        select-Old (is_open_for phone (purpose_of purpose)) fresh.row.created_at fresh.others
          fresh.older) in
    let (v', ran) =
      accepts phone purpose res.code env' v fresh.row (quiet v.turn) (quiet (suc (suc v.turn)))
        (quiet (suc (suc (suc v.turn))))
        (ap (λ xs. latest (λ x. x.created_at) (select (is_open_for phone (purpose_of purpose)) xs))
            rows
          ∙ first_open phone (purpose_of purpose) fresh.row fresh.others fresh.opened newest)
        (ap (find? (λ x. x.id == fresh.row.id)) rows ∙ first_of fresh.row fresh.others)
        (ground (arith, early, fresh.until)) (ground (arith, fresh.untried))
        (ground (arith, fresh.untried))
        (code_fits env' phone fresh.row res.code
          (matches fresh.turn res.code fresh.row.code_hash fresh.hashed)) in
    (fresh.row, v', ran)
