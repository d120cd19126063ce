-- ===== src/Auth/Checked.antt =====
-- What a one-time password that was accepted has gone through, and that it is accepted once.
use echopay.Common.{
  All, ℕ, suc, ◌<◌, ◌≤◌, String, Bool, true, not, Option, none, some, List, [], ◌∷◌, Bytes, ◌≡◌,
  ◌≢◌, refl, sym, ap, ◌∙◌, subst, find?, select, update_where, latest, str_eq, leb, ltb, ◌==◌,
  if◌then◌else◌, arith, inl, inr, ◌⊎◌, Bool-cases,
}
use echopay.Store.Models.Sessions.{OtpRequest}
use echopay.Store.Query.{found}
use echopay.Store.Otp.{
  is_open_for, get_latest_otp_request, with_request, more_attempts, increment_otp_attempts,
  mark_otp_verified,
}
use echopay.World.{Env, World, failure, otp_expired, otp_max_attempts, otp_invalid, Result, ok, err}
use echopay.Action.{pure, ◌>>=◌, ◌>>◌, within, require}
use echopay.Action.Ends.{
  within_query_then, found-ends, pure-ends, now_then, require_then, bind_then, rows_or-ends,
  query-ends,
}
use echopay.Auth.Jwt.{configured}
use echopay.Auth.{purpose_of, is_code, check_otp}
use echopay.Auth.Guards.{newest}

latest_cases :
    (x : OtpRequest) (o : Option OtpRequest) (r : OtpRequest)
    → elim o [ none ↦ some x | some y ↦ if leb y.created_at x.created_at then some x else some y ]
      ≡ some r
    → (x ≡ r) ⊎ (o ≡ some r)
latest_cases x none r h = inl (cc)
latest_cases x (some y) r h = elim (Bool-cases (leb y.created_at x.created_at)) [
  | inl before ↦ inl (ground arith)
  | inr after ↦ inr (ground arith)
]

-- what holds of every row that passes the test holds of the newest such row
latest_All :
    (Q : OtpRequest → Type 0) (test : OtpRequest → Bool) (rows : List OtpRequest) (r : OtpRequest)
    → All (λ x. test x ≡ true → Q x) rows
    → latest (λ x. x.created_at) (select test rows) ≡ some r
    → Q r
latest_All Q test [] r all h = cc
latest_All Q test (x ∷ rows) r all h = elim (Bool-cases (test x)) [
  | inl fits ↦
      elim (latest_cases x (latest (λ y. y.created_at) (select test rows)) r (ground arith)) [
        | inl same ↦ subst Q same (all.0 fits)
        | inr later ↦ latest_All Q test rows r all.1 later
      ]
  | inr other ↦ latest_All Q test rows r all.1 (ground arith)
]

-- the tables after an accepted code: an attempt is counted, and the request is verified
abbrev pub used_up : ℕ → ℕ → World → World
used_up id t w =
    with_request id (λ x. record x { verified_at = some t }) (with_request id more_attempts w)

-- What a code that was accepted has gone through.
pub record Checked (env : Env) (phone purpose : String) (code : Bytes) (w : World) (r : OtpRequest)
    (w' : World) : Type 0 where
  pub found_at : newest phone purpose w ≡ some r
  pub in_time : env.time (suc w.turn) ≤ r.expires_at
  pub attempt : r.attempts < r.max_attempts
  pub fits : is_code env phone r code ≡ true
  pub requests : w'.otp_requests ≡ (used_up r.id (env.time (suc (suc (suc w.turn)))) w).otp_requests
  pub users : w'.users ≡ w.users
  pub sessions : w'.device_sessions ≡ w.device_sessions

-- `tries` is what the statement sees: the row, if there is one
abbrev tried : ℕ → World → Option OtpRequest → Result OtpRequest × World
tried id w none = (found none, w)
tried id w (some r) =
    if ltb r.attempts 32767
    then (ok (more_attempts r), with_request id more_attempts w)
    else (err (failure "smallint out of range"), w)

tried-ends :
    (id : ℕ) (w w' : World) (more : OtpRequest) (o : Option OtpRequest)
    → tried id w o ≡ (ok more, w')
    → w' ≡ with_request id more_attempts w
tried-ends id w w' more none done = absurd (cc (ap (λ (x : Result OtpRequest × World). x.0) done))
tried-ends id w w' more (some r) done = elim (Bool-cases (ltb r.attempts 32767)) [
  | inl small ↦
      let counted : tried id w (some r) ≡ (ok (more_attempts r), with_request id more_attempts w) =
        rw small refl in
      ap (λ (x : Result OtpRequest × World). x.1) (sym done ∙ counted)
  | inr large ↦
      let refused : tried id w (some r) ≡ (err (failure "smallint out of range"), w) =
        rw large refl in
      absurd (cc (ap (λ (x : Result OtpRequest × World). x.0) (sym done ∙ refused)))
]

-- The end of a check, once the code fits: the request is marked and returned.
mark-ends :
    (req q : OtpRequest) (env : Env) (w w' : World)
    → (within "mark otp verified" (mark_otp_verified req.id) >> pure req) env w ≡ (ok q, w')
    → (req ≡ q)
      × (w'
          ≡ with_request req.id
              (λ x. record x { verified_at = some (env.time w.turn) })
              (record w { turn = suc w.turn }))
unfolding mark_otp_verified
mark-ends req q env w w' done =
    within_query_then "mark otp verified" _ _ env w w' q done λ _ v first rest.
      let (same, there) = pure-ends req q env v w' rest in
      (same, sym there ∙ sym (ap (λ x. x.1) first))

-- The middle of a check: an attempt is counted and the code is compared.
compare-ends :
    (phone : String) (code : Bytes) (req q : OtpRequest) (env : Env) (w w' : World)
    → (within "increment attempts" (increment_otp_attempts req.id)
          >> (configured >>= λ e.
              require (is_code e phone req code) otp_invalid
              >> (within "mark otp verified" (mark_otp_verified req.id) >> pure req)))
        env w
      ≡ (ok q, w')
    → (req ≡ q)
      × (is_code env phone req code ≡ true)
      × (w' ≡ record (used_up req.id (env.time (suc w.turn)) w) { turn = suc (suc w.turn) })
unfolding increment_otp_attempts configured ◌>>=◌
compare-ends phone code req q env w w' done =
    within_query_then "increment attempts" _ _ env w w' q done λ more v first rest.
      let counted = tried-ends req.id _ v more (find? (λ r. r.id == req.id) w.otp_requests) first in
      let (fits, marked) =
        require_then (is_code env phone req code) otp_invalid _ env v w' q rest in
      let (same, there) = mark-ends req q env v w' marked in
      (
        same,
        fits,
        there
            ∙ ap
                (λ (x : World).
                  with_request req.id (λ r. record r { verified_at = some (env.time x.turn) })
                    (record x { turn = suc x.turn }))
                counted,
      )

-- A check that returns a request read the newest open one of the phone and the purpose; it had not
-- expired, it had an attempt left, and the code is the magic one of a test phone in dev mode or fits
-- the hash. The request is now verified with an attempt more, and no user or session has changed.
pub check_otp-Checked :
    (phone purpose : String) (code : Bytes) (env : Env) (w w' : World) (r : OtpRequest)
    → check_otp phone purpose code env w ≡ (ok r, w')
    → Checked env phone purpose code w r w'
unfolding check_otp get_latest_otp_request
check_otp-Checked phone purpose code env w w' r done =
    bind_then _ _ env w w' r done λ req w1 first d1.
      let read = query-ends _ env w w1 req (rows_or-ends _ _ _ env w w1 req first) in
      let (in_time, d2) = require_then _ otp_expired _ env _ w' r (now_then _ env w1 _ d1) in
      let (attempt, d3) = require_then _ otp_max_attempts _ env _ w' r d2 in
      let (same, fits, there) = compare-ends phone code req r env _ w' d3 in
      let moved : w1 ≡ record w { turn = suc w.turn } =
        sym (ap (λ (x : Result OtpRequest × World). x.1) read) in
      let late =
        subst (λ (v : World). not (ltb req.expires_at (env.time v.turn)) ≡ true) moved in_time in
      let after =
        subst
          (λ (v : World). w' ≡ record (used_up req.id (env.time (suc (suc v.turn))) v) {
            turn = suc (suc (suc v.turn));
          })
          moved there in
      subst (λ q. Checked env phone purpose code w q w') same
        (record {
          found_at = found-ends _ req (ap (λ (x : Result OtpRequest × World). x.0) read);
          in_time = ground arith;
          attempt = ground arith;
          fits = fits;
          requests = ap (λ (v : World). v.otp_requests) after;
          users = ap (λ (v : World). v.users) after;
          sessions = ap (λ (v : World). v.device_sessions) after;
        })

closed_row :
    (id t : ℕ) (phone purpose : String) (x : OtpRequest)
    → let y = if x.id == id then record x { verified_at = some t } else x in
      is_open_for phone purpose y ≡ true → y.id ≢ id
closed_row id t phone purpose x opened same =
    ground (arith, Bool-cases (str_eq x.phone phone), Bool-cases (str_eq x.purpose purpose))

-- the rows of a request that was used are no longer open
closed :
    (id t : ℕ) (phone purpose : String) (rows : List OtpRequest)
    → All
        (λ x. is_open_for phone purpose x ≡ true → x.id ≢ id)
        (update_where (λ r. r.id == id) (λ r. record r { verified_at = some t }) rows)
closed id t phone purpose [] = tt
closed id t phone purpose (x ∷ rows) =
    (closed_row id t phone purpose x, closed id t phone purpose rows)

-- Once a check has returned a request, no later check of the requests that it left returns one with
-- its id, whatever the phone, the purpose and the code.
pub check_otp-once :
    (phone purpose phone' purpose' : String) (code code' : Bytes) (env env' : Env)
    (w w' v v' : World) (r q : OtpRequest)
    → check_otp phone purpose code env w ≡ (ok r, w')
    → v.otp_requests ≡ w'.otp_requests
    → check_otp phone' purpose' code' env' v ≡ (ok q, v')
    → q.id ≢ r.id
check_otp-once phone purpose phone' purpose' code code' env env' w w' v v' r q first same second =
    let used = check_otp-Checked phone purpose code env w w' r first in
    let later = check_otp-Checked phone' purpose' code' env' v v' q second in
    latest_All (λ x. x.id ≢ r.id) (is_open_for phone' (purpose_of purpose')) _ q
      (closed r.id _ phone' (purpose_of purpose') _)
      (subst
        (λ rows.
          latest (λ x. x.created_at) (select (is_open_for phone' (purpose_of purpose')) rows)
          ≡ some q)
        (same ∙ used.requests) later.found_at)
