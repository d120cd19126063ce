-- ===== src/Auth/Guards.antt =====
-- The guards of VerifyOTP: what is refused, what a wrong code costs, and what an accepted code has
-- gone through.
use echopay.Common.{
  ℕ, suc, ◌≤◌, ◌%◌, String, true, false, Option, none, some, Bytes, ◌≡◌, refl, subst, find?, select,
  latest, length, all_digits, read_digits, padded, padded_six, ltb, ◌==◌, if◌then◌else◌, arith,
}
use echopay.Store.Models.Sessions.{OtpRequest}
use echopay.Store.Otp.{
  is_open_for, get_latest_otp_request, with_request, more_attempts, increment_otp_attempts,
}
use echopay.World.{Env, World, Error, otp_expired, otp_max_attempts, otp_invalid, Result, ok, err}
use echopay.Action.{continue, pure, raise, query, ask, now, ◌>>=◌, handle, within, rows_or, require}
use echopay.Auth.Jwt.{configured}
use echopay.Auth.{big_endian, generate_otp, purpose_of, DeviceInfo, is_code, check_otp, verify_otp}

-- A code that is drawn is six digits, and its number is that of the random bytes modulo a million.
pub generate_otp_bounds :
    (env : Env) (w : World) (code : Bytes)
    → (generate_otp env w).0 ≡ ok code
    → (length code ≡ 6)
      × (all_digits code ≡ true)
      × (b : ℕ × ℕ × ℕ × ℕ) × (env.random_bytes w.turn ≡ ok b)
      × (read_digits 0 code ≡ big_endian b % 1_000_000)
unfolding generate_otp ask ◌>>=◌ pure
generate_otp_bounds env w code done = drawn (env.random_bytes w.turn) refl done
  where
    drawn :
        (r : Result (ℕ × ℕ × ℕ × ℕ))
        → env.random_bytes w.turn ≡ r
        → (continue r
            (λ b. pure (padded 6 (big_endian b % 1_000_000)))
            env
            (record w { turn = suc w.turn })).0
          ≡ ok code
        → (length code ≡ 6)
          × (all_digits code ≡ true)
          × (b : ℕ × ℕ × ℕ × ℕ) × (env.random_bytes w.turn ≡ ok b)
          × (read_digits 0 code ≡ big_endian b % 1_000_000)
    drawn (err e) known done = cc
    drawn (ok b) known done =
        let same : padded 6 (big_endian b % 1_000_000) ≡ code = cc in
        let (l, d, v) = padded_six (big_endian b % 1_000_000) (omega arith) in
        (
          subst (λ c. length c ≡ 6) same l,
          subst (λ c. all_digits c ≡ true) same d,
          b,
          known,
          subst (λ c. read_digits 0 c ≡ big_endian b % 1_000_000) same v,
        )

-- the request that VerifyOTP reads
abbrev pub newest : String → String → World → Option OtpRequest
newest phone purpose w =
    latest (λ r. r.created_at) (select (is_open_for phone (purpose_of purpose)) w.otp_requests)

-- why a request is not tried at all
abbrev pub verdict : OtpRequest → ℕ → Option Error
verdict r t =
    if ltb r.expires_at t
    then some otp_expired
    else if ltb r.attempts r.max_attempts
    then none
    else some otp_max_attempts

-- A request that has expired, or whose attempts are used up, is refused with that error, the right
-- code included, and only the count of turns changes.
pub verify_otp-refused :
    (phone purpose : String) (code : Bytes) (device : DeviceInfo) (env : Env) (w : World)
    (r : OtpRequest) (e : Error)
    → env.database_fault w.turn ≡ none
    → newest phone purpose w ≡ some r
    → verdict r (env.time (suc w.turn)) ≡ some e
    → (n : ℕ) × (verify_otp phone purpose code device env w ≡ (err e, record w { turn = n }))
unfolding verify_otp check_otp get_latest_otp_request query now ◌>>=◌ handle rows_or require pure
    raise
verify_otp-refused phone purpose code device env w r e quiet known refused =
    ((verify_otp phone purpose code device env w).1.turn, ground arith)

-- A wrong code costs an attempt and nothing else happens.
pub verify_otp-wrong_code :
    (phone purpose : String) (code : Bytes) (device : DeviceInfo) (env : Env) (w : World)
    (r : OtpRequest)
    → env.database_fault w.turn ≡ none
    → env.database_fault (suc (suc w.turn)) ≡ none
    → newest phone purpose w ≡ some r
    → find? (λ x. x.id == r.id) w.otp_requests ≡ some r
    → r.max_attempts ≤ 32767
    → verdict r (env.time (suc w.turn)) ≡ none
    → is_code env phone r code ≡ false
    → (n : ℕ) × (verify_otp phone purpose code device env w
        ≡ (err otp_invalid, record (with_request r.id more_attempts w) { turn = n }))
unfolding verify_otp check_otp get_latest_otp_request increment_otp_attempts query now ◌>>=◌ handle
    rows_or within require configured pure raise
verify_otp-wrong_code phone purpose code device env w r quiet still known row small allowed wrong =
    ((verify_otp phone purpose code device env w).1.turn, ground arith)
