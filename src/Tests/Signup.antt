-- ===== src/Tests/Signup.antt =====
-- Carol asks for a one-time password and sends it back.
use echopay.Common.{
  ℕ, ◌+◌, suc, String, true, none, [], ◌∷◌, Bytes, ◌≡◌, refl, if◌then◌else◌, arith, ◌≤◌, inl, inr,
  Bool-cases, padded, decimal,
}
use echopay.Store.Models.Sessions.{OtpRequest}
use echopay.Store.Otp.{expire_previous_otps, create_otp_request}
use echopay.World.{World, Env, Result, ok, err, failure}
use echopay.Action.{pure, raise, ask, now, query, ◌>>=◌, handle, within}
use echopay.Auth.{OtpResult, generate_otp, request_otp, check_otp}
use echopay.Auth.Jwt.{same_bytes}
use echopay.Auth.Requested.{Advances, request_otp-accepted}
use echopay.Tests.Data.{start, empty_world, sunny, one_two_three_four}

-- bcrypt, of one code
abbrev hash_of : ℕ → Bytes → Result String
hash_of n code = if same_bytes code one_two_three_four then ok "hash" else err (failure "no hash")

abbrev hashing : Env
hashing = record sunny { hash_password = hash_of }

-- a request that Carol made before
abbrev first_request : OtpRequest
first_request = record {
  id = 31;
  phone = "+2348099999999";
  code_hash = "old";
  purpose = "signin";
  attempts = 0;
  max_attempts = 5;
  expires_at = start + 60_000_000_000;
  verified_at = none;
  created_at = start;
}

abbrev carol_world : World
carol_world = record empty_world { otp_requests = first_request ∷ [] }

clock_goes_on : Advances hashing carol_world
clock_goes_on n h = (omega arith, tt)

abbrev asked_world : World
asked_world = (request_otp "+2348099999999" "" hashing carol_world).1

abbrev code_sent : OtpResult
code_sent = record { code = one_two_three_four; expires_at = hashing.time 3 + 300_000_000_000 }

code_is_sent : request_otp "+2348099999999" "" hashing carol_world ≡ (ok code_sent, asked_world)
unfolding request_otp generate_otp expire_previous_otps create_otp_request padded decimal ask now
    query ◌>>=◌ handle within pure raise
code_is_sent = refl

matches_own_hash :
    (n : ℕ) (code : Bytes) (hash : String)
    → hash_of n code ≡ ok hash
    → hashing.password_matches hash code ≡ true
matches_own_hash n code hash h = elim (Bool-cases (same_bytes code one_two_three_four)) [
  | inl same ↦ same
  | inr other ↦ ground arith
]

within_five_minutes : hashing.time (suc asked_world.turn) ≤ code_sent.expires_at
unfolding request_otp generate_otp expire_previous_otps create_otp_request padded decimal ask now
    query ◌>>=◌ handle within pure raise
within_five_minutes = omega arith

request_otp-accepted_example :
    (r : OtpRequest) × (v : World) × (check_otp "+2348099999999" "" one_two_three_four hashing
        asked_world
      ≡ (ok r, v))
request_otp-accepted_example =
    request_otp-accepted "+2348099999999" "" hashing hashing carol_world asked_world asked_world
      code_sent code_is_sent clock_goes_on refl (λ n. refl) within_five_minutes matches_own_hash
