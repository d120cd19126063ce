-- ===== src/Tests/Identity.antt =====
-- Bob has his BVN verified; and what time.AddDate gives for a few days.
use echopay.Common.{ℕ, ◌*◌, ◌+◌, some, [], ◌∷◌, ◌≡◌, refl}
use echopay.Store.Models.{User}
use echopay.Store.Accounts.{update_user, update_user_kyc}
use echopay.World.{World, Env, ok}
use echopay.Action.{pure, raise, ask, now, query, ◌>>=◌, handle, within, require}
use echopay.Kyc.{stub_provider, SubmitBvnRequest, submit_bvn}
use echopay.Kyc.Calendar.{thirteen_years_before}
use echopay.Kyc.Submitted.{Submitted, submit_bvn-Submitted}
use echopay.Tests.Data.{bob, empty_world, sunny}

-- noon of a day after the first of January of the year 1
abbrev noon : ℕ → ℕ
noon d = d * 86_400_000_000_000 + 43_200_000_000_000

-- 29 February 2024 and 1 March 2011
leap_day : thirteen_years_before (noon 738944) ≡ noon 734196
unfolding thirteen_years_before
leap_day = refl

-- 1 March 2025 and 1 March 2012
to_leap_year : thirteen_years_before (noon 739310) ≡ noon 734562
unfolding thirteen_years_before
to_leap_year = refl

-- 31 December 2012 and 31 December 1999
end_of_year : thirteen_years_before (noon 734867) ≡ noon 730118
unfolding thirteen_years_before
end_of_year = refl

-- noon of 1 January 2026
abbrev new_year : Env
new_year = record sunny { time = λ n. noon 739616 }

abbrev request : SubmitBvnRequest
request = record {
  user_id = 2;
  full_name = "Bob Obi";
  bvn = b'1' ∷ b'2' ∷ b'3' ∷ b'4' ∷ b'5' ∷ b'6' ∷ b'7' ∷ b'8' ∷ b'9' ∷ b'0' ∷ b'1' ∷ [];
  date_of_birth = noon 700_000;
}

abbrev verified_bob : User
verified_bob = record bob {
  full_name = some "Bob Obi";
  bvn_hash = some "hash";
  date_of_birth = some (noon 700_000);
  kyc_tier = 1;
  kyc_status = "verified";
  updated_at = noon 739616;
}

abbrev verified_world : World
verified_world = (submit_bvn stub_provider request new_year empty_world).1

bob_verified :
    submit_bvn stub_provider request new_year empty_world ≡ (ok verified_bob, verified_world)
unfolding submit_bvn thirteen_years_before update_user_kyc update_user ask now query ◌>>=◌ handle
    within require pure raise
bob_verified = refl

submit_bvn-Submitted_example :
    Submitted stub_provider request new_year empty_world verified_bob verified_world
submit_bvn-Submitted_example =
    submit_bvn-Submitted stub_provider request new_year empty_world verified_world verified_bob
      bob_verified
