-- ===== src/Kyc.antt =====
-- internal/kyc/service.go: SubmitBVN. The identity provider is a parameter: what it answers to a BVN,
-- a name and a date of birth.
pub mod Calendar
pub mod Submitted
use echopay.Common.{
  ℕ, String, Bool, true, false, not, ◌&&◌, Option, none, some, Bytes, length, all_digits, ltb, leb,
  ◌==◌, if◌then◌else◌,
}
use echopay.Store.Models.{User}
use echopay.Store.Accounts.{update_user_kyc}
use echopay.World.{Env, Result, ok, invalid_bvn, invalid_dob}
use echopay.Action.{Action, ask, now, ◌>>=◌, ◌>>◌, within, require}
use echopay.Kyc.Calendar.{thirteen_years_before}

-- the interface `Provider`; it is asked with the count of turns
abbrev pub Provider : Type 0
Provider = ℕ → Bytes → String → ℕ → Result (Unit {0})

-- `StubProvider`
abbrev pub stub_provider : Provider
stub_provider n bvn full_name dob = ok tt

pub record SubmitBvnRequest : Type 0 where
  pub user_id : ℕ
  pub full_name : String
  pub bvn : Bytes
  pub date_of_birth : ℕ

-- bvnRe, `^\d{11}$`
abbrev pub is_bvn : Bytes → Bool
is_bvn bvn = length bvn == 11 && all_digits bvn

-- `SubmitBVN`
unfoldable pub submit_bvn : Provider → SubmitBvnRequest → Action User
submit_bvn verify req = do
  require (is_bvn req.bvn) invalid_bvn
  t ← now
  require (not (req.date_of_birth == 0) && not (ltb (thirteen_years_before t) req.date_of_birth))
      invalid_dob
  ask (λ env n. verify n req.bvn req.full_name req.date_of_birth)
  hash ← within "hash bvn" (ask (λ env n. env.hash_password n req.bvn))
  update_user_kyc (record {
    id = req.user_id;
    full_name = some req.full_name;
    bvn_hash = some hash;
    date_of_birth = some req.date_of_birth;
    kyc_tier = 1;
    kyc_status = "verified";
  })
