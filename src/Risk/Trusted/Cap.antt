-- ===== src/Risk/Trusted/Cap.antt =====
-- The effective cap: never an error, never above the default.
use echopay.Common.{
  ℕ, ◌≡◌, ◌≤◌, ◌==◌, ◌&&◌, suc, none, some, find?, ltb, if◌then◌else◌, arith, Option-cases, inl,
  inr,
}
use Prim.Native.Nat.{min}
use echopay.Store.Users.{get_trusted_merchant_cap}
use echopay.Store.Models.{TrustedMerchant}
use echopay.World.{Env, World, ok}
use echopay.Action.{pure, query, ◌>>=◌, handle}
use echopay.Risk.Trusted.{effective_cap}

-- Whatever the tables hold and whether or not the database fails, the lookup returns a cap, it is at
-- most the default, and nothing but the count of turns changes.
pub effective_cap-le :
    (user merchant default_cap : ℕ) (env : Env) (w : World)
    → (cap : ℕ) × (effective_cap user merchant default_cap env w
        ≡ (ok cap, record w { turn = suc w.turn }))
      × (cap ≤ default_cap)
unfolding effective_cap get_trusted_merchant_cap query ◌>>=◌ handle pure
effective_cap-le user merchant default_cap env w = elim (Option-cases (env.database_fault w.turn)) [
  | inl quiet ↦
      elim (Option-cases
        (find? (λ m. m.user_id == user && m.merchant_user_id == merchant) w.trusted_merchants)) [
          | inl unknown ↦ (default_cap, ground arith, ground arith)
          | inr (m, known) ↦ (
            if ltb m.per_tx_cap_kobo default_cap then m.per_tx_cap_kobo else default_cap,
            ground arith,
            ground arith,
          )
        ]
  | inr (text, fault) ↦ (default_cap, ground arith, ground arith)
]

-- Where the lookup does not fail and a trusted record of the pair is found, the cap is the smaller
-- of the record's cap and the default: a trusted merchant never raises the limit.
pub effective_cap-min :
    (user merchant default_cap : ℕ) (env : Env) (w : World) (m : TrustedMerchant)
    → env.database_fault w.turn ≡ none
    → find? (λ r. r.user_id == user && r.merchant_user_id == merchant) w.trusted_merchants ≡ some m
    → effective_cap user merchant default_cap env w
      ≡ (ok (min m.per_tx_cap_kobo default_cap), record w { turn = suc w.turn })
unfolding effective_cap get_trusted_merchant_cap query ◌>>=◌ handle pure
effective_cap-min user merchant default_cap env w m quiet known = ground arith
