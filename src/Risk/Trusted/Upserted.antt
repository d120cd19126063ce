-- ===== src/Risk/Trusted/Upserted.antt =====
-- What an upsert of a trusted merchant does to the cap of later payments.
use Prim.Native.Nat.{min}
use echopay.Common.{
  ℕ, suc, String, true, not, none, some, List, [], ◌∷◌, ◌≡◌, ◌≢◌, sym, subst, find?, update_where,
  ◌==◌, ℤ, pos_part, is_positive, arith, inl, inr, Option-cases, Bool-cases,
}
use echopay.Store.Models.{TrustedMerchant}
use echopay.Store.Trusted.{
  UpsertTrustedMerchantParams, is_pair, passes_checks, accepts_trusted, renewed, upsert_row,
  upsert_trusted_merchant,
}
use echopay.World.{Env, World, ok}
use echopay.Action.Ends.{require_then, query-ends}
use echopay.Risk.Trusted.{upsert, effective_cap}
use echopay.Risk.Trusted.Cap.{effective_cap-min}

-- a row of the pair that an upsert has written is what the pair's lookup finds
renewed_found :
    (user merchant t : ℕ) (a : UpsertTrustedMerchantParams) (rows : List TrustedMerchant)
    (m : TrustedMerchant)
    → find? (is_pair user merchant) rows ≡ some m
    → find? (is_pair user merchant) (update_where (is_pair user merchant) (renewed t a) rows)
      ≡ some (renewed t a m)
renewed_found user merchant t a [] m h = cc
renewed_found user merchant t a (x ∷ rows) m h = elim (Bool-cases (is_pair user merchant x)) [
  | inl this ↦ ground arith
  | inr other ↦ ground (arith, renewed_found user merchant t a rows m)
]

-- Once a row was upserted, the lookup of its pair finds it.
upsert_row-found :
    (t id : ℕ) (a : UpsertTrustedMerchantParams) (w w' : World) (m : TrustedMerchant)
    → upsert_row t id a w (find? (is_pair a.user_id a.merchant_user_id) w.trusted_merchants)
      ≡ (ok m, w')
    → (find? (is_pair a.user_id a.merchant_user_id) w'.trusted_merchants ≡ some m)
      × (m.per_tx_cap_kobo ≡ a.per_tx_cap_kobo)
upsert_row-found t id a w w' m done =
    elim (Option-cases (find? (is_pair a.user_id a.merchant_user_id) w.trusted_merchants)) [
      | inr (x, known) ↦
          ground (arith, renewed_found a.user_id a.merchant_user_id t a w.trusted_merchants x known)
      | inl missing ↦ elim (Bool-cases (accepts_trusted id a w)) [
        | inl fits ↦ ground arith
        | inr clash ↦ ground arith
      ]
    ]

-- Once the statement has returned a row, the lookup of its pair finds it.
upsert-found :
    (a : UpsertTrustedMerchantParams) (env : Env) (w w' : World) (m : TrustedMerchant)
    → upsert_trusted_merchant a env w ≡ (ok m, w')
    → (find? (is_pair a.user_id a.merchant_user_id) w'.trusted_merchants ≡ some m)
      × (m.per_tx_cap_kobo ≡ a.per_tx_cap_kobo)
unfolding upsert_trusted_merchant
upsert-found a env w w' m done =
    let ran = query-ends _ env w w' m done in
    elim (Bool-cases (passes_checks a)) [
      | inl checked ↦
          upsert_row-found (env.time w.turn) (env.random_uuid w.turn) a
            (record w { turn = suc w.turn }) w' m (rw checked at ran)
      | inr failed ↦ ground arith
    ]

-- After an Upsert that returned, and while the table of trusted merchants stays as it was, the cap
-- on a payment of the user to the merchant is the smaller of the cap that was asked for, which is
-- positive, and the default, where the lookup does not fail.
pub upsert-effective_cap :
    (user merchant default_cap : ℕ) (asked : ℤ) (label : String) (env env' : Env) (w w' v : World)
    (m : TrustedMerchant)
    → upsert user merchant asked label env w ≡ (ok m, w')
    → v.trusted_merchants ≡ w'.trusted_merchants
    → env'.database_fault v.turn ≡ none
    → (user ≢ merchant)
      × (is_positive asked ≡ true)
      × (effective_cap user merchant default_cap env' v
          ≡ (ok (min (pos_part asked) default_cap), record v { turn = suc v.turn }))
unfolding upsert
upsert-effective_cap user merchant default_cap asked label env env' w w' v m done same quiet =
    let (others, d1) = require_then (not (user == merchant)) _ _ env w w' m done in
    let (positive, d2) = require_then (is_positive asked) _ _ env w w' m d1 in
    let (known, capped) = upsert-found _ env w w' m d2 in
    let cap_found =
      effective_cap-min user merchant default_cap env' v m quiet
        (subst (λ ms. find? (is_pair user merchant) ms ≡ some m) (sym same) known) in
    (
      (λ e. ground (arith, e)),
      positive,
      subst
          (λ c.
            effective_cap user merchant default_cap env' v
            ≡ (ok (min c default_cap), record v { turn = suc v.turn }))
          capped cap_found,
    )
