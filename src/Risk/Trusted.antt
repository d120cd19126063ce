-- ===== src/Risk/Trusted.antt =====
-- internal/risk/trusted.go: the merchants that a user trusts, and the cap on payments to them. A failed
-- lookup of a cap, of any kind, leaves the default.
pub mod Cap
pub mod Upserted
use echopay.Common.{
  ℕ, String, Bool, not, Option, none, some, List, ltb, ◌==◌, str_eq, ℤ, is_positive, pos_part,
  if◌then◌else◌,
}
use echopay.Store.Models.{TrustedMerchant}
use echopay.Store.Users.{get_trusted_merchant_cap}
use echopay.Store.Trusted.{
  upsert_trusted_merchant, ListTrustedMerchantsRow, list_trusted_merchants, delete_trusted_merchant,
}
use echopay.World.{failure, self_trust}
use echopay.Action.{Action, pure, ◌>>=◌, ◌>>◌, handle, require}

-- an empty label is NULL
abbrev pub label_of : String → Option String
label_of label = if str_eq label "" then none else some label

-- `Upsert`
unfoldable pub upsert : ℕ → ℕ → ℤ → String → Action TrustedMerchant
upsert user merchant per_tx_cap_kobo label = do
  require (not (user == merchant)) self_trust
  require (is_positive per_tx_cap_kobo) (failure "cap must be > 0")
  upsert_trusted_merchant (record {
    user_id = user;
    merchant_user_id = merchant;
    per_tx_cap_kobo = pos_part per_tx_cap_kobo;
    label = label_of label;
  })

-- `List`
unfoldable pub list_trusted : ℕ → Action (List ListTrustedMerchantsRow)
list_trusted user = list_trusted_merchants user

-- `Delete`
unfoldable pub delete_trusted : ℕ → ℕ → Action (Unit {0})
delete_trusted user record_id = delete_trusted_merchant record_id user

-- `EffectiveCap`
unfoldable pub effective_cap : ℕ → ℕ → ℕ → Action ℕ
effective_cap user merchant default_cap =
    handle
      (do
        trusted ← get_trusted_merchant_cap user merchant
        pure (if ltb trusted default_cap then trusted else default_cap))
      (λ _. pure default_cap)
