-- ===== src/Store/Trusted.antt =====
-- internal/store/trusted_merchants.sql.go: the statements of the page of trusted merchants, with the
-- constraints of migrations/.
use echopay.Common.{
  ℕ, String, Bool, not, ◌&&◌, Option, none, some, List, [], ◌∷◌, find?, select, update_where,
  is_some, sort_desc_by, ltb, ◌==◌, if◌then◌else◌,
}
use echopay.Store.Models.{User, TrustedMerchant}
use echopay.World.{World, Result, ok, err, failure}
use echopay.Action.{Action, query}

pub record UpsertTrustedMerchantParams : Type 0 where
  pub user_id : ℕ
  pub merchant_user_id : ℕ
  pub per_tx_cap_kobo : ℕ
  pub label : Option String

-- the pair that the unique index is on
abbrev pub is_pair : ℕ → ℕ → TrustedMerchant → Bool
is_pair user merchant m = m.user_id == user && m.merchant_user_id == merchant

-- CHECK (per_tx_cap_kobo > 0) and CHECK (user_id <> merchant_user_id)
abbrev pub passes_checks : UpsertTrustedMerchantParams → Bool
passes_checks a = ltb 0 a.per_tx_cap_kobo && not (a.user_id == a.merchant_user_id)

-- PRIMARY KEY and the foreign keys of the two users
abbrev pub accepts_trusted : ℕ → UpsertTrustedMerchantParams → World → Bool
accepts_trusted id a w =
    not (is_some (find? (λ m. m.id == id) w.trusted_merchants))
    && is_some (find? (λ u. u.id == a.user_id) w.users)
    && is_some (find? (λ u. u.id == a.merchant_user_id) w.users)

abbrev pub new_trusted : ℕ → ℕ → UpsertTrustedMerchantParams → TrustedMerchant
new_trusted t id a = record {
  id = id;
  user_id = a.user_id;
  merchant_user_id = a.merchant_user_id;
  per_tx_cap_kobo = a.per_tx_cap_kobo;
  label = a.label;
  created_at = t;
  updated_at = t;
}

-- DO UPDATE SET
abbrev pub renewed : ℕ → UpsertTrustedMerchantParams → TrustedMerchant → TrustedMerchant
renewed t a m = record m { per_tx_cap_kobo = a.per_tx_cap_kobo; label = a.label; updated_at = t }

-- the row of the pair is updated where there is one
abbrev pub upsert_row :
    ℕ
    → ℕ
    → UpsertTrustedMerchantParams
    → World
    → Option TrustedMerchant
    → Result TrustedMerchant × World
upsert_row t id a w (some m) = (
  ok (renewed t a m),
  record w {
    trusted_merchants =
        update_where (is_pair a.user_id a.merchant_user_id) (renewed t a) w.trusted_merchants;
  },
)
upsert_row t id a w none =
    if accepts_trusted id a w
    then (
      ok (new_trusted t id a),
      record w { trusted_merchants = new_trusted t id a ∷ w.trusted_merchants },
    )
    else (err (failure "constraint violated"), w)

unfoldable pub upsert_trusted_merchant : UpsertTrustedMerchantParams → Action TrustedMerchant
upsert_trusted_merchant a = query λ t id w.
    if passes_checks a
    then upsert_row t id a w (find? (is_pair a.user_id a.merchant_user_id) w.trusted_merchants)
    else (err (failure "constraint violated"), w)

pub record ListTrustedMerchantsRow : Type 0 where
  pub trusted : TrustedMerchant
  pub merchant_name : Option String
  pub merchant_phone : String

-- JOIN users u ON u.id = tm.merchant_user_id
unfoldable pub join_users : List User → List TrustedMerchant → List ListTrustedMerchantsRow
join_users users [] = []
join_users users (m ∷ ms) =
    let rest = join_users users ms in
    elim (find? (λ u. u.id == m.merchant_user_id) users) [
      | none ↦ rest
      | some u ↦
          record { trusted = m; merchant_name = u.full_name; merchant_phone = u.phone } ∷ rest
    ]

-- ORDER BY tm.created_at DESC
unfoldable pub list_trusted_merchants : ℕ → Action (List ListTrustedMerchantsRow)
list_trusted_merchants user = query λ t u w. (
  ok (
      join_users w.users
        (sort_desc_by (λ m. m.created_at) (select (λ m. m.user_id == user) w.trusted_merchants))),
  w,
)

-- DELETE … WHERE id = $1 AND user_id = $2
unfoldable pub delete_trusted_merchant : ℕ → ℕ → Action (Unit {0})
delete_trusted_merchant id user = query λ t u w. (
  ok tt,
  record w {
    trusted_merchants = select (λ m. not (m.id == id && m.user_id == user)) w.trusted_merchants;
  },
)
