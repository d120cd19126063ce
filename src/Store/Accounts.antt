-- ===== src/Store/Accounts.antt =====
-- internal/store/users.sql.go: the queries of sign-in, of the identity check and of the account page,
-- with the constraints and defaults of migration 000001.
use mathlib.Core.Option
use echopay.Common.{
  ℕ, String, Bool, not, ◌&&◌, Option, none, ◌∷◌, find?, update_where, is_some, ◌==◌, str_eq,
  if◌then◌else◌,
}
use echopay.Store.Models.{User, UserStatus}
use echopay.World.{World, ok, err, failure}
use echopay.Action.{Action, query}
use echopay.Store.Query.{found, select_one}

unfoldable pub get_user_by_phone : String → Action User
get_user_by_phone phone = select_one (λ w. w.users) (λ u. str_eq u.phone phone)

abbrev pub new_user : ℕ → ℕ → String → User
new_user t id phone = record {
  id = id;
  phone = phone;
  full_name = none;
  bvn_hash = none;
  date_of_birth = none;
  kyc_tier = 0;
  kyc_status = "pending";
  nuban = none;
  bank_code = none;
  account_name = none;
  per_tx_limit_kobo = 2_000_000;
  per_day_limit_kobo = 10_000_000;
  status = UserStatus.active;
  created_at = t;
  updated_at = t;
}

-- PRIMARY KEY, UNIQUE (phone)
abbrev pub accepts_user : ℕ → String → World → Bool
accepts_user id phone w =
    not (is_some (find? (λ u. u.id == id) w.users))
    && not (is_some (find? (λ u. str_eq u.phone phone) w.users))

unfoldable pub create_user : String → Action User
create_user phone = query λ t id w.
    if accepts_user id phone w
    then (ok (new_user t id phone), record w { users = new_user t id phone ∷ w.users })
    else (err (failure "constraint violated"), w)

-- UPDATE users SET `change`, updated_at = NOW() WHERE id = $1 RETURNING *
unfoldable pub update_user : ℕ → (User → User) → Action User
update_user id change = query λ t u w.
    let changed = λ (r : User). record (change r) { updated_at = t } in
    (
      found (Option.map changed (find? (λ r. r.id == id) w.users)),
      record w { users = update_where (λ r. r.id == id) changed w.users },
    )

unfoldable pub set_user_status : ℕ → UserStatus → Action User
set_user_status id status = update_user id (λ r. record r { status = status })

pub record UpdateUserKycParams : Type 0 where
  pub id : ℕ
  pub full_name : Option String
  pub bvn_hash : Option String
  pub date_of_birth : Option ℕ
  pub kyc_tier : ℕ
  pub kyc_status : String

unfoldable pub update_user_kyc : UpdateUserKycParams → Action User
update_user_kyc a = update_user a.id (λ r. record r {
  full_name = a.full_name;
  bvn_hash = a.bvn_hash;
  date_of_birth = a.date_of_birth;
  kyc_tier = a.kyc_tier;
  kyc_status = a.kyc_status;
})

unfoldable pub update_user_receive_account :
    ℕ → Option String → Option String → Option String → Action User
update_user_receive_account id nuban bank_code account_name =
    update_user id
      (λ r. record r { nuban = nuban; bank_code = bank_code; account_name = account_name })
