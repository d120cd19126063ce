-- ===== src/Store/Mandates.antt =====
-- internal/store/mandates.sql.go, with the constraints of migration 000003.
use echopay.Common.{
  ℕ, String, Bool, true, false, not, ◌&&◌, Option, none, some, List, ◌∷◌, ◌++◌, find?, select,
  update_where, is_some, sort_desc_by, ◌==◌, str_eq, if◌then◌else◌,
}
use echopay.Store.Models.{Mandate, MandateStatus, is_active}
use echopay.World.{World, Result, ok, err, failure}
use echopay.Action.{Action, query}
use echopay.Store.Query.{found, select_one, select_many}

pub record CreateMandateParams : Type 0 where
  pub user_id : ℕ
  pub authorization_code : String
  pub bank_name : String
  pub bank_code : Option String
  pub last4 : String
  pub channel : String
  pub reusable : Bool
  pub is_default : Bool

-- user_id = $1 AND status = 'active'
abbrev pub is_mandate_of : ℕ → Mandate → Bool
is_mandate_of user m = m.user_id == user && is_active m.status

-- user_id = $1 AND is_default = TRUE AND status = 'active'
abbrev pub is_default_of : ℕ → Mandate → Bool
is_default_of user m = is_mandate_of user m && m.is_default

-- PRIMARY KEY, UNIQUE (user_id, authorization_code), the foreign key of the user, and
-- UNIQUE (user_id) WHERE is_default AND status = 'active'
abbrev pub accepts_mandate : ℕ → CreateMandateParams → World → Bool
accepts_mandate id a w =
    not (is_some (find? (λ m. m.id == id) w.mandates))
    && not (
        is_some (
          find? (λ m. m.user_id == a.user_id && str_eq m.authorization_code a.authorization_code)
            w.mandates))
    && is_some (find? (λ u. u.id == a.user_id) w.users)
    && not (a.is_default && is_some (find? (is_default_of a.user_id) w.mandates))

abbrev pub new_mandate : ℕ → ℕ → CreateMandateParams → Mandate
new_mandate t id a = record {
  id = id;
  user_id = a.user_id;
  authorization_code = a.authorization_code;
  bank_name = a.bank_name;
  bank_code = a.bank_code;
  last4 = a.last4;
  channel = a.channel;
  reusable = a.reusable;
  status = MandateStatus.active;
  is_default = a.is_default;
  created_at = t;
  revoked_at = none;
}

unfoldable pub create_mandate : CreateMandateParams → Action Mandate
create_mandate a = query λ t id w.
    if accepts_mandate id a w
    then (ok (new_mandate t id a), record w { mandates = new_mandate t id a ∷ w.mandates })
    else (err (failure "constraint violated"), w)

unfoldable pub get_default_mandate : ℕ → Action Mandate
get_default_mandate user = select_one (λ w. w.mandates) (is_default_of user)

-- ORDER BY is_default DESC, created_at DESC
unfoldable pub list_user_mandates : ℕ → Action (List Mandate)
list_user_mandates user =
    select_many (λ w. w.mandates)
      λ t rows.
        let newest_first = sort_desc_by (λ m. m.created_at) (select (is_mandate_of user) rows) in
        select (λ m. m.is_default) newest_first ++ select (λ m. not m.is_default) newest_first

abbrev pub unset : Mandate → Mandate
unset m = record m { is_default = false }

-- user_id = $1 AND is_default = TRUE, whatever the status
unfoldable pub unset_default_mandate : ℕ → Action (Unit {0})
unset_default_mandate user = query λ t u w. (
  ok tt,
  record w { mandates = update_where (λ m. m.user_id == user && m.is_default) unset w.mandates },
)

-- id = $1 AND user_id = $2
abbrev pub is_own_mandate : ℕ → ℕ → Mandate → Bool
is_own_mandate id user m = m.id == id && m.user_id == user

abbrev pub as_default : Mandate → Mandate
as_default m = record m { is_default = true }

-- the partial UNIQUE index refuses a second active default of the user
abbrev pub clashes : ℕ → ℕ → Mandate → World → Bool
clashes id user m w =
    is_active m.status
    && is_some (find? (λ other. is_default_of user other && not (other.id == id)) w.mandates)

-- the row of the statement, if there is one
abbrev pub set_default_row : ℕ → ℕ → World → Option Mandate → Result Mandate × World
set_default_row id user w none = (found none, w)
set_default_row id user w (some m) =
    if clashes id user m w then (err (failure "constraint violated"), w) else (
      ok (as_default m),
      record w { mandates = update_where (is_own_mandate id user) as_default w.mandates },
    )

-- whatever the status
unfoldable pub set_default_mandate : ℕ → ℕ → Action Mandate
set_default_mandate id user =
    query λ t u w. set_default_row id user w (find? (is_own_mandate id user) w.mandates)

unfoldable pub revoke_mandate : ℕ → ℕ → Action (Unit {0})
revoke_mandate id user = query λ t u w. (
  ok tt,
  record w {
    mandates =
        update_where (is_own_mandate id user)
          (λ m. record m {
            status = MandateStatus.revoked;
            revoked_at = some t;
            is_default = false;
          })
          w.mandates;
  },
)
