-- ===== src/Store/Otp.antt =====
-- internal/store/otp.sql.go, with the defaults of migration 000002.
use echopay.Common.{
  ℕ, ◌+◌, ◌-◌, String, Bool, not, ◌&&◌, none, some, ◌∷◌, find?, select, update_where, latest,
  is_some, ltb, ◌==◌, str_eq, if◌then◌else◌,
}
use echopay.Store.Models.Sessions.{OtpRequest}
use echopay.World.{World, ok, err, failure}
use echopay.Action.{Action, query}
use echopay.Store.Query.{found}

-- nanoseconds
abbrev pub second : ℕ
second = 1_000_000_000

pub record CreateOtpRequestParams : Type 0 where
  pub phone : String
  pub code_hash : String
  pub purpose : String
  pub expires_at : ℕ

-- the columns that the statement leaves out have the defaults of the table
abbrev pub new_otp_request : ℕ → ℕ → CreateOtpRequestParams → OtpRequest
new_otp_request t id a = record {
  id = id;
  phone = a.phone;
  code_hash = a.code_hash;
  purpose = a.purpose;
  attempts = 0;
  max_attempts = 5;
  expires_at = a.expires_at;
  verified_at = none;
  created_at = t;
}

-- PRIMARY KEY
unfoldable pub create_otp_request : CreateOtpRequestParams → Action OtpRequest
create_otp_request a = query λ t id w.
    if is_some (find? (λ r. r.id == id) w.otp_requests)
    then (err (failure "constraint violated"), w)
    else (
      ok (new_otp_request t id a),
      record w { otp_requests = new_otp_request t id a ∷ w.otp_requests },
    )

-- phone = $1 AND purpose = $2 AND verified_at IS NULL
abbrev pub is_open_for : String → String → OtpRequest → Bool
is_open_for phone purpose r =
    str_eq r.phone phone && str_eq r.purpose purpose && not (is_some r.verified_at)

unfoldable pub expire_previous_otps : String → String → Action (Unit {0})
expire_previous_otps phone purpose = query λ t u w. (
  ok tt,
  record w {
    otp_requests =
        update_where (λ r. is_open_for phone purpose r && ltb t r.expires_at)
          (λ r. record r { expires_at = t - second }) w.otp_requests;
  },
)

-- ORDER BY created_at DESC LIMIT 1
unfoldable pub get_latest_otp_request : String → String → Action OtpRequest
get_latest_otp_request phone purpose = query λ t u w.
    (found (latest (λ r. r.created_at) (select (is_open_for phone purpose) w.otp_requests)), w)

-- UPDATE otp_requests SET `change` WHERE id = $1
abbrev pub with_request : ℕ → (OtpRequest → OtpRequest) → World → World
with_request id change w = record w {
  otp_requests = update_where (λ r. r.id == id) change w.otp_requests;
}

-- a SMALLINT: the count of attempts does not go past 32767
abbrev pub more_attempts : OtpRequest → OtpRequest
more_attempts r = record r { attempts = r.attempts + 1 }

unfoldable pub increment_otp_attempts : ℕ → Action OtpRequest
increment_otp_attempts id = query λ t u w. elim (find? (λ r. r.id == id) w.otp_requests) [
  | none ↦ (found none, w)
  | some r ↦
      if ltb r.attempts 32767
      then (ok (more_attempts r), with_request id more_attempts w)
      else (err (failure "smallint out of range"), w)
]

unfoldable pub mark_otp_verified : ℕ → Action (Unit {0})
mark_otp_verified id =
    query λ t u w. (ok tt, with_request id (λ r. record r { verified_at = some t }) w)
