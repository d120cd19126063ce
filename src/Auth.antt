-- ===== src/Auth.antt =====
-- internal/auth/otp.go and internal/auth/service.go: one-time passwords and sign-in.
pub mod Jwt
pub mod Guards
pub mod Same
pub mod Checked
pub mod SignedIn
pub mod Handler
pub mod Newest
pub mod Requested
use echopay.Common.{
  ℕ, ◌+◌, ◌*◌, ◌%◌, String, Bool, true, false, not, ◌&&◌, ◌||◌, Option, none, some, List, [], ◌∷◌,
  Bytes, padded, leb, ltb, ◌==◌, str_eq, if◌then◌else◌,
}
use echopay.Store.Models.{User, Meta, number, text, flag}
use echopay.Store.Models.Sessions.{OtpRequest, DeviceSession}
use echopay.Store.Otp.{
  create_otp_request, expire_previous_otps, get_latest_otp_request, increment_otp_attempts,
  mark_otp_verified,
}
use echopay.Store.Users.{get_user_by_id}
use echopay.Store.Accounts.{get_user_by_phone, create_user}
use echopay.Store.Devices.{create_device_session}
use echopay.World.{
  Env, Error, otp_not_found, otp_expired, otp_max_attempts, otp_invalid, wrapped, is_no_rows,
  Result,
}
use echopay.Action.{
  Action, pure, raise, ask, now, uuid_string, ◌>>=◌, ◌>>◌, handle, within, rows_or, require, when,
}
use echopay.Audit.{record_event}
use echopay.Push.{notify_new_device_login}
use echopay.Auth.Jwt.{configured, issue, same_bytes}

-- binary.BigEndian.Uint32
abbrev pub big_endian : ℕ × ℕ × ℕ × ℕ → ℕ
big_endian (a, b, c, d) = ((a * 256 + b) * 256 + c) * 256 + d

-- GenerateOTP
unfoldable pub generate_otp : Action Bytes
generate_otp = do b ← ask (λ env n. env.random_bytes n); pure (padded 6 (big_endian b % 1_000_000))

-- 5 minutes, in nanoseconds
abbrev pub otp_ttl : ℕ
otp_ttl = 300_000_000_000

pub record OtpResult : Type 0 where
  pub code : Bytes
  pub expires_at : ℕ

-- an empty purpose is a sign-in
abbrev pub purpose_of : String → String
purpose_of purpose = if str_eq purpose "" then "signin" else purpose

-- RequestOTP
unfoldable pub request_otp : String → String → Action OtpResult
request_otp phone purpose = do
  within "expire previous otps" (expire_previous_otps phone (purpose_of purpose))
  code ← within "generate otp" generate_otp
  hash ← within "hash otp" (ask (λ env n. env.hash_password n code))
  t ← now
  within "create otp" (
      create_otp_request (record {
        phone = phone;
        code_hash = hash;
        purpose = purpose_of purpose;
        expires_at = t + otp_ttl;
      }))
  pure (record { code = code; expires_at = t + otp_ttl })

pub record DeviceInfo : Type 0 where
  pub fingerprint : String
  pub model : String
  pub os_name : String
  pub os_version : String
  pub app_version : String

pub record VerifyResult : Type 0 where
  pub token : Bytes
  pub user : User
  pub is_new : Bool
  pub session : DeviceSession

-- magicOTPCode
abbrev pub magic_otp_code : Bytes
magic_otp_code = b'0' ∷ b'0' ∷ b'0' ∷ b'0' ∷ b'0' ∷ b'0' ∷ []

-- isMagicOTPPhone
abbrev pub is_magic_otp_phone : String → Bool
is_magic_otp_phone phone =
    str_eq phone "+2348012345678"
    || str_eq phone "+2348022222222"
    || str_eq phone "+2348033333333"
    || str_eq phone "+2348044444444"

-- the code is the magic one of a test phone, or fits the hash
abbrev pub is_code : Env → String → OtpRequest → Bytes → Bool
is_code env phone req code =
    (env.dev_mode && same_bytes code magic_otp_code && is_magic_otp_phone phone)
    || env.password_matches req.code_hash code

-- upsertUser, once the lookup has failed
abbrev pub created_user : String → Error → Action (User × Bool)
created_user phone e =
    if is_no_rows e
    then (do user ← within "create user" (create_user phone); pure (user, true))
    else raise (wrapped "get user by phone" e)

-- upsertUser
unfoldable pub upsert_user : String → Action (User × Bool)
upsert_user phone =
    handle (do user ← get_user_by_phone phone; pure (user, false)) (created_user phone)

-- nilIfEmpty
abbrev pub nil_if_empty : String → Option String
nil_if_empty s = if str_eq s "" then none else some s

-- VerifyOTP as far as the guards on the code: the request is found, and is marked verified
unfoldable pub check_otp : String → String → Bytes → Action OtpRequest
check_otp phone purpose code = do
  req ← rows_or otp_not_found "get otp" (get_latest_otp_request phone (purpose_of purpose))
  t ← now
  require (not (ltb req.expires_at t)) otp_expired
  require (ltb req.attempts req.max_attempts) otp_max_attempts
  within "increment attempts" (increment_otp_attempts req.id)
  env ← configured
  require (is_code env phone req code) otp_invalid
  within "mark otp verified" (mark_otp_verified req.id)
  pure req

-- the end of VerifyOTP: the push to the other devices, the audit event and the result
unfoldable pub announced : DeviceInfo → User → Bool → Bytes → DeviceSession → Action VerifyResult
announced device user is_new token session = do
  when (not is_new) (
      notify_new_device_login user.id session.id
        (if str_eq device.model "" then "an unknown device" else device.model))
  target ← uuid_string session.id
  record_event (record {
    user_id = user.id;
    actor_id = user.id;
    action = "auth.signin";
    target_typ = "device_session";
    target_id = target;
    metadata =
        ("is_new_user", flag is_new)
        ∷ ("device", text device.model)
        ∷ ("os", text device.os_name)
        ∷ [];
  })
  pure (record { token = token; user = user; is_new = is_new; session = session })

-- the rest of VerifyOTP: the user, the token and the session
unfoldable pub sign_in : String → DeviceInfo → Action VerifyResult
sign_in phone device = do
  (user, is_new) ← upsert_user phone
  (token, jti) ← within "issue jwt" (issue user.id user.phone)
  session ← within "create device session" (
      create_device_session (record {
        user_id = user.id;
        jti = jti;
        fingerprint = nil_if_empty device.fingerprint;
        model = nil_if_empty device.model;
        os_name = nil_if_empty device.os_name;
        os_version = nil_if_empty device.os_version;
        app_version = nil_if_empty device.app_version;
      }))
  announced device user is_new token session

-- VerifyOTP
unfoldable pub verify_otp : String → String → Bytes → DeviceInfo → Action VerifyResult
verify_otp phone purpose code device = do check_otp phone purpose code; sign_in phone device

-- CurrentUser
unfoldable pub current_user : ℕ → Action User
current_user user_id = get_user_by_id user_id
