-- ===== src/Auth/Handler.antt =====
-- internal/auth/handler.go: the page that a one-time password is sent to.
use echopay.Common.{String, ◌||◌, Option, none, some, Bytes, is_empty, str_eq, if◌then◌else◌}
use echopay.World.{
  Error, wrapped, otp_not_found, otp_expired, otp_max_attempts, otp_invalid, error_text,
}
use echopay.Action.{Action, attempt}
use echopay.Http.{Outcome, refuse, give}
use echopay.Auth.{DeviceInfo, VerifyResult, verify_otp}

-- `device`, where the body has none
abbrev pub device_of : Option DeviceInfo → DeviceInfo
device_of (some device) = device
device_of none = record {
  fingerprint = "";
  model = "";
  os_name = "";
  os_version = "";
  app_version = "";
}

-- the status and the message of an error
abbrev pub verify_refused : Error → Error → Action (Outcome VerifyResult)
verify_refused e otp_not_found = refuse 410 (error_text e)
verify_refused e otp_expired = refuse 410 (error_text e)
verify_refused e otp_max_attempts = refuse 429 (error_text e)
verify_refused e otp_invalid = refuse 401 (error_text e)
verify_refused e (wrapped s inner) = verify_refused e inner
verify_refused e _ = refuse 500 "could not verify otp"

unfoldable pub verify_page :
    String → String → Bytes → Option DeviceInfo → Action (Outcome VerifyResult)
verify_page phone purpose code device =
    if str_eq phone "" || is_empty code
    then refuse 400 "phone and code required"
    else attempt (verify_otp phone purpose code (device_of device)) (λ e. verify_refused e e) give
