-- ===== src/Tests/Access.antt =====
-- Alice signs in with a one-time password.
use echopay.Common.{
  ℕ, ◌+◌, ◌≡◌, ◌≢◌, refl, true, false, none, some, [], ◌∷◌, leb, if◌then◌else◌, arith, length,
  all_digits, read_digits, decimal, padded, ◌%◌,
}
use echopay.Codec.{Claims}
use echopay.Store.Models.Sessions.{OtpRequest, DeviceSession}
use echopay.Store.Otp.{
  get_latest_otp_request, increment_otp_attempts, mark_otp_verified, with_request, more_attempts,
}
use echopay.Store.Query.{select_one}
use echopay.Store.Accounts.{get_user_by_phone}
use echopay.Store.Devices.{create_device_session}
use echopay.Store.Records.{insert_audit_event}
use echopay.World.{World, ok, err, failure, otp_max_attempts, otp_invalid}
use echopay.Action.{
  ask, now, query, uuid_string, pure, raise, ◌>>=◌, handle, within, rows_or, require, when, ignore,
}
use echopay.Audit.{record_event}
use echopay.Push.{notify_new_device_login, is_enabled}
use echopay.Auth.{
  big_endian, generate_otp, DeviceInfo, VerifyResult, check_otp, upsert_user, announced, sign_in,
  verify_otp,
}
use echopay.Auth.Jwt.{new_uuid, configured, issue, parse, unix, write_token}
use echopay.Auth.Jwt.Read.{parse-write_token}
use echopay.Auth.Guards.{generate_otp_bounds, verify_otp-refused, verify_otp-wrong_code}
use echopay.Auth.Checked.{Checked, check_otp-once}
use echopay.Auth.SignedIn.{SignedIn, verify_otp-SignedIn}
use echopay.Tests.Data.{alice, start, empty_world, sunny, codec-IsCodec, one_two_three_four}

abbrev otp : OtpRequest
otp = record {
  id = 30;
  phone = "+2348011111111";
  code_hash = "hash";
  purpose = "signin";
  attempts = 4;
  max_attempts = 5;
  expires_at = start + 60_000_000_000;
  verified_at = none;
  created_at = start;
}

abbrev older_otp : OtpRequest
older_otp = record otp { id = 29; created_at = 5 }

abbrev otp_world : World
otp_world = record empty_world { otp_requests = otp ∷ older_otp ∷ [] }

abbrev tired_otp : OtpRequest
tired_otp = record otp { attempts = 5 }

abbrev tired_world : World
tired_world = record empty_world { otp_requests = tired_otp ∷ [] }

abbrev phone : DeviceInfo
phone = record {
  fingerprint = "f";
  model = "Pixel";
  os_name = "Android";
  os_version = "15";
  app_version = "1";
}

generate_test : (generate_otp sunny empty_world).0 ≡ ok one_two_three_four
unfolding generate_otp ask ◌>>=◌ pure padded decimal
generate_test = refl

code_drawn :
    (length one_two_three_four ≡ 6)
    × (all_digits one_two_three_four ≡ true)
    × (b : ℕ × ℕ × ℕ × ℕ) × (sunny.random_bytes 0 ≡ ok b)
    × (read_digits 0 one_two_three_four ≡ big_endian b % 1_000_000)
code_drawn = generate_otp_bounds sunny empty_world one_two_three_four generate_test

verify_otp-refused_example :
    (n : ℕ) × (verify_otp "+2348011111111" "" one_two_three_four phone sunny tired_world
      ≡ (err otp_max_attempts, record tired_world { turn = n }))
verify_otp-refused_example =
    verify_otp-refused "+2348011111111" "" one_two_three_four phone sunny tired_world tired_otp
      otp_max_attempts refl refl refl

verify_otp-wrong_code_example :
    (n : ℕ) × (verify_otp "+2348011111111" "" [] phone sunny otp_world
      ≡ (err otp_invalid, record (with_request 30 more_attempts otp_world) { turn = n }))
verify_otp-wrong_code_example =
    verify_otp-wrong_code "+2348011111111" "" [] phone sunny otp_world otp refl refl refl refl
      (omega arith) refl refl

check_goes_through :
    check_otp "+2348011111111" "" one_two_three_four sunny otp_world
    ≡ (ok otp, (check_otp "+2348011111111" "" one_two_three_four sunny otp_world).1)
unfolding check_otp get_latest_otp_request increment_otp_attempts mark_otp_verified query now ◌>>=◌
    handle rows_or within require configured pure raise
check_goes_through = refl

abbrev after_check : World
after_check = (check_otp "+2348011111111" "" one_two_three_four sunny otp_world).1

second_check :
    check_otp "+2348011111111" "" one_two_three_four sunny (record after_check { turn = 0 }) ≡ (
      ok older_otp,
      (check_otp "+2348011111111" "" one_two_three_four sunny (record after_check { turn = 0 })).1,
    )
unfolding check_otp get_latest_otp_request increment_otp_attempts mark_otp_verified query now ◌>>=◌
    handle rows_or within require configured pure raise
second_check = refl

check_otp-once_example : older_otp.id ≢ otp.id
check_otp-once_example =
    check_otp-once "+2348011111111" "" "+2348011111111" "" one_two_three_four one_two_three_four
      sunny sunny otp_world after_check (record after_check { turn = 0 })
      (check_otp "+2348011111111" "" one_two_three_four sunny (record after_check { turn = 0 })).1
      otp older_otp check_goes_through refl second_check

abbrev new_session_row : DeviceSession
new_session_row = record {
  id = 107;
  user_id = 1;
  jti = 105;
  fingerprint = some "f";
  model = some "Pixel";
  os_name = some "Android";
  os_version = some "15";
  app_version = some "1";
  last_seen_at = start + 7_000_000_000;
  created_at = start + 7_000_000_000;
  revoked_at = none;
}

abbrev claims : Claims
claims = record {
  user_id = 1;
  phone = "+2348011111111";
  jti = 105;
  issued_at = 1_000_006;
  expires_at = 1_003_606;
}

abbrev signed_in : VerifyResult
signed_in = record {
  token = write_token sunny.codec claims;
  user = alice;
  is_new = false;
  session = new_session_row;
}

sign_in_goes_through :
    verify_otp "+2348011111111" "" one_two_three_four phone sunny otp_world
    ≡ (ok signed_in, (verify_otp "+2348011111111" "" one_two_three_four phone sunny otp_world).1)
unfolding verify_otp check_otp sign_in announced upsert_user get_user_by_phone select_one issue
    new_uuid write_token create_device_session notify_new_device_login is_enabled when record_event
    insert_audit_event uuid_string ignore get_latest_otp_request increment_otp_attempts
    mark_otp_verified query now ◌>>=◌ handle rows_or within require configured pure raise
sign_in_goes_through = refl

verify_otp-SignedIn_example :
    (r : OtpRequest) × (w1 : World) × Checked sunny "+2348011111111" "" one_two_three_four otp_world
      r w1
    × SignedIn sunny "+2348011111111" otp_world signed_in
        (verify_otp "+2348011111111" "" one_two_three_four phone sunny otp_world).1
verify_otp-SignedIn_example =
    verify_otp-SignedIn "+2348011111111" "" one_two_three_four phone sunny otp_world
      (verify_otp "+2348011111111" "" one_two_three_four phone sunny otp_world).1 signed_in
      sign_in_goes_through

parse-write_token_example :
    (parse (write_token sunny.codec claims) sunny empty_world).0
    ≡ (if leb 1_003_606 (unix start) then err (failure "token expired") else ok claims)
parse-write_token_example = parse-write_token claims sunny empty_world codec-IsCodec refl
