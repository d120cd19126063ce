-- ===== src/Tests/Data.antt =====
-- A small database and an environment in which Paystack accepts everything and the database does
-- not fail; the clock advances by a second with each turn.
use echopay.Common.{
  Bytes, Option, ap, ◌≡◌, refl, ◌-◌, arith, ℕ, ◌+◌, ◌*◌, true, false, none, some, [], ◌∷◌, pos,
}
use echopay.Store.Models.{
  User, Mandate, Token, Payment, PaymentStatus, TokenStatus, MandateStatus, PaystackStatus,
  UserStatus, TrustedMerchant,
}
use echopay.Paystack.{Authorization}
use echopay.Codec.{Claims, Codec, IsCodec, has_dot}
use echopay.Auth.Jwt.{same_bytes}
use echopay.World.{World, Env, ok}
use echopay.Payments.Types.{CreateRequest, UndoRequest}

abbrev pub alice : User
alice = record {
  id = 1;
  phone = "+2348011111111";
  full_name = some "Alice";
  bvn_hash = none;
  date_of_birth = none;
  kyc_tier = 0;
  kyc_status = "pending";
  nuban = some "0123456789";
  bank_code = some "058";
  account_name = some "ALICE A";
  per_tx_limit_kobo = 100_000;
  per_day_limit_kobo = 500_000;
  status = UserStatus.active;
  created_at = 1;
  updated_at = 1;
}

abbrev pub bob : User
bob = record {
  id = 2;
  phone = "+2348022222222";
  full_name = none;
  bvn_hash = none;
  date_of_birth = none;
  kyc_tier = 0;
  kyc_status = "pending";
  nuban = some "9876543210";
  bank_code = some "044";
  account_name = none;
  per_tx_limit_kobo = 100_000;
  per_day_limit_kobo = 500_000;
  status = UserStatus.active;
  created_at = 1;
  updated_at = 1;
}

abbrev pub mandate : Mandate
mandate = record {
  id = 5;
  user_id = 1;
  authorization_code = "AUTH_x";
  bank_name = "Bank";
  bank_code = some "058";
  last4 = "1234";
  channel = "card";
  reusable = true;
  status = MandateStatus.active;
  is_default = true;
  created_at = 1;
  revoked_at = none;
}

abbrev pub authorization : Authorization
authorization = record {
  authorization_code = "AUTH_y";
  bin = "408408";
  last4 = "4081";
  bank = "Bank";
  channel = "card";
  reusable = true;
}

abbrev pub token : Token
token = record {
  id = 7;
  code = "ABC";
  issued_by_user_id = 2;
  amount_kobo = 50_000;
  note = none;
  status = TokenStatus.created;
  claimed_by_user_id = none;
  claimed_at = none;
  expires_at = 9_000_000_000_000_000;
  settled_payment_id = none;
  created_at = 1;
  updated_at = 1;
}

abbrev pub trusted : TrustedMerchant
trusted = record {
  id = 8;
  user_id = 1;
  merchant_user_id = 2;
  per_tx_cap_kobo = 60_000;
  label = none;
  created_at = 1;
  updated_at = 1;
}

-- the hour at which the clock starts, far enough from 0 for a day to have passed
abbrev pub start : ℕ
start = 1_000_000_000_000_000

-- a payment of Alice to Bob that is held until an hour after the start
abbrev pub held_payment : Payment
held_payment = record {
  id = 10;
  token_id = some 7;
  sender_user_id = 1;
  receiver_user_id = 2;
  sender_mandate_id = 5;
  amount_kobo = 50_000;
  idempotency_key = "key-10";
  charge_reference = some "CHG_10";
  charge_status = some PaystackStatus.success;
  transfer_reference = some "TXF_10";
  transfer_status = none;
  status = PaymentStatus.held;
  failure_reason = none;
  created_at = start;
  updated_at = start;
  settled_at = none;
  refunds_payment_id = none;
  auto_refund_reference = none;
  hold_expires_at = some (start + 3_600_000_000_000);
}

abbrev pub settled_payment : Payment
settled_payment = record held_payment { status = PaymentStatus.settled }

abbrev pub empty_world : World
empty_world = record {
  turn = 0;
  users = alice ∷ bob ∷ [];
  mandates = mandate ∷ [];
  tokens = token ∷ [];
  payments = [];
  ledger_entries = [];
  trusted_merchants = trusted ∷ [];
  pending_limits = [];
  audit_events = [];
  hold_timers = [];
  exchanges = [];
  otp_requests = [];
  device_sessions = [];
  push_tokens = [];
  pushes = [];
}

abbrev pub held_world : World
held_world = record empty_world { payments = held_payment ∷ [] }

abbrev pub settled_world : World
settled_world = record empty_world { payments = settled_payment ∷ [] }

abbrev plus_47 : Bytes → Bytes
plus_47 [] = []
plus_47 (c ∷ cs) = (c + 47) ∷ plus_47 cs

abbrev minus_47 : Bytes → Bytes
minus_47 [] = []
minus_47 (c ∷ cs) = (c - 47) ∷ minus_47 cs

abbrev read_claims : Bytes → Option Claims
read_claims (a ∷ b ∷ c ∷ d ∷ []) =
    some (record { user_id = a; phone = "+2348011111111"; jti = b; issued_at = c; expires_at = d })
read_claims _ = none

-- every byte is shifted past the dot, and the claims are written without the phone, which is Alice's
abbrev pub codec : Codec
codec = record {
  sign = λ b. 1 ∷ b;
  encode = plus_47;
  decode = λ b. some (minus_47 b);
  header_json = [];
  claims_json = λ x. x.user_id ∷ x.jti ∷ x.issued_at ∷ x.expires_at ∷ [];
  unmarshal_claims = read_claims;
}

minus_plus : (b : Bytes) → minus_47 (plus_47 b) ≡ b
minus_plus [] = refl
minus_plus (c ∷ cs) = ground (arith, minus_plus cs)

plus_no_dot : (b : Bytes) → has_dot (plus_47 b) ≡ false
plus_no_dot [] = refl
plus_no_dot (c ∷ cs) = ground (arith, plus_no_dot cs)

pub codec-IsCodec : IsCodec codec
codec-IsCodec = record { decode-encode = λ b. ap some (minus_plus b); no_dot = plus_no_dot }

-- the code that the environment draws
abbrev pub one_two_three_four : Bytes
one_two_three_four = b'0' ∷ b'0' ∷ b'1' ∷ b'2' ∷ b'3' ∷ b'4' ∷ []

abbrev pub sunny : Env
sunny = record {
  time = λ n. start + n * 1_000_000_000;
  database_fault = λ n. none;
  random_uuid = λ n. 100 + n;
  uuid_text = λ id. "id";
  charge_authorization = λ n req.
      ok (record {
        reference = req.reference;
        status = PaystackStatus.success;
        gateway_resp = "ok";
      });
  create_recipient = λ n req. ok (record { recipient_code = "RCP_x" });
  initiate_transfer =
      λ n req. ok (record { reference = req.reference; status = PaystackStatus.success });
  verify_transfer = λ n r. ok (record { reference = r; status = PaystackStatus.success });
  verify_transaction = λ n r. ok (record {
    reference = r;
    status = PaystackStatus.success;
    gateway_resp = "ok";
    authorization = authorization;
  });
  refund_charge = λ n req. ok (record { reference = "RFD_x" });
  initialize_transaction =
      λ n req. ok (record { authorization_url = "https://pay"; reference = req.reference });
  resolve_account =
      λ n number bank. ok (record { account_number = number; account_name = "ALICE A" });
  push_enabled = false;
  send_push = λ n m. none;
  dev_mode = false;
  random_bytes = λ n. ok (0, 0, 4, 210);
  hash_password = λ n s. ok "hash";
  password_matches = λ hash code. same_bytes code one_two_three_four;
  codec = codec;
  jwt_ttl = 3_600_000_000_000;
}

-- Paystack declines every charge
abbrev pub declining : Env
declining = record sunny {
  charge_authorization = λ n req. ok (record {
    reference = req.reference;
    status = PaystackStatus.failed;
    gateway_resp = "no funds";
  });
}

abbrev pub pay_now : CreateRequest
pay_now = record {
  sender_user_id = 1;
  token_code = "ABC";
  mandate_id = 5;
  idempotency_key = "key-1";
  undo_window = pos 0;
}

-- the undo window of the server: a minute
abbrev pub pay_held : CreateRequest
pay_held = record pay_now { undo_window = pos 60_000_000_000 }

abbrev pub take_back : UndoRequest
take_back = record { payment_id = 10; caller_id = 1 }

-- a caller who is not the sender
abbrev pub foreign_undo : UndoRequest
foreign_undo = record { payment_id = 10; caller_id = 2 }
