-- ===== src/Tests/Cards.antt =====
-- Mandates and pushes: Alice saves a second mandate, makes it the default and revokes it; she is told
-- of a sign-in on her other phone.
use echopay.Common.{
  select, not, find?, ◌==◌, ◌&&◌, not, select, All, equal_fold, ℕ, ◌≡◌, ◌≢◌, refl, String, true,
  false, none, some, [], ◌∷◌, All, rev_append,
}
use mathlib.Core.List.{map}
use echopay.Store.Models.{Mandate, MandateStatus}
use echopay.Store.Models.Sessions.{PushToken, Platform}
use echopay.Store.Query.{select_many}
use echopay.Store.Mandates.{
  create_mandate, list_user_mandates, unset_default_mandate, set_default_mandate, revoke_mandate,
}
use echopay.World.{World, Env, new_device, ok}
use echopay.Action.{ask, pure, raise, query, ◌>>=◌, handle, within, require, when, ignore}
use echopay.Payments.Checks.{validated_mandate}
use echopay.Mandates.{has_none, verify_mandate, set_default, revoke}
use echopay.Mandates.Defaults.{IsDefaultOnly, set_default-IsDefaultOnly, revoke-validated_mandate}
use echopay.Mandates.Verified.{Saved, verify_mandate-Saved}
use echopay.Push.{send_to_rows, notify_new_device_login}
use echopay.Push.Delivered.{
  message, rows_of, Accepted, notify_new_device_login-pushes, send_to_rows_kept,
}
use echopay.Push.Others.{IsOther, is_other, other_devices}
use echopay.Tests.Data.{start, mandate, empty_world, sunny}

abbrev second_mandate : Mandate
second_mandate = record mandate { id = 6; authorization_code = "AUTH_z"; is_default = false }

abbrev two_mandates : World
two_mandates = record empty_world { mandates = mandate ∷ second_mandate ∷ [] }

abbrev new_default : Mandate
new_default = record second_mandate { is_default = true }

default_set :
    set_default 1 6 sunny two_mandates ≡ (ok new_default, (set_default 1 6 sunny two_mandates).1)
unfolding set_default unset_default_mandate set_default_mandate query ◌>>=◌ handle within pure raise
default_set = refl

set_default-IsDefaultOnly_example :
    (new_default.is_default ≡ true)
    × (new_default.id ≡ 6)
    × (new_default.user_id ≡ 1)
    × (find? (λ x. x.id == 6 && x.user_id == 1) (set_default 1 6 sunny two_mandates).1.mandates
        ≡ some new_default)
    × All (IsDefaultOnly 1 6) (set_default 1 6 sunny two_mandates).1.mandates
    × (select (λ x. not (x.user_id == 1)) (set_default 1 6 sunny two_mandates).1.mandates
        ≡ select (λ x. not (x.user_id == 1)) two_mandates.mandates)
set_default-IsDefaultOnly_example =
    set_default-IsDefaultOnly 1 6 sunny two_mandates (set_default 1 6 sunny two_mandates).1
      new_default default_set

abbrev after_revoke : World
after_revoke = (revoke 1 5 sunny empty_world).1

mandate_revoked : revoke 1 5 sunny empty_world ≡ (ok tt, after_revoke)
unfolding revoke revoke_mandate query
mandate_revoked = refl

revoke-validated_mandate_example : (validated_mandate 5 1 sunny after_revoke).0 ≢ ok mandate
revoke-validated_mandate_example =
    revoke-validated_mandate 1 5 sunny sunny empty_world after_revoke after_revoke mandate
      mandate_revoked refl

abbrev saved_mandate : Mandate
saved_mandate = record {
  id = 102;
  user_id = 1;
  authorization_code = "AUTH_y";
  bank_name = "Bank";
  bank_code = some "408408";
  last4 = "4081";
  channel = "card";
  reusable = true;
  status = MandateStatus.active;
  is_default = false;
  created_at = 1_000_002_000_000_000;
  revoked_at = none;
}

-- the comparison ignores the case
shouted : equal_fold "SUCCESS" "success" ≡ true
unfolding equal_fold
shouted = refl

not_shouted : equal_fold "successful" "success" ≡ false
unfolding equal_fold
not_shouted = refl

mandate_saved :
    verify_mandate 1 "MAN_1" sunny empty_world
    ≡ (ok saved_mandate, (verify_mandate 1 "MAN_1" sunny empty_world).1)
unfolding verify_mandate equal_fold has_none list_user_mandates select_many create_mandate ask query
    ◌>>=◌ handle within require when ignore pure raise
mandate_saved = refl

verify_mandate-Saved_example :
    Saved sunny 1 "MAN_1" empty_world saved_mandate (verify_mandate 1 "MAN_1" sunny empty_world).1
verify_mandate-Saved_example =
    verify_mandate-Saved 1 "MAN_1" sunny empty_world (verify_mandate 1 "MAN_1" sunny empty_world).1
      saved_mandate mandate_saved

abbrev push_row : ℕ → ℕ → String → PushToken
push_row id session fcm_token = record {
  id = id;
  user_id = 1;
  device_session_id = some session;
  fcm_token = fcm_token;
  platform = Platform.android;
  last_seen_at = start;
  created_at = start;
  revoked_at = none;
}

abbrev two_phones : World
two_phones = record empty_world {
  push_tokens = push_row 50 40 "tok_a" ∷ push_row 51 42 "tok_b" ∷ [];
}

abbrev pushing : Env
pushing = record sunny { push_enabled = true }

notify_new_device_login-pushes_example :
    ((notify_new_device_login 1 42 "Pixel" pushing two_phones).1.pushes
      ≡ rev_append
          (map (message (new_device "Pixel" 42)) (other_devices 1 42 two_phones.push_tokens))
          [])
    × All (IsOther 1 42) (select (is_other 1 42) two_phones.push_tokens)
    × All (λ p. ¬ IsOther 1 42 p) (select (λ p. not (is_other 1 42 p)) two_phones.push_tokens)
notify_new_device_login-pushes_example =
    notify_new_device_login-pushes 1 42 "Pixel" pushing two_phones refl refl

one_message :
    map (message (new_device "Pixel" 42)) (other_devices 1 42 two_phones.push_tokens)
    ≡ record { fcm_token = "tok_a"; alert = new_device "Pixel" 42 } ∷ []
one_message = refl

accepted : Accepted pushing (new_device "Pixel" 42) "tok_a"
accepted n e said = cc

two_rows_kept :
    rows_of "tok_a"
      (send_to_rows two_phones.push_tokens (new_device "Pixel" 42) pushing two_phones).1
    ≡ rows_of "tok_a" two_phones
two_rows_kept =
    send_to_rows_kept two_phones.push_tokens (new_device "Pixel" 42) "tok_a" pushing two_phones
      accepted
