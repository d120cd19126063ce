-- ===== src/Mandates.antt =====
-- internal/mandates/service.go: the saved authorizations to debit a user. The random part of a
-- reference is an argument.
pub mod Defaults
pub mod Handler
pub mod Verified
use Prim.Native.String.{◌++◌}
use echopay.Common.{
  ℕ, String, equal_fold, Bool, true, false, Option, some, List, [], ◌∷◌, str_eq, is_empty,
  if◌then◌else◌,
}
use echopay.Paystack.{InitializeRequest, InitializeResponse, VerifyResponse}
use echopay.Store.Models.{Mandate, status_text}
use echopay.Store.Mandates.{
  create_mandate, list_user_mandates, unset_default_mandate, set_default_mandate, revoke_mandate,
}
use echopay.World.{charge_not_successful, authorization_not_reusable, initialized}
use echopay.Action.{
  Action, pure, ask, send, uuid_string, ◌>>=◌, ◌>>◌, handle, ignore, within, require, when,
}

-- ₦50.00 in kobo
abbrev pub setup_amount_kobo : ℕ
setup_amount_kobo = 5000

-- the request of InitMandate; without an email Paystack is given one made of the user's id
abbrev setup_request : String → String → String → InitializeRequest
setup_request email user random = record {
  email = if str_eq email "" then user ++ "@echo.users" else email;
  amount = setup_amount_kobo;
  reference = "MAN_" ++ random;
  channels = "bank" ∷ "card" ∷ [];
}

unfoldable pub init_mandate : String → ℕ → String → Action InitializeResponse
init_mandate random user_id email = do
  user ← uuid_string user_id
  let req = setup_request email user random
  within "initialize paystack tx"
      (send (λ env n. env.initialize_transaction n req) (initialized req))

-- a failed listing counts as an empty one
unfoldable pub has_none : ℕ → Action Bool
has_none user_id =
    handle (do existing ← list_user_mandates user_id; pure (is_empty existing)) (λ _. pure true)

unfoldable pub verify_mandate : ℕ → String → Action Mandate
verify_mandate user_id reference = do
  tx ← within "verify paystack tx" (ask (λ env n. env.verify_transaction n reference))
  require (equal_fold (status_text tx.status) "success") charge_not_successful
  require tx.authorization.reusable authorization_not_reusable
  is_default ← has_none user_id
  when is_default (ignore (unset_default_mandate user_id))
  within "save mandate" (
      create_mandate (record {
        user_id = user_id;
        authorization_code = tx.authorization.authorization_code;
        bank_name = tx.authorization.bank;
        bank_code = some tx.authorization.bin;
        last4 = tx.authorization.last4;
        channel = tx.authorization.channel;
        reusable = tx.authorization.reusable;
        is_default = is_default;
      }))

unfoldable pub list_mandates : ℕ → Action (List Mandate)
list_mandates user_id = list_user_mandates user_id

unfoldable pub set_default : ℕ → ℕ → Action Mandate
set_default user_id mandate_id = do
  within "unset default" (unset_default_mandate user_id)
  set_default_mandate mandate_id user_id

unfoldable pub revoke : ℕ → ℕ → Action (Unit {0})
revoke user_id mandate_id = revoke_mandate mandate_id user_id
