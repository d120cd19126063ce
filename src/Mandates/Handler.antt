-- ===== src/Mandates/Handler.antt =====
-- internal/mandates/handler.go: the pages of mandates. SetDefault and Revoke do not look whether
-- there is a user.
use echopay.Common.{ℕ, String, Option, List, str_eq, if◌then◌else◌}
use echopay.Paystack.{InitializeResponse}
use echopay.Store.Models.{Mandate}
use echopay.World.{Error, wrapped, charge_not_successful, authorization_not_reusable, error_text}
use echopay.Action.{Action, attempt}
use echopay.Http.{Outcome, refuse, give, Context, for_user, with_id}
use echopay.Mandates.{init_mandate, verify_mandate, list_mandates, set_default, revoke}

abbrev pub verify_status : Error → ℕ
verify_status authorization_not_reusable = 400
verify_status charge_not_successful = 400
verify_status (wrapped s e) = verify_status e
verify_status _ = 502

unfoldable pub init_page : String → Context → String → Action (Outcome InitializeResponse)
init_page random c email =
    for_user c (attempt (init_mandate random c.user_id email) (λ e. refuse 502 (error_text e)) give)

unfoldable pub verify_page : Context → String → Action (Outcome Mandate)
verify_page c reference = for_user c (
    if str_eq reference ""
    then refuse 400 "reference required"
    else attempt (verify_mandate c.user_id reference) (λ e. refuse (verify_status e) (error_text e))
        give)

unfoldable pub list_page : Context → Action (Outcome (List Mandate))
list_page c = for_user c (attempt (list_mandates c.user_id) (λ e. refuse 500 (error_text e)) give)

module _ (parse_uuid : String → Option ℕ) where
  unfoldable pub set_default_page : Context → String → Action (Outcome Mandate)
  set_default_page c id =
      with_id "invalid mandate id" (parse_uuid id)
        λ mandate. attempt (set_default c.user_id mandate) (λ e. refuse 500 (error_text e)) give

  unfoldable pub revoke_page : Context → String → Action (Outcome (Unit {0}))
  revoke_page c id =
      with_id "invalid mandate id" (parse_uuid id)
        λ mandate. attempt (revoke c.user_id mandate) (λ e. refuse 500 (error_text e)) give
