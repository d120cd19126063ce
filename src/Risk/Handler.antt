-- ===== src/Risk/Handler.antt =====
-- internal/risk/handler.go: the pages of pending limits and of trusted merchants.
use mathlib.Core.List.{map}
use echopay.Common.{ℕ, String, Option, List, Bytes, ℤ, is_positive, if◌then◌else◌}
use echopay.Store.Models.{TrustedMerchant, PendingLimitChange}
use echopay.Store.Trusted.{ListTrustedMerchantsRow}
use echopay.World.{Error, wrapped, self_trust, error_text}
use echopay.Action.{Action, attempt}
use echopay.Http.{Outcome, refuse, give, Context, for_user, with_id}
use echopay.Risk.Limits.{pending_change, cancel_pending}
use echopay.Risk.Trusted.{upsert, list_trusted, delete_trusted}
use echopay.Tokens.Handler.{mask_phone}

-- without a pending change, an answer of no content
unfoldable pub pending_page : Context → Action (Outcome (Option PendingLimitChange))
pending_page c =
    for_user c (attempt (pending_change c.user_id) (λ e. refuse 500 (error_text e)) give)

unfoldable pub cancel_page : Context → Action (Outcome (Unit {0}))
cancel_page c =
    for_user c (attempt (cancel_pending c.user_id) (λ e. refuse 500 (error_text e)) give)

pub record UpsertTrustedBody : Type 0 where
  pub merchant_user_id : String
  pub per_tx_cap_kobo : ℤ
  pub label : String

abbrev pub upsert_status : Error → ℕ
upsert_status self_trust = 400
upsert_status (wrapped s e) = upsert_status e
upsert_status _ = 500

-- a trusted merchant as it is listed, with a masked phone
pub record TrustedView : Type 0 where
  pub row : ListTrustedMerchantsRow
  pub masked : Bytes

module _ (parse_uuid : String → Option ℕ) where
  unfoldable pub upsert_page : Context → UpsertTrustedBody → Action (Outcome TrustedMerchant)
  upsert_page c body = for_user c (
      with_id "invalid merchant_user_id" (parse_uuid body.merchant_user_id) λ merchant.
        if is_positive body.per_tx_cap_kobo
        then attempt (upsert c.user_id merchant body.per_tx_cap_kobo body.label)
            (λ e. refuse (upsert_status e) (error_text e)) give
        else refuse 400 "per_tx_cap_kobo must be > 0")

  unfoldable pub delete_page : Context → String → Action (Outcome (Unit {0}))
  delete_page c id = for_user c (
      with_id "invalid id" (parse_uuid id) λ record_id.
        attempt (delete_trusted c.user_id record_id) (λ e. refuse 500 (error_text e)) give)

unfoldable pub trusted_page : (String → Bytes) → Context → Action (Outcome (List TrustedView))
trusted_page bytes_of c = for_user c (
    attempt (list_trusted c.user_id) (λ e. refuse 500 (error_text e))
      λ rows.
        give (map (λ r. record { row = r; masked = mask_phone (bytes_of r.merchant_phone) }) rows))
