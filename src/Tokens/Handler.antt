-- ===== src/Tokens/Handler.antt =====
-- internal/tokens/handler.go: the pages of tokens. `bytes_of` gives the bytes of a string.
use echopay.Common.{
  ℕ, ◌-◌, String, Option, [], ◌∷◌, ◌++◌, Bytes, length, take, ltb, str_eq, ℤ, is_positive,
  if◌then◌else◌,
}
use echopay.Store.Models.{Token}
use echopay.World.{Error, token_not_found, wrapped, error_text}
use echopay.Action.{Action, attempt}
use echopay.Http.{Outcome, refuse, give, Context, for_user}
use echopay.Tokens.{IssuedToken, issue, Resolved, resolve}

-- the last four bytes are starred out
unfoldable pub mask_phone : Bytes → Bytes
mask_phone p =
    if ltb (length p) 4 then p else take (length p - 4) p ++ b'*' ∷ b'*' ∷ b'*' ∷ b'*' ∷ []

unfoldable pub issue_page : String → Context → ℤ → String → Action (Outcome IssuedToken)
issue_page code c amount_kobo note = for_user c (
    if is_positive amount_kobo
    then attempt
        (issue code
          (record { issued_by_user_id = c.user_id; amount_kobo = amount_kobo; note = note }))
        (λ e. refuse 500 (error_text e)) give
    else refuse 400 "amount_kobo must be > 0")

abbrev pub resolve_status : Error → ℕ
resolve_status token_not_found = 404
resolve_status (wrapped s e) = resolve_status e
resolve_status _ = 500

-- What is shown of a token: of its issuer the phone is masked.
pub record ResolvedView : Type 0 where
  pub token : Token
  pub issuer_id : ℕ
  pub issuer_name : Option String
  pub issuer_phone : Bytes

module _ (bytes_of : String → Bytes) where
  abbrev pub shown : Resolved → Action (Outcome ResolvedView)
  shown res = give (record {
    token = res.token;
    issuer_id = res.issuer.id;
    issuer_name = res.issuer.full_name;
    issuer_phone = mask_phone (bytes_of res.issuer.phone);
  })

  unfoldable pub resolve_page : String → Action (Outcome ResolvedView)
  resolve_page code =
      if str_eq code ""
      then refuse 400 "code required"
      else attempt (resolve code) (λ e. refuse (resolve_status e) (error_text e)) shown
