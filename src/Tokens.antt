-- ===== src/Tokens.antt =====
-- internal/tokens/service.go: session tokens over the ultrasonic or QR channel. The Redis mirror is
-- left out: the code ignores its answers.
pub mod Once
pub mod Handler
use echopay.Common.{
  ℕ, ◌+◌, ◌*◌, String, Bool, not, Option, none, some, ℤ, ltb, ◌==◌, str_eq, if◌then◌else◌,
}
use echopay.Store.Models.{Token, User}
use echopay.Store.Tokens.{create_token, get_token_by_code, claim_token}
use echopay.Store.Users.{get_user_by_id}
use echopay.World.{Error, token_not_found, token_claimed, self_claim, no_rows, is_no_rows, wrapped}
use echopay.Action.{Action, pure, now, ◌>>=◌, ◌>>◌, within, rows_or, require}

-- 60 seconds, in nanoseconds
abbrev pub token_ttl : ℕ
token_ttl = 60_000_000_000

pub record IssueRequest : Type 0 where
  pub issued_by_user_id : ℕ
  pub amount_kobo : ℤ
  pub note : String

pub record IssuedToken : Type 0 where
  pub id : ℕ
  pub code : String
  pub amount_kobo : ℕ
  pub expires_at : ℕ

-- `code` is what `generateCode` drew from crypto/rand
unfoldable pub issue : String → IssueRequest → Action IssuedToken
issue code req = do
  t ← now
  row ← within "persist token" (
      create_token (record {
        code = code;
        issued_by_user_id = req.issued_by_user_id;
        amount_kobo = req.amount_kobo;
        note = if str_eq req.note "" then none else some req.note;
        expires_at = t + token_ttl;
      }))
  pure (record {
    id = row.id;
    code = code;
    amount_kobo = row.amount_kobo;
    expires_at = row.expires_at;
  })

pub record Resolved : Type 0 where
  pub token : Token
  pub issuer : User

unfoldable pub resolve : String → Action Resolved
resolve code = do
  tok ← rows_or token_not_found "get token" (get_token_by_code code)
  t ← now
  require (not (ltb tok.expires_at t)) token_not_found
  issuer ← within "get issuer" (get_user_by_id tok.issued_by_user_id)
  pure (record { token = tok; issuer = issuer })

unfoldable pub claim : String → ℕ → Action Token
claim code claimer = do
  tok ← rows_or token_not_found "get token" (get_token_by_code code)
  require (not (tok.issued_by_user_id == claimer)) self_claim
  rows_or token_claimed "claim token" (claim_token tok.id claimer)
