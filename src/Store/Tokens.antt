-- ===== src/Store/Tokens.antt =====
-- internal/store/tokens.sql.go, and the constraints of the tokens table in migration 000004.
use mathlib.Core.Option
use echopay.Common.{
  ℕ, String, Bool, not, ◌&&◌, ◌||◌, Option, none, some, ◌∷◌, ℤ, pos_part, is_positive, find?,
  update_where, is_some, ltb, leb, ◌==◌, str_eq, if◌then◌else◌,
}
use echopay.Store.Models.{Token, TokenStatus, is_created}
use echopay.World.{World, ok, err, failure}
use echopay.Action.{Action, query}
use echopay.Store.Query.{found, select_one}

abbrev pub token_id : ℕ → Token → Bool
token_id id k = k.id == id

-- UPDATE tokens SET `change`, updated_at = NOW() WHERE `test` RETURNING *
unfoldable pub update_tokens : (ℕ → Token → Bool) → (ℕ → Token → Token) → Action Token
update_tokens test change = query λ t u w. (
  found (Option.map (change t) (find? (test t) w.tokens)),
  record w { tokens = update_where (test t) (change t) w.tokens },
)

-- id = $1 AND status = 'created' AND expires_at > NOW()
abbrev pub is_claimable : ℕ → ℕ → Token → Bool
is_claimable id t k = k.id == id && is_created k.status && ltb t k.expires_at

-- the foreign key of the claimer: it counts only where a row is changed
abbrev pub accepts_claim : ℕ → ℕ → ℕ → World → Bool
accepts_claim id claimer t w =
    not (is_some (find? (is_claimable id t) w.tokens))
    || is_some (find? (λ u. u.id == claimer) w.users)

abbrev pub claimed_by : ℕ → ℕ → Token → Token
claimed_by claimer t k = record k {
  status = TokenStatus.claimed;
  claimed_by_user_id = some claimer;
  claimed_at = some t;
  updated_at = t;
}

unfoldable pub claim_token : ℕ → ℕ → Action Token
claim_token id claimer = query λ t u w.
    if accepts_claim id claimer t w
    then (
      found (Option.map (claimed_by claimer t) (find? (is_claimable id t) w.tokens)),
      record w { tokens = update_where (is_claimable id t) (claimed_by claimer t) w.tokens },
    )
    else (err (failure "constraint violated"), w)

pub record CreateTokenParams : Type 0 where
  pub code : String
  pub issued_by_user_id : ℕ
  pub amount_kobo : ℤ
  pub note : Option String
  pub expires_at : ℕ

-- PRIMARY KEY, UNIQUE (code), CHECK (amount_kobo > 0) and the foreign key of the issuer
abbrev pub accepts_token : ℕ → CreateTokenParams → World → Bool
accepts_token id a w =
    not (is_some (find? (token_id id) w.tokens))
    && not (is_some (find? (λ k. str_eq k.code a.code) w.tokens))
    && is_positive a.amount_kobo
    && is_some (find? (λ u. u.id == a.issued_by_user_id) w.users)

abbrev pub new_token : ℕ → ℕ → CreateTokenParams → Token
new_token t id a = record {
  id = id;
  code = a.code;
  issued_by_user_id = a.issued_by_user_id;
  amount_kobo = pos_part a.amount_kobo;
  note = a.note;
  status = TokenStatus.created;
  claimed_by_user_id = none;
  claimed_at = none;
  expires_at = a.expires_at;
  settled_payment_id = none;
  created_at = t;
  updated_at = t;
}

unfoldable pub create_token : CreateTokenParams → Action Token
create_token a = query λ t id w.
    if accepts_token id a w
    then (ok (new_token t id a), record w { tokens = new_token t id a ∷ w.tokens })
    else (err (failure "constraint violated"), w)

-- :exec, no row comes back
unfoldable pub expire_stale_tokens : Action (Unit {0})
expire_stale_tokens = query λ t u w. (
  ok tt,
  record w {
    tokens =
        update_where (λ k. is_created k.status && leb k.expires_at t)
          (λ k. record k { status = TokenStatus.expired; updated_at = t }) w.tokens;
  },
)

unfoldable pub get_token_by_code : String → Action Token
get_token_by_code code = select_one (λ w. w.tokens) (λ k. str_eq k.code code)

unfoldable pub get_token_by_id : ℕ → Action Token
get_token_by_id id = select_one (λ w. w.tokens) (token_id id)

unfoldable pub mark_token_failed : ℕ → Action Token
mark_token_failed id =
    update_tokens (λ _. token_id id)
      (λ t k. record k { status = TokenStatus.failed; updated_at = t })

unfoldable pub mark_token_settled : ℕ → ℕ → Action Token
mark_token_settled id payment =
    update_tokens (λ _. token_id id)
      (λ t k. record k {
        status = TokenStatus.settled;
        settled_payment_id = some payment;
        updated_at = t;
      })
