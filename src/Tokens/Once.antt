-- ===== src/Tokens/Once.antt =====
-- A token is claimed once, before it expires, and by another user than its issuer.
use mathlib.Core.Option
use echopay.Common.{
  ℕ, suc, ◌<◌, ◌≤◌, ◌≡◌, ◌≢◌, refl, String, Bool, false, none, some, List, [], ◌∷◌, find?, subst,
  sym, update_where, select, select-untouched, not, ap, ◌∙◌, Holds, update_where-Holds, ◌==◌,
  str_eq, arith, Option-cases, Bool-cases, inl, inr,
}
use echopay.Store.Models.{Token, TokenStatus, is_created}
use echopay.Store.Query.{select_one, found}
use echopay.Store.Tokens.{is_claimable, claimed_by, claim_token, get_token_by_code}
use echopay.World.{Env, World, Error, ok, err, no_rows, failure}
use echopay.Action.{pure, raise, query, ◌>>=◌, handle, rows_or, require}
use echopay.Tokens.{claim}

taken_after :
    (id t : ℕ) (change : Token → Token) (ks : List Token)
    → ((k : Token) → is_created (change k).status ≡ false)
    → (t' : ℕ) → t ≤ t'
    → find? (is_claimable id t') (update_where (is_claimable id t) change ks) ≡ none
taken_after id t change [] closes t' later = refl
taken_after id t change (k ∷ ks) closes t' later =
    ground (arith, closes k, taken_after id t change ks closes t' later)

update_where-missing :
    (test : Token → Bool) (change : Token → Token) (ks : List Token)
    → find? test ks ≡ none
    → update_where test change ks ≡ ks
update_where-missing test change [] h = refl
update_where-missing test change (k ∷ ks) h = ground (arith, update_where-missing test change ks)

claim_token-misses :
    (id user : ℕ) (env : Env) (w : World)
    → find? (is_claimable id (env.time w.turn)) w.tokens ≡ none
    → (e : Error) × (claim_token id user env w ≡ (err e, record w { turn = suc w.turn }))
unfolding claim_token query
claim_token-misses id user env w missing = elim (Option-cases (env.database_fault w.turn)) [
  | inl quiet ↦ (
    no_rows,
    ground (
      arith,
      update_where-missing (is_claimable id (env.time w.turn)) (claimed_by user (env.time w.turn))
          w.tokens missing,
    ),
  )
  | inr (text, fault) ↦ (failure text, ground arith)
]

claim_token-leaves :
    (id user : ℕ) (env : Env) (w : World) (k : Token) (t : ℕ)
    → (claim_token id user env w).0 ≡ ok k
    → env.time w.turn ≤ t
    → find? (is_claimable id t) (claim_token id user env w).1.tokens ≡ none
unfolding claim_token query
claim_token-leaves id user env w k t done later = elim (Option-cases (env.database_fault w.turn)) [
  | inl quiet ↦ ground (
    arith,
    taken_after id (env.time w.turn) (claimed_by user (env.time w.turn)) w.tokens (λ k. refl) t
        later,
  )
  | inr (text, fault) ↦ ground arith
]

-- Once a claim has returned a token, a second claim of the same token at the same time or later, by
-- whomever, fails and changes nothing but the count of turns.
pub claim_token-once :
    (id first second : ℕ) (env env' : Env) (w : World) (k : Token)
    → (claim_token id first env w).0 ≡ ok k
    → env.time w.turn ≤ env'.time (claim_token id first env w).1.turn
    → let w' = (claim_token id first env w).1 in
      (e : Error) × (claim_token id second env' w' ≡ (err e, record w' { turn = suc w'.turn }))
claim_token-once id first second env env' w k done later =
    claim_token-misses id second env' _ (claim_token-leaves id first env w k _ done later)

found-claimed :
    (id user t : ℕ) (ks : List Token) (k : Token)
    → found (Option.map (claimed_by user t) (find? (is_claimable id t) ks)) ≡ ok k
    → (k.status ≡ TokenStatus.claimed)
      × (k.claimed_by_user_id ≡ some user)
      × (t < k.expires_at)
      × (k.id ≡ id)
found-claimed id user t [] k e = cc
found-claimed id user t (x ∷ ks) k e = ground (arith, found-claimed id user t ks k)

-- the row that a claim returns stands in the table after it
claimed-stored :
    (id user t : ℕ) (ks : List Token) (k : Token)
    → found (Option.map (claimed_by user t) (find? (is_claimable id t) ks)) ≡ ok k
    → Holds k (update_where (is_claimable id t) (claimed_by user t) ks)
claimed-stored id user t ks k e = elim (Option-cases (find? (is_claimable id t) ks)) [
  | inl missing ↦ ground arith
  | inr (x, known) ↦
      let same : claimed_by user t x ≡ k = ground arith in
      subst (λ r. Holds r (update_where (is_claimable id t) (claimed_by user t) ks)) same
        (update_where-Holds (is_claimable id t) (claimed_by user t) ks x known)
]

-- A claim that returns a token found it by the code, issued by another user than the claimer; the
-- token had not expired when it was claimed, and is now claimed, by the claimer: so it is returned, and
-- so it stands in the table, where the tokens of other ids are as they were.
pub claim_sound :
    (code : String) (user : ℕ) (env : Env) (w : World) (k : Token)
    → (claim code user env w).0 ≡ ok k
    → (tok : Token) × (find? (λ x. str_eq x.code code) w.tokens ≡ some tok)
      × (tok.issued_by_user_id ≢ user)
      × (k.id ≡ tok.id)
      × (k.status ≡ TokenStatus.claimed)
      × (k.claimed_by_user_id ≡ some user)
      × (env.time (suc w.turn) < k.expires_at)
      × Holds k (claim code user env w).1.tokens
      × (select (λ x. not (x.id == tok.id)) (claim code user env w).1.tokens
          ≡ select (λ x. not (x.id == tok.id)) w.tokens)
unfolding claim claim_token get_token_by_code select_one query ◌>>=◌ handle rows_or require pure
    raise
claim_sound code user env w k done = elim (Option-cases (env.database_fault w.turn)) [
  | inl quiet ↦ elim (Option-cases (find? (λ x. str_eq x.code code) w.tokens)) [
    | inl missing ↦ ground arith
    | inr (tok, known) ↦ elim (Bool-cases (tok.issued_by_user_id == user)) [
      | inl own ↦ ground arith
      | inr foreign ↦ elim (Option-cases (env.database_fault (suc w.turn))) [
        | inl still ↦
            let (claimed, by, fresh, same) =
              found-claimed tok.id user (env.time (suc w.turn)) w.tokens k (ground arith) in
            let stored =
              claimed-stored tok.id user (env.time (suc w.turn)) w.tokens k (ground arith) in
            let table : (claim code user env w).1.tokens
                ≡ update_where (is_claimable tok.id (env.time (suc w.turn)))
                    (claimed_by user (env.time (suc w.turn))) w.tokens =
              ground arith in
            (
              tok,
              known,
              ground arith,
              same,
              claimed,
              by,
              fresh,
              subst (Holds k) (sym table) stored,
              ap (select (λ x. not (x.id == tok.id))) table
                  ∙ select-untouched (is_claimable tok.id (env.time (suc w.turn)))
                      (claimed_by user (env.time (suc w.turn))) (λ x. not (x.id == tok.id))
                      (λ x. refl) (λ x h. ground arith) w.tokens,
            )
        | inr (text, fault) ↦ ground arith
      ]
    ]
  ]
  | inr (text, fault) ↦ ground arith
]
