-- ===== src/Mandates/Verified.antt =====
-- What VerifyMandate has checked and saved.
use echopay.Common.{
  equal_fold, ℕ, suc, String, Bool, true, not, ◌&&◌, none, some, List, [], ◌∷◌, ◌++◌, ◌≡◌, refl,
  sym, ap, ◌∙◌, subst, find?, select, is_empty, is_empty-sort_by, sort_by, sort_desc_by, rev_append,
  ◌==◌, ==_refl, arith, inl, inr, Bool-cases,
}
use echopay.Paystack.{VerifyResponse}
use echopay.Store.Models.{Mandate, MandateStatus, status_text}
use echopay.Store.Query.{select_many}
use echopay.Store.Mandates.{
  is_mandate_of, CreateMandateParams, accepts_mandate, new_mandate, create_mandate,
  list_user_mandates,
}
use echopay.World.{Env, World, Result, ok}
use echopay.Action.{query, ask, pure, ◌>>=◌, handle}
use echopay.Action.Ends.{bind_then, within-ends, query-ends, require_then}
use echopay.Mandates.{has_none, verify_mandate}

is_empty-rev_append :
    {A : Type 0} (xs ys : List A) → is_empty (rev_append xs ys) ≡ is_empty xs && is_empty ys
is_empty-rev_append [] ys = refl
is_empty-rev_append (x ∷ xs) ys = is_empty-rev_append xs (x ∷ ys) ∙ ground arith

is_empty-append : (xs ys : List Mandate) → is_empty (xs ++ ys) ≡ is_empty xs && is_empty ys
is_empty-append [] ys = refl
is_empty-append (x ∷ xs) ys = refl

is_empty-parts :
    (test : Mandate → Bool) (xs : List Mandate)
    → is_empty (select test xs ++ select (λ m. not (test m)) xs) ≡ is_empty xs
is_empty-parts test [] = refl
is_empty-parts test (x ∷ xs) =
    is_empty-append (select test (x ∷ xs)) (select (λ m. not (test m)) (x ∷ xs)) ∙ ground arith

created-ends :
    (a : CreateMandateParams) (env : Env) (w w' : World) (m : Mandate)
    → create_mandate a env w ≡ (ok m, w')
    → (t : ℕ) × (id : ℕ) × (m ≡ new_mandate t id a) × (w'.mandates ≡ m ∷ w.mandates)
unfolding create_mandate
created-ends a env w w' m done =
    let id = env.random_uuid w.turn in
    let t = env.time w.turn in
    let ended = query-ends _ env w w' m done in
    elim (Bool-cases (accepts_mandate id a (record w { turn = suc w.turn }))) [
      | inl fits ↦ (t, id, ground arith, ground arith)
      | inr taken ↦ absurd (ground arith)
    ]

is_empty-listed :
    (rows : List Mandate)
    → let newest_first = sort_desc_by (λ m. m.created_at) rows in
      is_empty
        (select (λ m. m.is_default) newest_first ++ select (λ m. not m.is_default) newest_first)
      ≡ is_empty rows
is_empty-listed rows =
    is_empty-parts (λ m. m.is_default) (sort_desc_by (λ m. m.created_at) rows)
    ∙ is_empty-rev_append (sort_by (λ m. m.created_at) rows) []
    ∙ ground (arith, is_empty-sort_by (λ (m : Mandate). m.created_at) rows)

-- the listing that decides whether a mandate is the first
has_none-lem :
    (user : ℕ) (env : Env) (w : World) (b : Bool) (w' : World)
    → has_none user env w ≡ (ok b, w')
    → env.database_fault w.turn ≡ none
    → b ≡ is_empty (select (is_mandate_of user) w.mandates)
unfolding has_none list_user_mandates select_many query handle ◌>>=◌ pure
has_none-lem user env w b w' done quiet =
    ground (arith, is_empty-listed (select (is_mandate_of user) w.mandates))

-- What a mandate that VerifyMandate returned rests on, and what it is.
pub record Saved (env : Env) (user : ℕ) (reference : String) (w : World) (m : Mandate) (w' : World)
    : Type 0 where
  pub tx : VerifyResponse
  pub verified : env.verify_transaction w.turn reference ≡ ok tx
  pub paid : equal_fold (status_text tx.status) "success" ≡ true
  pub reusable : tx.authorization.reusable ≡ true
  pub owner : m.user_id ≡ user
  pub code : m.authorization_code ≡ tx.authorization.authorization_code
  pub live : m.status ≡ MandateStatus.active
  pub row : find? (λ x. x.id == m.id) w'.mandates ≡ some m
  pub default :
      env.database_fault (suc w.turn) ≡ none
      → m.is_default ≡ is_empty (select (is_mandate_of user) w.mandates)

-- Where VerifyMandate returns a mandate, Paystack has verified the transaction as successful and its
-- authorization as reusable; the mandate is an active row of the user with that authorization; and
-- where the listing did not fail, it is a default just when the user had no active mandate.
pub verify_mandate-Saved :
    (user : ℕ) (reference : String) (env : Env) (w w' : World) (m : Mandate)
    → verify_mandate user reference env w ≡ (ok m, w')
    → Saved env user reference w m w'
unfolding verify_mandate ask
verify_mandate-Saved user reference env w w' m done =
    bind_then _ _ env w w' m done λ tx w1 first d1.
      let asked = within-ends _ _ env w w1 tx first in
      let (paid, d2) = require_then _ _ _ env w1 w' m d1 in
      let (reusable, d3) = require_then _ _ _ env w1 w' m d2 in
      bind_then _ _ env w1 w' m d3 λ is_default w2 second d4.
        bind_then _ _ env w2 w' m d4 λ _ w3 third d5.
          let (t, id, made, rows) = created-ends _ env w3 w' m (within-ends _ _ env w3 w' m d5) in
          let moved = ap (λ (x : Result VerifyResponse × World). x.1) asked in
          record {
            tx = tx;
            verified = ap (λ (x : Result VerifyResponse × World). x.0) asked;
            paid = paid;
            reusable = reusable;
            owner = ap (λ (x : Mandate). x.user_id) made;
            code = ap (λ (x : Mandate). x.authorization_code) made;
            live = ap (λ (x : Mandate). x.status) made;
            row =
                subst (λ ms. find? (λ x. x.id == m.id) ms ≡ some m) (sym rows)
                  (rw (==_refl m.id) refl);
            default = λ quiet.
                ap (λ (x : Mandate). x.is_default) made
                ∙ has_none-lem user env w1 is_default w2 second
                    (subst (λ (x : World). env.database_fault x.turn ≡ none) moved quiet)
                ∙ ap (λ (x : World). is_empty (select (is_mandate_of user) x.mandates)) (sym moved);
          }
