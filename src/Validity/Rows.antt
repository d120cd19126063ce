-- ===== src/Validity/Rows.antt =====
-- Writes on the two tables keep them valid.
use echopay.Common.{
  ℕ, ◌≡◌, ◌<◌, refl, Bool, true, false, not, ◌&&◌, some, String, List, [], ◌∷◌, ◌==◌, str_eq, find?,
  update_where, is_some, is_positive, pos, negsuc, zero, suc, pos_part, ℤ, arith, if◌then◌else◌,
  Bool-cases, inl, inr, sym, subst, ◌∙◌,
}
use echopay.Store.Models.{Payment, LedgerEntry, Side}
use echopay.Store.Terms.{SameTerms, SameTerms-refl, PaymentsKept}
use echopay.Store.Payments.{has_id, CreatePaymentParams, accepts, new_payment}
use echopay.World.{World}
use echopay.Conserves.{Backed, admits, party}
use echopay.Validity.{IdFree, KeyFree, IsTable, IsLedger}

-- the party of an entry is a term of the payment
party_kept : (s : Side) (p q : Payment) → SameTerms p q → party s q ≡ party s p
party_kept Side.debit p q h = h.sender
party_kept Side.credit p q h = h.receiver

module _ (test : Payment → Bool) (change : Payment → Payment)
    (keeps : (p : Payment) → SameTerms p (change p)) where
  changed : (p : Payment) → SameTerms p (if test p then change p else p)
  changed p = elim (Bool-cases (test p)) [
    | inl t ↦ rw t (keeps p)
    | inr f ↦ rw f (SameTerms-refl p)
  ]

  IdFree-update :
      (id : ℕ) (ps : List Payment) → IdFree id ps → IdFree id (update_where test change ps)
  IdFree-update id [] h = tt
  IdFree-update id (p ∷ ps) h =
      (subst (λ k. (k == id) ≡ false) (sym (changed p).id) h.0, IdFree-update id ps h.1)

  KeyFree-update :
      (key : String) (ps : List Payment)
      → KeyFree key ps
      → KeyFree key (update_where test change ps)
  KeyFree-update key [] h = tt
  KeyFree-update key (p ∷ ps) h =
      (subst (λ k. str_eq k key ≡ false) (sym (changed p).key) h.0, KeyFree-update key ps h.1)

  pub IsTable-update : (ps : List Payment) → IsTable ps → IsTable (update_where test change ps)
  IsTable-update [] h = tt
  IsTable-update (p ∷ ps) h = (
    subst (λ k. IdFree k (update_where test change ps)) (sym (changed p).id)
        (IdFree-update p.id ps h.0),
    subst (λ k. KeyFree k (update_where test change ps)) (sym (changed p).key)
        (KeyFree-update p.idempotency_key ps h.1),
    subst (λ a. 0 < a) (sym (changed p).amount) h.2,
    IsTable-update ps h.3,
  )

not_found-IdFree :
    (id : ℕ) (ps : List Payment) → is_some (find? (has_id id) ps) ≡ false → IdFree id ps
not_found-IdFree id [] h = tt
not_found-IdFree id (p ∷ ps) h = ground (arith, not_found-IdFree id ps)

not_found-KeyFree :
    (key : String) (ps : List Payment)
    → is_some (find? (λ p. str_eq p.idempotency_key key) ps) ≡ false
    → KeyFree key ps
not_found-KeyFree key [] h = tt
not_found-KeyFree key (p ∷ ps) h = elim (Bool-cases (str_eq p.idempotency_key key)) [
  | inl same ↦ cc (
      subst
        (λ b. is_some (if b then some p else find? (λ q. str_eq q.idempotency_key key) ps) ≡ false)
        same h)
  | inr other ↦ (
    other,
    not_found-KeyFree key ps (
        subst
          (λ b.
            is_some (if b then some p else find? (λ q. str_eq q.idempotency_key key) ps) ≡ false)
          other h),
  )
]

positive : (a : ℤ) → is_positive a ≡ true → 0 < pos_part a
positive (pos zero) h = cc
positive (pos (suc n)) h = omega arith
positive (negsuc n) h = cc

not-true : (b : Bool) → not b ≡ true → b ≡ false
not-true true h = cc
not-true false h = refl

-- what the constraints of the table say of a row that is accepted
accepts_parts :
    (a b c d : Bool) → (not a && not b && c && d) ≡ true → (a ≡ false) × (b ≡ false) × (c ≡ true)
accepts_parts a b c d h = ground arith

pub IsTable-new :
    (w : World) (t id : ℕ) (a : CreatePaymentParams)
    → accepts id a w ≡ true
    → IsTable w.payments
    → IsTable (new_payment t id a ∷ w.payments)
IsTable-new w t id a fits h =
    let parts = accepts_parts _ _ _ _ fits in
    (
      not_found-IdFree id w.payments parts.0,
      not_found-KeyFree a.idempotency_key w.payments parts.1,
      positive a.amount_kobo parts.2,
      h,
    )

-- entries stay backed while payments are kept
pub IsLedger-kept :
    (es : List LedgerEntry) (ps qs : List Payment)
    → PaymentsKept ps qs
    → IsLedger es ps
    → IsLedger es qs
IsLedger-kept [] ps qs k h = tt
IsLedger-kept (e ∷ es) ps qs k h = (h.0, still, IsLedger-kept es ps qs k h.2)
  where
    still : Backed e qs
    still =
        let q = k e.payment_id h.1.row h.1.found_at in
        record {
          row = q.row;
          found_at = q.found_at;
          amount = h.1.amount ∙ sym q.same.amount;
          user = h.1.user ∙ sym (party_kept e.side h.1.row q.row q.same);
        }

pub admits-positive : (e : LedgerEntry) (w : World) → admits e w ≡ true → 0 < e.amount_kobo
admits-positive e w h = ground arith
