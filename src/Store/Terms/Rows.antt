-- ===== src/Store/Terms/Rows.antt =====
-- An update of the payments that keeps the terms keeps the rows, and so does an insertion under a
-- fresh id.
use echopay.Common.{
  ℕ, ◌≡◌, Bool, true, false, none, some, List, [], ◌∷◌, find?, update_where, ◌==◌, if◌then◌else◌,
  Bool-cases, arith, inl, inr, subst, ==_eq,
}
use echopay.Store.Models.{Payment}
use echopay.Store.Payments.{has_id}
use echopay.Store.Terms.{SameTerms, SameTerms-refl, HasTerms, PaymentsKept}

-- found at the head
head_HasTerms :
    (id : ℕ) (p x y : Payment) (ps qs : List Payment)
    → SameTerms x y
    → (x.id == id) ≡ true
    → find? (has_id id) (x ∷ ps) ≡ some p
    → HasTerms (y ∷ qs) id p
head_HasTerms id p x y ps qs h here e = record {
  row = y;
  found_at = ground arith;
  same = let same_row : x ≡ p = ground arith in subst (λ z. SameTerms z y) same_row h;
}

-- found further down
tail_HasTerms :
    (id : ℕ) (p x y : Payment) (qs : List Payment)
    → SameTerms x y
    → (x.id == id) ≡ false
    → HasTerms qs id p
    → HasTerms (y ∷ qs) id p
tail_HasTerms id p x y qs h e k = record { row = k.row; found_at = ground arith; same = k.same }

pub update_where-PaymentsKept :
    (test : Payment → Bool) (change : Payment → Payment)
    → ((p : Payment) → SameTerms p (change p))
    → (ps : List Payment) → PaymentsKept ps (update_where test change ps)
update_where-PaymentsKept test change keeps [] id p e = cc
update_where-PaymentsKept test change keeps (x ∷ ps) id p e = elim (Bool-cases (x.id == id)) [
  | inl here ↦ head_HasTerms id p x _ ps _ (changed x) here e
  | inr there ↦
      tail_HasTerms id p x _ _ (changed x) there
        (update_where-PaymentsKept test change keeps ps id p (ground arith))
]
  where
    changed : (x : Payment) → SameTerms x (if test x then change x else x)
    changed x = elim (Bool-cases (test x)) [
      | inl t ↦ rw t (keeps x)
      | inr f ↦ rw f (SameTerms-refl x)
    ]

pub cons-PaymentsKept :
    (x : Payment) (ps : List Payment) → find? (has_id x.id) ps ≡ none → PaymentsKept ps (x ∷ ps)
cons-PaymentsKept x ps fresh id p e = elim (Bool-cases (x.id == id)) [
  | inl here ↦ cc (subst (λ k. find? (has_id k) ps ≡ none) (==_eq x.id id here) fresh, e)
  | inr there ↦
      tail_HasTerms id p x x ps (SameTerms-refl x) there
        (record { row = p; found_at = e; same = SameTerms-refl p })
]
