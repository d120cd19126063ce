-- ===== src/Common/Lists.antt =====
-- Lists as database tables: selection, update, insertion order, counting and sorting.
use Prim.Native.Nat.{ℕ, zero, suc}
use mathlib.Core.Path.{◌≡◌, refl}
use mathlib.Core.Bool.{Bool, true, false}
use mathlib.Core.Option.{Option, none, some}
use mathlib.Core.List.{List, [], ◌∷◌}
use native.Mathlib.Omega.{arith}
use echopay.Common.Tests.{leb, if◌then◌else◌}

module _ {ℓ} {A : Type ℓ} where
  abbrev pub length : List A → ℕ
  length [] = 0
  length (x ∷ xs) = suc (length xs)

  abbrev pub take : ℕ → List A → List A
  take zero xs = []
  take (suc n) [] = []
  take (suc n) (x ∷ xs) = x ∷ take n xs

  abbrev pub drop : ℕ → List A → List A
  drop zero xs = xs
  drop (suc n) [] = []
  drop (suc n) (x ∷ xs) = drop n xs

  -- `SELECT … WHERE t`, the first row
  abbrev pub find? : (A → Bool) → List A → Option A
  find? t [] = none
  find? t (x ∷ xs) = if t x then some x else find? t xs

  -- `SELECT … WHERE t`, every row
  abbrev pub select : (A → Bool) → List A → List A
  select t [] = []
  select t (x ∷ xs) = let rest = select t xs in if t x then x ∷ rest else rest

  -- `UPDATE … SET f WHERE t`
  abbrev pub update_where : (A → Bool) → (A → A) → List A → List A
  update_where t f [] = []
  update_where t f (x ∷ xs) = (if t x then f x else x) ∷ update_where t f xs

  abbrev pub is_some : Option A → Bool
  is_some none = false
  is_some (some a) = true

  abbrev pub is_empty : List A → Bool
  is_empty [] = true
  is_empty (x ∷ xs) = false

  -- `ORDER BY key DESC LIMIT 1`; of rows with equal keys the first
  abbrev pub latest : (A → ℕ) → List A → Option A
  latest key [] = none
  latest key (x ∷ xs) = elim (latest key xs) [
    | none ↦ some x
    | some y ↦ if leb (key y) (key x) then some x else some y
  ]

  -- `ORDER BY key ASC`; rows with equal keys keep their order
  abbrev insert_by : (A → ℕ) → A → List A → List A
  insert_by key a [] = a ∷ []
  insert_by key a (x ∷ xs) = if leb (key a) (key x) then a ∷ x ∷ xs else x ∷ insert_by key a xs

  abbrev pub sort_by : (A → ℕ) → List A → List A
  sort_by key [] = []
  sort_by key (x ∷ xs) = insert_by key x (sort_by key xs)

  abbrev pub rev_append : List A → List A → List A
  rev_append [] ys = ys
  rev_append (x ∷ xs) ys = rev_append xs (x ∷ ys)

  -- `ORDER BY key DESC`
  abbrev pub sort_desc_by : (A → ℕ) → List A → List A
  sort_desc_by key xs = rev_append (sort_by key xs) []

abbrev pub All {ℓ κ} : {A : Type ℓ} → (A → Type κ) → List A → Type κ
All P [] = Unit
All P (x ∷ xs) = P x × All P xs

module _ {ℓ} {A : Type ℓ} where
  length-insert_by :
      (key : A → ℕ) (a : A) (xs : List A) → length (insert_by key a xs) ≡ suc (length xs)
  length-insert_by key a [] = refl
  length-insert_by key a (x ∷ xs) = ground (arith, length-insert_by key a xs)

  pub length-sort_by : (key : A → ℕ) (xs : List A) → length (sort_by key xs) ≡ length xs
  length-sort_by key [] = refl
  length-sort_by key (x ∷ xs) =
      omega (arith, length-sort_by key xs, length-insert_by key x (sort_by key xs))

  is_empty-insert_by : (key : A → ℕ) (a : A) (xs : List A) → is_empty (insert_by key a xs) ≡ false
  is_empty-insert_by key a [] = refl
  is_empty-insert_by key a (x ∷ xs) = ground arith

  pub is_empty-sort_by : (key : A → ℕ) (xs : List A) → is_empty (sort_by key xs) ≡ is_empty xs
  is_empty-sort_by key [] = refl
  is_empty-sort_by key (x ∷ xs) = is_empty-insert_by key x (sort_by key xs)

  -- what is found passes the test
  pub find?_passes : (t : A → Bool) (xs : List A) (x : A) → find? t xs ≡ some x → t x ≡ true
  find?_passes t [] x h = cc
  find?_passes t (y ∷ xs) x h = ground (arith, find?_passes t xs x)
