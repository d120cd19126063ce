-- ===== src/Common/Updates.antt =====
-- What an UPDATE leaves in a table: the row it changed, and the rows that it did not mean.
use mathlib.Core.Path.{◌≡◌, refl}
use mathlib.Core.Logic.{◌⊎◌, inl, inr}
use mathlib.Core.Bool.{Bool, true, false, not}
use mathlib.Core.Option.{some}
use mathlib.Core.List.{List, [], ◌∷◌}
use native.Mathlib.Omega.{arith}
use echopay.Common.Tests.{Bool-cases}
use echopay.Common.Lists.{find?, select, update_where}

-- one of the rows is x
abbrev pub Holds : {A : Type 0} → A → List A → Type 0
Holds x [] = ⊥
Holds x (y ∷ rows) = (y ≡ x) ⊎ Holds x rows

module _ {A : Type 0} (test : A → Bool) (change : A → A) where
  pub update_where-Holds :
      (rows : List A) (x : A)
      → find? test rows ≡ some x
      → Holds (change x) (update_where test change rows)
  update_where-Holds [] x h = cc
  update_where-Holds (y ∷ rows) x h = elim (Bool-cases (test y)) [
    | inl this ↦ inl (ground arith)
    | inr other ↦ inr (update_where-Holds rows x (ground arith))
  ]

  pub find?-updated :
      ((y : A) → test (change y) ≡ test y)
      → (rows : List A) (x : A) → find? test rows ≡ some x
      → find? test (update_where test change rows) ≡ some (change x)
  find?-updated same [] x h = cc
  find?-updated same (y ∷ rows) x h = elim (Bool-cases (test y)) [
    | inl this ↦ ground (arith, same y)
    | inr other ↦ ground (arith, same y, find?-updated same rows x)
  ]

  pub select-others :
      ((y : A) → test (change y) ≡ test y)
      → (rows : List A)
      → select (λ y. not (test y)) (update_where test change rows) ≡ select (λ y. not (test y)) rows
  select-others same [] = refl
  select-others same (y ∷ rows) = elim (Bool-cases (test y)) [
    | inl this ↦ ground (arith, same y, select-others same rows)
    | inr other ↦ ground (arith, same y, select-others same rows)
  ]

  -- the rows that a test keeps, where the update means none of them and makes none
  pub select-untouched :
      (keep : A → Bool)
      → ((y : A) → keep (change y) ≡ keep y)
      → ((y : A) → keep y ≡ true → test y ≡ false)
      → (rows : List A) → select keep (update_where test change rows) ≡ select keep rows
  select-untouched keep same means [] = refl
  select-untouched keep same means (y ∷ rows) = elim (Bool-cases (test y)) [
    | inl this ↦ ground (arith, same y, means y, select-untouched keep same means rows)
    | inr other ↦ ground (arith, select-untouched keep same means rows)
  ]
