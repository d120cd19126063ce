-- ===== src/Common/Text.antt =====
-- strings.EqualFold, where the second text is of small letters of ASCII: each letter has its capital,
-- and Unicode folds the long s to s and the sign of Kelvin to k.
use Prim.Native.Nat.{ℕ, ◌+◌}
use Prim.Native.Char.{code}
use Prim.Native.String.{String, [], ◌∷◌}
use mathlib.Core.Bool.{Bool, true, false, ◌&&◌, ◌||◌}
use echopay.Common.Tests.{◌==◌}

abbrev pub folds_to : ℕ → ℕ → Bool
folds_to c letter =
    c == letter || c + 32 == letter || c == 383 && letter == 115 || c == 8490 && letter == 107

unfoldable pub equal_fold : String → String → Bool
equal_fold [] [] = true
equal_fold [] (d ∷ t) = false
equal_fold (c ∷ s) [] = false
equal_fold (c ∷ s) (d ∷ t) = folds_to (code c) (code d) && equal_fold s t
