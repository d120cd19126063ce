-- ===== src/Common/Decimal.antt =====
-- Texts that the program takes apart or builds byte by byte: a text is its list of bytes.
use Prim.Native.Nat.{ℕ, zero, suc, ◌+◌, ◌-◌, ◌*◌, ◌/◌, ◌%◌, ◌<◌, ◌≤◌}
use mathlib.Core.Path.{◌≡◌, refl, ◌∙◌}
use mathlib.Core.Bool.{Bool, true, ◌&&◌}
use mathlib.Core.List.{List, [], ◌∷◌, ◌++◌}
use native.Mathlib.Omega.{arith}
use mathlib.Core.Logic.{inl, inr}
use echopay.Common.Lists.{length}
use echopay.Common.Tests.{Bool-cases, ltb, leb, if◌then◌else◌}

abbrev pub Bytes : Type 0
Bytes = List ℕ

-- What strconv writes for a number that is not negative. A digit is written a round; `suc n` rounds
-- are enough for n.
abbrev decimal_within : ℕ → ℕ → Bytes
decimal_within zero n = []
decimal_within (suc fuel) n =
    let front = decimal_within fuel (n / 10) in
    if ltb n 10 then (b'0' + n) ∷ [] else front ++ (b'0' + n % 10) ∷ []

unfoldable pub decimal : ℕ → Bytes
decimal n = decimal_within (suc n) n

decimal_within_any : (f g n : ℕ) → n < f → n < g → decimal_within f n ≡ decimal_within g n
decimal_within_any zero g n h k = elim h [ ]
decimal_within_any (suc f) zero n h k = elim k [ ]
decimal_within_any (suc f) (suc g) n h k = ground (arith, decimal_within_any f g (n / 10))

pub decimal-digit : (n : ℕ) → n < 10 → decimal n ≡ (b'0' + n) ∷ []
unfolding decimal
decimal-digit n h = ground arith

pub decimal-digits : (n : ℕ) → 10 ≤ n → decimal n ≡ decimal (n / 10) ++ (b'0' + n % 10) ∷ []
unfolding decimal
decimal-digits n h = ground (arith, decimal_within_any n (suc (n / 10)) (n / 10))

abbrev pub is_digit : ℕ → Bool
is_digit c = leb b'0' c && leb c b'9'

-- The number that the digits of a text write; other bytes are passed over.
abbrev pub read_digits : ℕ → Bytes → ℕ
read_digits acc [] = acc
read_digits acc (c ∷ cs) = read_digits (if is_digit c then acc * 10 + (c - b'0') else acc) cs

pub read_digits-append :
    (acc : ℕ) (xs ys : Bytes) → read_digits acc (xs ++ ys) ≡ read_digits (read_digits acc xs) ys
read_digits-append acc [] ys = refl
read_digits-append acc (x ∷ xs) ys =
    read_digits-append (if is_digit x then acc * 10 + (x - b'0') else acc) xs ys

read_digits_digit : (acc d : ℕ) → d < 10 → read_digits acc ((b'0' + d) ∷ []) ≡ acc * 10 + d
read_digits_digit acc d h = ground arith

-- What `decimal` writes is read back, by induction on the rounds.
read_digits-within : (f n : ℕ) → n < f → read_digits 0 (decimal_within f n) ≡ n
read_digits-within zero n h = elim h [ ]
read_digits-within (suc f) n h = ground (
  arith,
  read_digits-within f (n / 10),
  read_digits_digit 0 n,
  read_digits_digit (n / 10) (n % 10),
  read_digits-append 0 (decimal_within f (n / 10)) ((b'0' + n % 10) ∷ []),
)

pub read_digits-decimal : (n : ℕ) → read_digits 0 (decimal n) ≡ n
unfolding decimal
read_digits-decimal n = read_digits-within (suc n) n (omega arith)

pub length-append : (s t : Bytes) → length (s ++ t) ≡ length s + length t
length-append [] t = omega arith
length-append (x ∷ s) t = omega (arith, length-append s t)

pub length-decimal-pos : (n : ℕ) → 0 < length (decimal n)
length-decimal-pos n = elim (Bool-cases (ltb n 10)) [
  | inl small ↦ rw (decimal-digit n (ground arith)) (omega arith)
  | inr large ↦
      rw (decimal-digits n (ground arith))
        (omega (arith, length-append (decimal (n / 10)) ((b'0' + n % 10) ∷ [])))
]

pub length-decimal-tens : (n : ℕ) → 10 ≤ n → length (decimal n) ≡ suc (length (decimal (n / 10)))
length-decimal-tens n h =
    rw (decimal-digits n h) (omega (arith, length-append (decimal (n / 10)) ((b'0' + n % 10) ∷ [])))

pub length-decimal-one : (n : ℕ) → n < 10 → length (decimal n) ≡ 1
length-decimal-one n h = rw (decimal-digit n h) (omega arith)

pub length-decimal-le : (n : ℕ) → n < 1000 → length (decimal n) ≤ 3
length-decimal-le n h = ground (
  arith,
  length-decimal-one n,
  length-decimal-tens n,
  length-decimal-one (n / 10),
  length-decimal-tens (n / 10),
  length-decimal-one (n / 10 / 10),
)

pub length-decimal-le_six : (n : ℕ) → n < 1_000_000 → length (decimal n) ≤ 6
length-decimal-le_six n h = elim (Bool-cases (ltb n 1000)) [
  | inl small ↦ omega (arith, length-decimal-le n (ground arith))
  | inr large ↦ ground (
    arith,
    length-decimal-tens n,
    length-decimal-tens (n / 10),
    length-decimal-tens (n / 100),
    length-decimal-tens (n / 10 / 10),
    length-decimal-le (n / 10 / 10 / 10),
  )
]

abbrev pub all_digits : Bytes → Bool
all_digits [] = true
all_digits (c ∷ cs) = is_digit c && all_digits cs

pub all_digits-append : (s t : Bytes) → all_digits (s ++ t) ≡ all_digits s && all_digits t
all_digits-append [] t = refl
all_digits-append (c ∷ s) t = ground (arith, all_digits-append s t)

all_digits-within : (f n : ℕ) → all_digits (decimal_within f n) ≡ true
all_digits-within zero n = refl
all_digits-within (suc f) n = ground (
  arith,
  all_digits-within f (n / 10),
  all_digits-append (decimal_within f (n / 10)) ((b'0' + n % 10) ∷ []),
)

pub all_digits-decimal : (n : ℕ) → all_digits (decimal n) ≡ true
unfolding decimal
all_digits-decimal n = all_digits-within (suc n) n

-- `n` zeros in front
abbrev pub zeros : ℕ → Bytes → Bytes
zeros zero s = s
zeros (suc n) s = b'0' ∷ zeros n s

-- fmt.Sprintf("%0wd", n)
unfoldable pub padded : ℕ → ℕ → Bytes
padded width n = zeros (width - length (decimal n)) (decimal n)

length-zeros : (n : ℕ) (s : Bytes) → length (zeros n s) ≡ n + length s
length-zeros zero s = omega arith
length-zeros (suc n) s = omega (arith, length-zeros n s)

all_digits-zeros : (n : ℕ) (s : Bytes) → all_digits s ≡ true → all_digits (zeros n s) ≡ true
all_digits-zeros zero s h = h
all_digits-zeros (suc n) s h = all_digits-zeros n s h

read_digits-zeros : (n : ℕ) (s : Bytes) → read_digits 0 (zeros n s) ≡ read_digits 0 s
read_digits-zeros zero s = refl
read_digits-zeros (suc n) s = read_digits-zeros n s

-- Six digits that read back as the number.
pub padded_six :
    (n : ℕ)
    → n < 1_000_000
    → (length (padded 6 n) ≡ 6)
      × (all_digits (padded 6 n) ≡ true)
      × (read_digits 0 (padded 6 n) ≡ n)
unfolding padded
padded_six n h = (
  omega (arith, length-zeros (6 - length (decimal n)) (decimal n), length-decimal-le_six n h),
  all_digits-zeros (6 - length (decimal n)) (decimal n) (all_digits-decimal n),
  read_digits-zeros (6 - length (decimal n)) (decimal n) ∙ read_digits-decimal n,
)
