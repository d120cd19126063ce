-- ===== src/Money/Commas.antt =====
-- The separators that withCommas places, against a definition by arithmetic: thousands are split off
-- from the right.
use mathlib.Core.List.{append_assoc}
use echopay.Common.{
  ℕ, zero, suc, ◌+◌, ◌*◌, ◌/◌, ◌-◌, ◌-◌, ◌%◌, ◌<◌, ◌≤◌, ltb, leb, ◌==◌, if◌then◌else◌, true, false,
  ◌≡◌, refl, ap, ◌∙◌, [], ◌∷◌, ◌++◌, length, take, drop, Bytes, decimal, decimal-digits,
  length-append, length-decimal-pos, length-decimal-le, pos, arith, inl, inr, Bool-cases,
}
use echopay.Money.{format_int, groups, comma_before, commas, with_commas}

-- three digits of a number below 1000
three_digits : ℕ → Bytes
three_digits m = (b'0' + m / 100) ∷ (b'0' + m / 10 % 10) ∷ (b'0' + m % 10) ∷ []

-- the thousands of a number, joined by commas; `suc n` rounds are enough for n
grouped_within : ℕ → ℕ → Bytes
grouped_within zero n = []
grouped_within (suc fuel) n =
    let front = grouped_within fuel (n / 1000) in
    if ltb n 1000 then decimal n else front ++ b',' ∷ three_digits (n % 1000)

pub grouped : ℕ → Bytes
grouped n = grouped_within (suc n) n

-- A text of whole groups and one more group.
groups-append :
    (k : ℕ) (s : Bytes) (a b c : ℕ)
    → length s ≡ 3 * suc k
    → groups (s ++ a ∷ b ∷ c ∷ []) ≡ groups s ++ b',' ∷ a ∷ b ∷ c ∷ []
unfolding groups comma_before
groups-append k [] a b c h = absurd (omega arith)
groups-append k (x ∷ []) a b c h = absurd (omega arith)
groups-append k (x ∷ y ∷ []) a b c h = absurd (omega arith)
groups-append k (x ∷ y ∷ z ∷ []) a b c h = refl
groups-append zero (x ∷ y ∷ z ∷ u ∷ s) a b c h = absurd (omega arith)
groups-append (suc k) (x ∷ y ∷ z ∷ u ∷ s) a b c h =
    rw (groups-append k (u ∷ s) a b c (omega arith)) refl

-- Where the separators fall, by the length of what is left of whole groups.
commas_long :
    (s : Bytes) (r : ℕ)
    → leb (length s) 3 ≡ false
    → length s % 3 ≡ r
    → ltb r (length s) ≡ true
    → commas s
      ≡ (if ltb 0 r then take r s else [])
        ++ (if ltb 0 r then b',' ∷ [] else [])
        ++ groups (drop r s)
unfolding commas
commas_long s r long rem less = rw (commas, long, rem, less) (ground arith)

module _ (k : ℕ) (t : Bytes) (whole : length t ≡ 3 * suc k) where
  commas_none : 0 < k → commas t ≡ groups t
  commas_none h = commas_long t 0 (ground arith) (omega arith) (ground arith)

  commas_one : (x : ℕ) → commas (x ∷ t) ≡ x ∷ b',' ∷ groups t
  commas_one x = commas_long (x ∷ t) 1 (ground arith) (omega arith) (ground arith)

  commas_two : (x y : ℕ) → commas (x ∷ y ∷ t) ≡ x ∷ y ∷ b',' ∷ groups t
  commas_two x y = commas_long (x ∷ y ∷ t) 2 (ground arith) (omega arith) (ground arith)

  -- A group more behind it.
  longer : (a b c : ℕ) → length (t ++ a ∷ b ∷ c ∷ []) ≡ 3 * suc (suc k)
  longer a b c = omega (arith, length-append t (a ∷ b ∷ c ∷ []))

module _ (a b c : ℕ) where
  commas-append_none :
      (k : ℕ) (t : Bytes)
      → length t ≡ 3 * suc k
      → 0 < k
      → commas (t ++ a ∷ b ∷ c ∷ []) ≡ commas t ++ b',' ∷ a ∷ b ∷ c ∷ []
  commas-append_none k t whole h =
      rw
        (
          commas_none k t whole h,
          commas_none (suc k) (t ++ a ∷ b ∷ c ∷ []) (longer k t whole a b c) (omega arith),
        )
        (groups-append k t a b c whole)

  commas-append_one :
      (k x : ℕ) (t : Bytes)
      → length t ≡ 3 * suc k
      → commas (x ∷ t ++ a ∷ b ∷ c ∷ []) ≡ commas (x ∷ t) ++ b',' ∷ a ∷ b ∷ c ∷ []
  commas-append_one k x t whole =
      rw
        (
          commas_one k t whole x,
          commas_one (suc k) (t ++ a ∷ b ∷ c ∷ []) (longer k t whole a b c) x,
        )
        (ap (λ (r : Bytes). x ∷ b',' ∷ r) (groups-append k t a b c whole))

  commas-append_two :
      (k x y : ℕ) (t : Bytes)
      → length t ≡ 3 * suc k
      → commas (x ∷ y ∷ t ++ a ∷ b ∷ c ∷ []) ≡ commas (x ∷ y ∷ t) ++ b',' ∷ a ∷ b ∷ c ∷ []
  commas-append_two k x y t whole =
      rw
        (
          commas_two k t whole x y,
          commas_two (suc k) (t ++ a ∷ b ∷ c ∷ []) (longer k t whole a b c) x y,
        )
        (ap (λ (r : Bytes). x ∷ y ∷ b',' ∷ r) (groups-append k t a b c whole))

-- A number is a multiple of 3, one more or two more.
data ByThree (n : ℕ) : Type 0 where
  none_left : (k : ℕ) → n ≡ 3 * suc k → 0 < k → ByThree n
  one_left : (k : ℕ) → n ≡ suc (3 * suc k) → ByThree n
  two_left : (k : ℕ) → n ≡ suc (suc (3 * suc k)) → ByThree n

by_three : (n : ℕ) → 3 < n → ByThree n
by_three n h = elim (Bool-cases (n % 3 == 0)) [
  | inl e ↦ none_left (n / 3 - 1) (ground arith) (ground arith)
  | inr d ↦ elim (Bool-cases (n % 3 == 1)) [
    | inl e ↦ one_left (n / 3 - 1) (ground arith)
    | inr e ↦ two_left (n / 3 - 1) (ground arith)
  ]
]

commas-append :
    (s : Bytes) (a b c : ℕ)
    → 0 < length s
    → commas (s ++ a ∷ b ∷ c ∷ []) ≡ commas s ++ b',' ∷ a ∷ b ∷ c ∷ []
unfolding commas groups comma_before
commas-append [] a b c h = absurd (omega arith)
commas-append (x ∷ []) a b c h = refl
commas-append (x ∷ y ∷ []) a b c h = refl
commas-append (x ∷ y ∷ z ∷ []) a b c h = refl
commas-append (x ∷ y ∷ z ∷ u ∷ s) a b c h =
    elim (by_three (length (x ∷ y ∷ z ∷ u ∷ s)) (omega arith)) [
      | none_left k e more ↦ commas-append_none a b c k (x ∷ y ∷ z ∷ u ∷ s) e more
      | one_left k e ↦ commas-append_one a b c k x (y ∷ z ∷ u ∷ s) (omega arith)
      | two_left k e ↦ commas-append_two a b c k x y (z ∷ u ∷ s) (omega arith)
    ]

decimal_three :
    (n : ℕ)
    → 1000 ≤ n
    → decimal n
      ≡ decimal (n / 10 / 10 / 10)
        ++ (b'0' + n / 10 / 10 % 10) ∷ (b'0' + n / 10 % 10) ∷ (b'0' + n % 10) ∷ []
decimal_three n h =
    rw
      (
        decimal-digits n (omega arith),
        decimal-digits (n / 10) (omega arith),
        decimal-digits (n / 10 / 10) (omega arith),
      )
      (simp append_assoc)

decimal-thousands : (n : ℕ) → 1000 ≤ n → decimal n ≡ decimal (n / 1000) ++ three_digits (n % 1000)
unfolding three_digits
decimal-thousands n h =
    decimal_three n h
    ∙ (let a : n / 10 / 10 / 10 ≡ n / 1000 = omega arith in
        let b : n / 10 / 10 % 10 ≡ n % 1000 / 100 = omega arith in
        let c : n / 10 % 10 ≡ n % 1000 / 10 % 10 = omega arith in
        let d : n % 10 ≡ n % 1000 % 10 = omega arith in cc)

commas_short : (s : Bytes) → length s ≤ 3 → commas s ≡ s
unfolding commas
commas_short s h = ground arith

commas-within : (f n : ℕ) → n < f → commas (decimal n) ≡ grouped_within f n
unfolding grouped_within three_digits
commas-within zero n h = elim h [ ]
commas-within (suc f) n h = elim (Bool-cases (ltb n 1000)) [
  | inl small ↦ rw small (commas_short (decimal n) (length-decimal-le n (ground arith)))
  | inr large ↦
      rw
        (
          large,
          decimal-thousands n (ground arith),
          commas-append (decimal (n / 1000)) _ _ _ (length-decimal-pos (n / 1000)),
          commas-within f (n / 1000) (ground arith),
        )
        refl
]

-- withCommas writes the thousands of a number, from the right, joined by commas.
pub with_commas-grouped : (n : ℕ) → with_commas (pos n) ≡ grouped n
unfolding with_commas format_int grouped
with_commas-grouped n = commas-within (suc n) n (omega arith)
