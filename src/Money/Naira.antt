-- ===== src/Money/Naira.antt =====
-- What ToNairaString and formatNaira write of an amount, and FromNaira at the ends of an int64.
use echopay.Common.{
  ℕ, zero, suc, ◌+◌, ◌-◌, ◌*◌, ◌/◌, ◌%◌, ◌<◌, ltb, leb, ◌==◌, if◌then◌else◌, Bool, true, false, ◌≡◌,
  refl, ap, ◌∙◌, [], ◌∷◌, ◌++◌, length, take, drop, Bytes, decimal, decimal-digit, decimal-digits,
  read_digits, read_digits-append, read_digits-decimal, ℤ, pos, negsuc, neg, times, wrap64,
  wrap64_exact, wrap64-IsInt64, IsInt64, int64_limit, arith, inl, inr, Bool-cases, ◌↔◌, subst, ◌≢◌,
}
use echopay.Money.{
  format_int, groups, comma_before, commas, with_commas, comma_int, two_digits, naira_sign,
  naira_and, from_naira, to_naira_string, format_naira,
}

-- A reader of amounts: a leading minus sign counts, and of the rest the digits.
abbrev pub read_amount : Bytes → ℤ
read_amount [] = pos 0
read_amount (c ∷ cs) = if c == b'-' then neg (read_digits 0 cs) else pos (read_digits 0 (c ∷ cs))

read_digits-comma_before :
    (acc : ℕ) (rest out : Bytes) → read_digits acc (comma_before rest out) ≡ read_digits acc out
unfolding comma_before
read_digits-comma_before acc [] out = refl
read_digits-comma_before acc (c ∷ cs) out = refl

read_digits-groups : (s : Bytes) (acc : ℕ) → read_digits acc (groups s) ≡ read_digits acc s
unfolding groups
read_digits-groups [] acc = refl
read_digits-groups (a ∷ []) acc = refl
read_digits-groups (a ∷ b ∷ []) acc = refl
read_digits-groups (a ∷ b ∷ c ∷ s) acc =
    read_digits-comma_before _ s (groups s) ∙ read_digits-groups s _

read_digits-append_drop :
    (n : ℕ) (s : Bytes) (acc : ℕ)
    → read_digits (read_digits acc (take n s)) (drop n s) ≡ read_digits acc s
read_digits-append_drop zero s acc = refl
read_digits-append_drop (suc n) [] acc = refl
read_digits-append_drop (suc n) (x ∷ s) acc = read_digits-append_drop n s _

below_suc : (r : ℕ) → ltb 0 (suc r) ≡ true
below_suc r = ground arith

read_digits-parts :
    (r : ℕ) (b : Bool) (s : Bytes) (acc : ℕ)
    → read_digits acc
        ((if ltb 0 r then take r s else []) ++ (if b then b',' ∷ [] else []) ++ groups (drop r s))
      ≡ read_digits acc s
read_digits-parts zero true s acc = read_digits-groups s acc
read_digits-parts zero false s acc = read_digits-groups s acc
read_digits-parts (suc r) true s acc =
    simp (below_suc, read_digits-append, read_digits-groups) (read_digits-append_drop (suc r) s acc)
read_digits-parts (suc r) false s acc =
    simp (below_suc, read_digits-append, read_digits-groups) (read_digits-append_drop (suc r) s acc)

read_digits-commas : (s : Bytes) (acc : ℕ) → read_digits acc (commas s) ≡ read_digits acc s
unfolding commas
read_digits-commas s acc = elim (Bool-cases (leb (length s) 3)) [
  | inl short ↦ rw short refl
  | inr long ↦ rw long (read_digits-parts (length s % 3) _ s acc)
]

-- The whole part, the point and the two digits of the kobo are read as one number.
read_digits-two : (acc c : ℕ) → c < 100 → read_digits acc (two_digits (pos c)) ≡ acc * 100 + c
unfolding two_digits
read_digits-two acc c h = ground (arith, decimal-digit c, decimal-digits c, decimal-digit (c / 10))

read_digits-with_commas :
    (n acc : ℕ) → read_digits acc (with_commas (pos n)) ≡ read_digits acc (decimal n)
unfolding with_commas format_int
read_digits-with_commas n acc = read_digits-commas (decimal n) acc

read_digits-amount :
    (v : ℕ) → read_digits 0 (with_commas (pos (v / 100)) ++ b'.' ∷ two_digits (pos (v % 100))) ≡ v
read_digits-amount v =
    rw
      (
        read_digits-append 0 (with_commas (pos (v / 100))) (b'.' ∷ two_digits (pos (v % 100))),
        read_digits-with_commas (v / 100) 0,
        read_digits-decimal (v / 100),
        read_digits-two (v / 100) (v % 100) (omega arith),
      )
      (omega arith)

negated_exact :
    (n : ℕ)
    → negsuc n ≢ negsuc (int64_limit - 1)
    → IsInt64 (negsuc n)
    → wrap64 (pos (suc n)) ≡ pos (suc n)
negated_exact n h k = wrap64_exact (pos (suc n)) (ground arith)

-- What ToNairaString writes of any amount but the least int64 is read back as the amount.
pub read_amount-to_naira_string :
    (k : ℤ) → IsInt64 k → k ≢ negsuc (int64_limit - 1) → read_amount (to_naira_string k) ≡ k
unfolding to_naira_string
read_amount-to_naira_string (pos n) fits h = ap pos (read_digits-amount n)
read_amount-to_naira_string (negsuc n) fits h =
    rw (negated_exact n h fits) (ap neg (read_digits-amount (suc n)))

-- FromNaira is exact where the kobo fit in an int64, and only there.
pub from_naira_exact : (n : ℤ) → (from_naira n ≡ times n 100) ↔ IsInt64 (times n 100)
unfolding from_naira
from_naira_exact n =
    (λ e. subst IsInt64 e (wrap64-IsInt64 (times n 100)), λ h. wrap64_exact (times n 100) h)

commas_agree : (n : ℤ) → with_commas n ≡ comma_int n
unfolding with_commas comma_int
commas_agree n = refl

naira_and_kobo :
    (whole : Bytes) (c : ℕ)
    → naira_sign ++ whole ++ b'.' ∷ two_digits (pos c) ≡ (
        if c == 0
        then naira_and whole (pos c) ++ b'.' ∷ b'0' ∷ b'0' ∷ []
        else naira_and whole (pos c))
unfolding naira_and two_digits decimal
naira_and_kobo whole zero = refl
naira_and_kobo whole (suc c) = ground arith

-- ToNairaString writes of an amount that is not negative what a push says of it, with the kobo
-- written also where there are none.
pub to_naira_string-format_naira :
    (n : ℕ)
    → to_naira_string (pos n) ≡ (
        if n % 100 == 0
        then format_naira (pos n) ++ b'.' ∷ b'0' ∷ b'0' ∷ []
        else format_naira (pos n))
unfolding to_naira_string format_naira
to_naira_string-format_naira n =
    rw (commas_agree (pos (n / 100))) (naira_and_kobo (comma_int (pos (n / 100))) (n % 100))
