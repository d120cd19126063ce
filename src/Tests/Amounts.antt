-- ===== src/Tests/Amounts.antt =====
-- The properties of the amounts, at an amount.
use echopay.Common.{
  ℤ, ap, ◌-◌, int64_limit, ℕ, ◌%◌, ◌==◌, ◌↔◌, ◌≡◌, refl, if◌then◌else◌, [], ◌∷◌, ◌++◌, pos, negsuc,
  times, IsInt64, arith, Bytes, decimal, ◌≢◌,
}
use echopay.Money.{with_commas, from_naira, to_naira_string, format_naira, format_int, commas}
use echopay.Money.Commas.{grouped, with_commas-grouped}
use echopay.Money.Naira.{
  read_amount, read_amount-to_naira_string, from_naira_exact, to_naira_string-format_naira,
}

abbrev one_million : Bytes
one_million = b'1' ∷ b',' ∷ b'0' ∷ b'0' ∷ b'0' ∷ b',' ∷ b'0' ∷ b'0' ∷ b'0' ∷ []

with_commas_test : with_commas (pos 1_000_000) ≡ one_million
unfolding with_commas format_int commas decimal
with_commas_test = refl

with_commas-grouped_example : with_commas (pos 1_000_000) ≡ grouped 1_000_000
with_commas-grouped_example = with_commas-grouped 1_000_000

abbrev magnitude : ℤ → ℕ
magnitude (pos n) = n
magnitude (negsuc n) = n

not_least : negsuc 150_049 ≢ negsuc (int64_limit - 1)
not_least e = absurd (omega (arith, ap magnitude e))

read_amount-to_naira_string_example :
    read_amount (to_naira_string (negsuc 150_049)) ≡ negsuc 150_049
read_amount-to_naira_string_example =
    read_amount-to_naira_string (negsuc 150_049) (omega arith) not_least

naira_round_trip :
    (from_naira (pos 1_500) ≡ times (pos 1_500) 100) ↔ IsInt64 (times (pos 1_500) 100)
naira_round_trip = from_naira_exact (pos 1_500)

format_round_trip : to_naira_string (pos 150_000) ≡ (
    if 150_000 % 100 == 0
    then format_naira (pos 150_000) ++ b'.' ∷ b'0' ∷ b'0' ∷ []
    else format_naira (pos 150_000))
format_round_trip = to_naira_string-format_naira 150_000
