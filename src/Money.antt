-- ===== src/Money.antt =====
-- internal/money/money.go: amounts in kobo, and how they are written. A text is its list of bytes
-- (UTF-8), and an int64 an integer that is wrapped where Go's arithmetic may leave its range.
pub mod Commas
pub mod Naira
use echopay.Common.{
  ℕ, zero, suc, ◌%◌, ltb, leb, ◌&&◌, Bool, true, false, if◌then◌else◌, List, [], ◌∷◌, ◌++◌, length,
  take, drop, Bytes, decimal, ℤ, pos, negsuc, negated, quotient, remainder, times, wrap64,
}

-- strconv.FormatInt(n, 10)
unfoldable pub format_int : ℤ → Bytes
format_int (pos n) = decimal n
format_int (negsuc n) = b'-' ∷ decimal (suc n)

-- `if i+3 < len(s) { out = append(out, ',') }`, before the rest of the text
comma_before : Bytes → Bytes → Bytes
comma_before [] out = out
comma_before (c ∷ cs) out = b',' ∷ out

-- `for i := rem; i < len(s); i += 3`, on s[i:]. The length is a multiple of 3: Go would panic at a
-- shorter slice.
groups : Bytes → Bytes
unfolding comma_before
groups (a ∷ b ∷ c ∷ rest) = a ∷ b ∷ c ∷ comma_before rest (groups rest)
groups short = short

-- the separators of a text of digits
unfoldable pub commas : Bytes → Bytes
unfolding groups
commas s =
    if leb (length s) 3
    then s
    else (let rem = length s % 3 in
        let head = if ltb 0 rem then take rem s else [] in
        let comma = if ltb 0 rem && ltb rem (length s) then b',' ∷ [] else [] in
        head ++ comma ++ groups (drop rem s))

unfoldable pub with_commas : ℤ → Bytes
unfolding commas
with_commas n = commas (format_int n)

-- fmt.Sprintf("%02d", n)
unfoldable pub two_digits : ℤ → Bytes
two_digits (pos n) = if ltb n 10 then b'0' ∷ decimal n else decimal n
two_digits (negsuc n) = b'-' ∷ decimal (suc n)

abbrev pub naira_sign : Bytes
naira_sign = 0xE2 ∷ 0x82 ∷ 0xA6 ∷ []

abbrev pub is_negative : ℤ → Bool
is_negative (pos n) = false
is_negative (negsuc n) = true

-- FromNaira
unfoldable pub from_naira : ℤ → ℤ
from_naira naira = wrap64 (times naira 100)

-- ToNairaString
unfoldable pub to_naira_string : ℤ → Bytes
to_naira_string k =
    let v = if is_negative k then wrap64 (negated k) else k in
    let sign : Bytes = if is_negative k then b'-' ∷ [] else [] in
    sign ++ naira_sign ++ with_commas (quotient v 100) ++ b'.' ∷ two_digits (remainder v 100)

-- commaInt of internal/push/service.go, the same loop over a strings.Builder
unfoldable pub comma_int : ℤ → Bytes
unfolding commas
comma_int n = commas (format_int n)

-- formatNaira of internal/push/service.go: the kobo are left out where there are none
naira_and : Bytes → ℤ → Bytes
naira_and whole (pos zero) = naira_sign ++ whole
naira_and whole cents = naira_sign ++ whole ++ b'.' ∷ two_digits cents

unfoldable pub format_naira : ℤ → Bytes
unfolding naira_and
format_naira kobo = naira_and (comma_int (quotient kobo 100)) (remainder kobo 100)
