-- ===== src/Kyc/Calendar.antt =====
-- time.Time.AddDate(-13, 0, 0), for times in nanoseconds from Go's zero time, the first of January of
-- the year 1. Go moves the year and keeps the month, the day and the clock; a 29th of February becomes
-- the 1st of March.
use echopay.Common.{
  ℕ, suc, ◌+◌, ◌*◌, ◌-◌, ◌/◌, ◌%◌, Bool, not, ◌&&◌, ◌||◌, ◌==◌, leb, if◌then◌else◌,
}

abbrev pub day : ℕ
day = 86_400_000_000_000

abbrev pub is_leap : ℕ → Bool
is_leap year = year % 4 == 0 && (not (year % 100 == 0) || year % 400 == 0)

-- the days from the zero time to the first of January of a year
abbrev pub days_before : ℕ → ℕ
days_before year = let p = year - 1 in 365 * p + p / 4 - p / 100 + p / 400

-- The year of a day and the day within it, from 0: 400, 100, 4 and 1 years are cut off one after the
-- other, and the last day of 4 centuries or of 4 years belongs to the year before.
abbrev within_four : ℕ → ℕ → ℕ × ℕ
within_four year d = let n = d / 365 - d / 365 / 4 in (year + n, d - 365 * n)

abbrev within_century : ℕ → ℕ → ℕ × ℕ
within_century year d = within_four (year + 4 * (d / 1461)) (d % 1461)

abbrev within_four_centuries : ℕ → ℕ → ℕ × ℕ
within_four_centuries year d =
    let n = d / 36_524 - d / 36_524 / 4 in within_century (year + 100 * n) (d - 36_524 * n)

abbrev pub date_of : ℕ → ℕ × ℕ
date_of d = within_four_centuries (1 + 400 * (d / 146_097)) (d % 146_097)

-- the day within another year of the same month and day
abbrev pub moved : ℕ → ℕ → ℕ → ℕ
moved from to yday =
    let common = if is_leap from && leb 60 yday then yday - 1 else yday in
    if is_leap to && leb 59 common then suc common else common

-- 0 stands for every time before the zero time
unfoldable pub thirteen_years_before : ℕ → ℕ
thirteen_years_before t =
    let (year, yday) = date_of (t / day) in
    if leb year 13
    then 0
    else (days_before (year - 13) + moved year (year - 13) yday) * day + t % day
