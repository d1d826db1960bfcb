-- ===== src/Base/Calendar.antt =====
-- Dates in UTC, as JavaScript's `Date` reads and prints them, for times from 1970 on.
use Prim.Native.Nat.{ℕ, zero, suc, ◌+◌, ◌-◌, ◌*◌, ◌/◌, ◌%◌, compare, Ordering}
use Prim.Native.String.{String, ◌++◌, slice}
use mathlib.Core.Bool.{Bool, true, false, cond}

-- Milliseconds in a day.
abbrev pub day_ms : ℕ
day_ms = 86_400_000

pub record Civil : Type 0 where
  pub year : ℕ
  pub month : ℕ
  pub day : ℕ

abbrev is_below : ℕ → ℕ → Bool
is_below a b = elim (compare a b) [ Ordering.lt ↦ true | _ ↦ false ]

-- The date of a day counted from 1970-01-01, by eras of 400 years that begin in March.
unfoldable pub civil_of_days : ℕ → Civil
civil_of_days days =
    let z = days + 719_468 in
    let era = z / 146_097 in
    let doe = z % 146_097 in
    let yoe = (doe - doe / 1_460 + doe / 36_524 - doe / 146_096) / 365 in
    let doy = doe - (365 * yoe + yoe / 4 - yoe / 100) in
    let mp = (5 * doy + 2) / 153 in
    let month = cond (is_below mp 10) (mp + 3) (mp - 9) in
    record {
      year = cond (is_below month 3) (yoe + era * 400 + 1) (yoe + era * 400);
      month = month;
      day = doy - (153 * mp + 2) / 5 + 1;
    }

-- The day of a date, counted from 1970-01-01; a day past the month's end runs on.
unfoldable pub days_of_civil : Civil → ℕ
days_of_civil c =
    let y = cond (is_below c.month 3) (c.year - 1) c.year in
    let mp = cond (is_below c.month 3) (c.month + 9) (c.month - 3) in
    let yoe = y % 400 in
    let doy = (153 * mp + 2) / 5 + c.day - 1 in
    (y / 400) * 146_097 + (yoe * 365 + yoe / 4 - yoe / 100 + doy) - 719_468

-- The same date and time of the next year (`setFullYear(getFullYear() + 1)`).
unfoldable pub next_year : ℕ → ℕ
unfolding civil_of_days days_of_civil
next_year t =
    let c = civil_of_days (t / day_ms) in
    days_of_civil (record c { year = c.year + 1 }) * day_ms + t % day_ms

-- `setDate(getDate() + n)`
abbrev pub add_days : ℕ → ℕ → ℕ
add_days n t = t + n * day_ms

abbrev pub digit : ℕ → String
digit n = slice "0123456789" n (n + 1)

-- The last digits of a number.
abbrev pub two_digits : ℕ → String
two_digits n = digit (n / 10 % 10) ++ digit (n % 10)

abbrev pub four_digits : ℕ → String
four_digits n = two_digits (n / 100) ++ two_digits n

-- `toISOString().slice(0, 10)`, up to the year 9999
unfoldable pub iso_date : ℕ → String
unfolding civil_of_days
iso_date t =
    let c = civil_of_days (t / day_ms) in
    four_digits c.year ++ "-" ++ two_digits c.month ++ "-" ++ two_digits c.day

-- The digits of a number above the last four, on fuel; `n` is enough for `n`.
abbrev leading : ℕ → ℕ → String
leading zero n = ""
leading (suc fuel) zero = ""
leading (suc fuel) (suc n) = leading fuel (suc n / 10) ++ digit (suc n % 10)

-- `String(n).padStart(4, '0')`
abbrev pub pad_start_four : ℕ → String
pad_start_four n = leading (n / 10_000) (n / 10_000) ++ four_digits n

-- `String(n)` of a number that is not zero.
abbrev pub decimal : ℕ → String
decimal n = leading n n
