-- ===== src/Base/Calendar.antt =====
-- Python's `datetime` in UTC as the microseconds since datetime.min, 0001-01-01 00:00, a Monday;
-- `ord2ymd` is the algorithm of the standard library.
use Prim.Native.Nat.{ℕ, zero, suc, ◌+◌, ◌-◌, ◌*◌, ◌/◌, ◌%◌}
use mathlib.Core.Bool.{Bool, not, ◌&&◌, ◌||◌}
use personal_intelligence.Base.Tests.{ltb, eqb, if◌then◌else◌}

abbrev pub day : ℕ
day = 86400000000

abbrev pub hour : ℕ
hour = 3600000000

-- `weekday()`: Monday is 0.
unfoldable pub weekday : ℕ → ℕ
weekday t = t / day % 7

-- `replace(hour=h, minute=0, second=0, microsecond=0)`
unfoldable pub at_hour : ℕ → ℕ → ℕ
at_hour h t = t / day * day + h * hour

unfoldable pub is_leap : ℕ → Bool
is_leap y = eqb (y % 4) 0 && (not (eqb (y % 100) 0) || eqb (y % 400) 0)

unfoldable pub days_in_month : ℕ → ℕ → ℕ
unfolding is_leap
days_in_month y m =
    if eqb m 2
    then (if is_leap y then 29 else 28)
    else if ((eqb m 4 || eqb m 6) || eqb m 9) || eqb m 11
    then 30
    else 31

pub record Date : Type 0 where
  pub year : ℕ
  pub month : ℕ
  pub day_of_month : ℕ

-- The month of the year that holds a day, by the months' lengths; 12 months are enough.
unfoldable pub month_of : ℕ → ℕ → ℕ → ℕ → Date
unfolding days_in_month
month_of zero y m n = record { year = y; month = m; day_of_month = n + 1 }
month_of (suc left) y m n =
    let rest = month_of left y (m + 1) (n - days_in_month y m) in
    if ltb n (days_in_month y m) then record { year = y; month = m; day_of_month = n + 1 } else rest

-- The date of a day, counted from 0 for 0001-01-01.
unfoldable pub ord2ymd : ℕ → Date
unfolding month_of
ord2ymd n =
    let n400 = n % 146097 in
    let n100 = n400 % 36524 in
    let n4 = n100 % 1461 in
    let year = n / 146097 * 400 + n400 / 36524 * 100 + n100 / 1461 * 4 + n4 / 365 + 1 in
    let last_day : Date = record { year = year - 1; month = 12; day_of_month = 31 } in
    let found = month_of 11 year 1 (n4 % 365) in
    if eqb (n4 / 365) 4 || eqb (n400 / 36524) 4 then last_day else found

-- `(t.replace(day=28) + timedelta(days=4)).replace(day=1) - timedelta(days=1)`: 28 + 4 days reach the
-- next month, of which the first is the day after the month's last.
unfoldable pub end_of_month : ℕ → ℕ
unfolding ord2ymd
end_of_month t =
    let beyond = t + 28 * day - (ord2ymd (t / day)).day_of_month * day + 4 * day in
    beyond - (ord2ymd (beyond / day)).day_of_month * day
