-- ===== src/Cron/Calendar.antt =====
-- The calls of `datetime` that cron.py makes. A date is its ordinal (`date.toordinal`: 1 is the first
-- day of the year 1); a naive local time and a UTC instant are microseconds since the start of the
-- day of ordinal 0. Years up to 9999 are dates of Python.
use top.Base.{
  ℕ, zero, suc, Bool, not, ◌&&◌, ◌||◌, ◌+◌, ◌-◌, ◌*◌, ◌/◌, ◌%◌, ◌==◌, ltb, if◌then◌else◌,
}
use top.Contracts.{seconds}

pub record MonthDay : Type 0 where
  pub month : ℕ
  pub day : ℕ

abbrev pub day_length : ℕ
day_length = 86400000000

abbrev pub days_in_month : Bool → ℕ → ℕ
days_in_month leap m =
    if m == 2
    then (if leap then 29 else 28)
    else if (m == 4) || (m == 6) || (m == 9) || (m == 11)
    then 30
    else 31

-- The month and the day of the `n`-th day of a year, counted from 0, from month `m` on; the first
-- argument bounds the months.
unfoldable pub find_month : ℕ → Bool → ℕ → ℕ → MonthDay
find_month zero leap m n = record { month = m; day = n + 1 }
find_month (suc left) leap m n =
    let length = days_in_month leap m in
    let later = find_month left leap (m + 1) (n - length) in
    if ltb n length then record { month = m; day = n + 1 } else later

-- `date.fromordinal`, by cycles of 400, 100, 4 years and 1 year.
unfoldable pub month_day : ℕ → MonthDay
unfolding find_month
month_day date =
    let n = date - 1 in
    let n400 = n % 146097 in
    let n100 = n400 % 36524 in
    let n4 = n100 % 1461 in
    let centuries = n400 / 36524 in
    let years = n4 / 365 in
    if (years == 4) || (centuries == 4)
    then record { month = 12; day = 31 }
    else find_month 11 ((years == 3) && (not (n100 / 1461 == 24) || (centuries == 3))) 1 (n4 % 365)

-- `date.weekday`, where Monday is 0.
abbrev pub weekday : ℕ → ℕ
weekday date = (date + 6) % 7

-- `naive.date()`.
abbrev pub date_of : ℕ → ℕ
date_of naive = naive / day_length

-- `datetime.combine(date, time(hour=hour, minute=minute))`.
abbrev pub combine : ℕ → ℕ → ℕ → ℕ
combine date hour minute = date * day_length + hour * seconds 3600 + minute * seconds 60

-- A local time: its naive value, and the `fold` that tells two readings of the clock apart.
pub record Local : Type 0 where
  pub naive : ℕ
  pub fold : ℕ

-- A `ZoneInfo`, as the conversions that it gives to `astimezone`: from UTC and to UTC.
pub record Zone : Type 0 where
  pub to_local : ℕ → Local
  pub to_utc : Local → ℕ
