-- ===== src/Cron/Samples.antt =====
-- Expressions, and two zones: in the first the clock is set back at noon from 13:00 to 12:00, in the
-- second at 00:01 from 00:01 to 23:01 of the day before, as in Newfoundland from 1987 to 2011.
use top.Base.{
  ℕ, ◌≤◌, ◌≡◌, refl, true, false, List, [], ◌∷◌, ◌+◌, ◌-◌, ◌<◌, ◌&&◌, ltb, if◌then◌else◌, arith,
  Option, some, ◌==◌, any, select, count_where,
}
use top.Contracts.{Text, seconds, text_eq}
use top.Cron.Text.{partition, int, split}
use top.Cron.Calendar.{Zone, combine, month_day, weekday}
use top.Cron.Parse.{
  CronExpression, CronField, parsed, error, CronError, insert_value, parse, parse_field,
  normalize_cron_expression, mem,
}
use top.Cron.Next.{next_after, date_matches}
use top.Cron.Occurs.{Occurs, RoundTrips}
use top.Cron.First.{KeepsDate, next_after-Occurs, next_after_first}
use top.Cron.Bounds.{InRange, parse-InRange}
use top.Cron.Selects.{selects, parse_field-mem}
use top.Cron.Normal.{parse-normalize}

-- The clock is an hour ahead of UTC until the instant `change`, and then it is UTC.
abbrev set_back : ℕ → Zone
set_back change = record {
  to_local = λ t.
      if ltb t change
      then record { naive = t + seconds 3600; fold = 0 }
      else record { naive = t; fold = if ltb t (change + seconds 3600) then 1 else 0 };
  to_utc = λ local.
      if ltb local.naive change
      then local.naive - seconds 3600
      else if ltb local.naive (change + seconds 3600) && (local.fold == 0)
      then local.naive - seconds 3600
      else local.naive;
}

-- The ordinal of 2026-11-01.
abbrev sunday : ℕ
sunday = 739921

sunday-month_day : month_day sunday ≡ record { month = 11; day = 1 }
unfolding month_day
sunday-month_day = refl

sunday-weekday : weekday sunday ≡ 6
sunday-weekday = refl

abbrev noon_zone : Zone
noon_zone = set_back (combine sunday 12 0)

noon_zone-RoundTrips : RoundTrips noon_zone
noon_zone-RoundTrips = record { back = λ t. ground arith; folds = λ t. ground arith }

noon_zone-KeepsDate : KeepsDate noon_zone
noon_zone-KeepsDate t u ordered = ground arith

-- " 15,45  12-13 * * 0-7/7 ": a quarter past and a quarter to, at noon and at one, on Sundays.
abbrev quarters : Text
quarters =
    b' ' ∷ b'1' ∷ b'5' ∷ b',' ∷ b'4' ∷ b'5' ∷ b' ' ∷ b' ' ∷ b'1' ∷ b'2' ∷ b'-' ∷ b'1' ∷ b'3' ∷ b' '
    ∷ b'*' ∷ b' ' ∷ b'*' ∷ b' ' ∷ b'0' ∷ b'-' ∷ b'7' ∷ b'/' ∷ b'7' ∷ b' ' ∷ []

abbrev every : List ℕ → CronField
every values = record { values = values; wildcard = true }

abbrev only : List ℕ → CronField
only values = record { values = values; wildcard = false }

abbrev stored : Text
stored =
    b'1' ∷ b'5' ∷ b',' ∷ b'4' ∷ b'5' ∷ b' ' ∷ b'1' ∷ b'2' ∷ b'-' ∷ b'1' ∷ b'3' ∷ b' ' ∷ b'*' ∷ b' '
    ∷ b'*' ∷ b' ' ∷ b'0' ∷ b'-' ∷ b'7' ∷ b'/' ∷ b'7' ∷ []

abbrev quarters_expression : CronExpression
quarters_expression = record {
  expression = stored;
  minute = only (15 ∷ 45 ∷ []);
  hour = only (12 ∷ 13 ∷ []);
  day_of_month = every (
      1 ∷ 2 ∷ 3 ∷ 4 ∷ 5 ∷ 6 ∷ 7 ∷ 8 ∷ 9 ∷ 10 ∷ 11 ∷ 12 ∷ 13 ∷ 14 ∷ 15 ∷ 16 ∷ 17 ∷ 18 ∷ 19 ∷ 20 ∷ 21
      ∷ 22 ∷ 23 ∷ 24 ∷ 25 ∷ 26 ∷ 27 ∷ 28 ∷ 29 ∷ 30 ∷ 31 ∷ []);
  month = every (1 ∷ 2 ∷ 3 ∷ 4 ∷ 5 ∷ 6 ∷ 7 ∷ 8 ∷ 9 ∷ 10 ∷ 11 ∷ 12 ∷ []);
  day_of_week = only (0 ∷ []);
}

quarters_parsed : parse quarters ≡ parsed quarters_expression
unfolding parse select count_where partition text_eq int insert_value
quarters_parsed = refl

stored_parsed : parse stored ≡ parsed quarters_expression
unfolding parse select count_where partition text_eq int insert_value
stored_parsed = refl

abbrev noon_info : Text → Option Zone
noon_info name = some noon_zone

-- 11:50 UTC is 12:50; the next quarter is 12:15 of the second reading, before 13:15.
before_noon :
    next_after noon_info quarters_expression (combine sunday 11 50) []
    ≡ parsed (combine sunday 12 15)
unfolding next_after any
before_noon = refl

-- 12:15 of the second reading.
abbrev second_quarter : ℕ
second_quarter = combine sunday 12 15

second_quarter-Occurs : Occurs noon_zone quarters_expression second_quarter
unfolding any month_day date_matches
second_quarter-Occurs = record { whole = refl; on_date = refl; on_hour = refl; on_minute = refl }

next_after-Occurs_example :
    (combine sunday 11 50 < second_quarter) × Occurs noon_zone quarters_expression second_quarter
next_after-Occurs_example =
    next_after-Occurs noon_info noon_zone [] quarters quarters_expression (combine sunday 11 50)
      second_quarter quarters_parsed refl before_noon

next_after_first_example :
    (t : ℕ) × (next_after noon_info quarters_expression (combine sunday 11 50) [] ≡ parsed t)
    × (t ≤ second_quarter)
next_after_first_example =
    next_after_first noon_info noon_zone [] quarters quarters_expression (combine sunday 11 50)
      second_quarter quarters_parsed refl noon_zone-RoundTrips noon_zone-KeepsDate (omega arith)
      second_quarter-Occurs (omega arith)

parse-InRange_example : InRange quarters_expression
parse-InRange_example = parse-InRange quarters quarters_expression quarters_parsed

parse-normalize_example :
    (parse stored ≡ parsed quarters_expression) × (normalize_cron_expression stored ≡ parsed stored)
parse-normalize_example = parse-normalize quarters quarters_expression quarters_parsed

-- "15,45" selects 45.
abbrev two_minutes : Text
two_minutes = b'1' ∷ b'5' ∷ b',' ∷ b'4' ∷ b'5' ∷ []

two_minutes_parsed : parse_field 0 59 two_minutes ≡ parsed (only (15 ∷ 45 ∷ []))
unfolding parse_field count_where partition text_eq int insert_value
two_minutes_parsed = refl

parse_field-mem_example : mem 45 (15 ∷ 45 ∷ []) ≡ any (selects 0 59 45) (split b',' two_minutes)
parse_field-mem_example =
    parse_field-mem 0 59 45 two_minutes (only (15 ∷ 45 ∷ [])) (omega arith) two_minutes_parsed

-- The errors of the parser.
abbrev Failing : Text → CronError → Type 0
Failing raw failure = parse_field 1 31 raw ≡ error failure

no_field : Failing [] CronError.empty_field
unfolding parse_field
no_field = refl

zero_step : Failing (b'*' ∷ b'/' ∷ b'0' ∷ []) CronError.step_not_positive
unfolding parse_field count_where partition text_eq int
zero_step = refl

reversed : Failing (b'5' ∷ b'-' ∷ b'2' ∷ []) CronError.reversed_range
unfolding parse_field count_where partition text_eq int
reversed = refl

too_large : Failing (b'3' ∷ b'2' ∷ []) CronError.out_of_range
unfolding parse_field count_where partition text_eq int
too_large = refl

-- A clock that is set back over midnight: at 00:01 of the second to 23:01 of the first.
abbrev midnight_zone : Zone
midnight_zone = set_back (combine sunday 23 1)

-- At 23:30 of every day.
abbrev nightly : CronExpression
nightly = record {
  expression = [];
  minute = only (30 ∷ []);
  hour = only (23 ∷ []);
  day_of_month = quarters_expression.day_of_month;
  month = quarters_expression.month;
  day_of_week = every (0 ∷ []);
}

-- Thirty seconds past midnight, before the change: 23:30 is read again half an hour later.
second_reading : Occurs midnight_zone nightly (combine sunday 23 30)
unfolding any month_day date_matches
second_reading = record { whole = refl; on_date = refl; on_hour = refl; on_minute = refl }

-- The search starts at the date of the first reading, and finds 23:30 of the next day.
missed :
    next_after (λ name. some midnight_zone) nightly (combine sunday 23 0 + seconds 30) []
    ≡ parsed (combine (sunday + 1) 23 30)
unfolding next_after any
missed = refl
