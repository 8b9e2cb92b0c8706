-- ===== src/Cron/Next.antt =====
-- cron.py: `CronExpression._date_matches` and `CronExpression.next_after`. `zone_info` is
-- `zoneinfo.ZoneInfo`, which knows no zone of an unknown name; every stored instant is in UTC, which
-- a naive one is taken for.
use top.Base.{
  ℕ, zero, suc, Bool, true, false, not, ◌&&◌, ◌||◌, Option, none, some, List, [], ◌∷◌, ◌++◌, ◌+◌,
  ◌%◌, ◌==◌, ltb, if◌then◌else◌,
}
use top.Contracts.{Text}
use top.Cron.Parse.{CronError, Parsed, parsed, error, ◌>>=◌, CronExpression, mem}
use top.Cron.Calendar.{month_day, weekday, date_of, combine, Zone}

unfoldable pub date_matches : CronExpression → ℕ → Bool
unfolding month_day
date_matches self candidate =
    let civil = month_day candidate in
    let day_match = mem civil.day self.day_of_month.values in
    let cron_weekday = (weekday candidate + 1) % 7 in
    let weekday_match = mem cron_weekday self.day_of_week.values in
    if not (mem civil.month self.month.values)
    then false
    else if self.day_of_month.wildcard && self.day_of_week.wildcard
    then true
    else if self.day_of_month.wildcard
    then weekday_match
    else if self.day_of_week.wildcard
    then day_match
    else day_match || weekday_match

-- A `for` loop that collects what its body appends.
unfoldable pub collect : (ℕ → List ℕ) → List ℕ → List ℕ
collect body [] = []
collect body (x ∷ xs) = body x ++ collect body xs

module _ (zone : Zone) (utc_instant : ℕ) where
  unfoldable pub candidate_at : ℕ → ℕ → List ℕ
  candidate_at local_naive fold =
      let candidate = zone.to_utc (record { naive = local_naive; fold = fold }) in
      let round_trip = zone.to_local candidate in
      if not (round_trip.naive == local_naive) || not (round_trip.fold == fold)
      then []
      else if ltb utc_instant candidate
      then candidate ∷ []
      else []

  -- The loops over the hours, the minutes and the folds of a date.
  unfoldable pub candidates_on : CronExpression → ℕ → List ℕ
  unfolding candidate_at collect
  candidates_on self local_date =
      collect
        (λ hour.
          collect (λ minute. collect (candidate_at (combine local_date hour minute)) (0 ∷ 1 ∷ []))
            self.minute.values)
        self.hour.values

  unfoldable pub occurrences_on : CronExpression → ℕ → List ℕ
  unfolding date_matches candidates_on
  occurrences_on self local_date =
      if date_matches self local_date then candidates_on self local_date else []

-- `min(c ∷ cs)`.
unfoldable pub min_of : ℕ → List ℕ → ℕ
min_of c [] = c
min_of c (d ∷ ds) = min_of (if ltb d c then d else c) ds

-- The rest of the search is computed only for a day of no candidate.
abbrev pub earliest_or : List ℕ → (Unit {0} → Parsed ℕ) → Parsed ℕ
earliest_or [] later = later tt
earliest_or (c ∷ cs) later = parsed (min_of c cs)

-- The loop over the days, of which the first argument says how many are left.
unfoldable pub search : Zone → ℕ → CronExpression → ℕ → ℕ → Parsed ℕ
unfolding occurrences_on min_of
search zone utc_instant self zero local_date = error CronError.no_occurrence
search zone utc_instant self (suc days) local_date =
    earliest_or (occurrences_on zone utc_instant self local_date)
      (λ _. search zone utc_instant self days (local_date + 1))

abbrev pub max_days : ℕ
max_days = 2930

unfoldable pub timezone : (Text → Option Zone) → Text → Parsed Zone
timezone zone_info name = elim (zone_info name) [
  | none ↦ error CronError.unknown_timezone
  | some zone ↦ parsed zone
]

unfoldable pub next_after : (Text → Option Zone) → CronExpression → ℕ → Text → Parsed ℕ
unfolding timezone search
next_after zone_info self instant timezone_name = do
  zone ← timezone zone_info timezone_name
  search zone instant self max_days (date_of (zone.to_local instant).naive)

unfoldable pub validate_timezone : (Text → Option Zone) → Text → Parsed Text
unfolding timezone
validate_timezone zone_info name = timezone zone_info name >>= λ zone. parsed name
