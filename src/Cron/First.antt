-- ===== src/Cron/First.antt =====
-- cron.py: `next_after` against the occurrences of an expression.
use top.Base.{
  ℕ, zero, suc, ◌≡◌, refl, ◌∙◌, sym, ap, true, List, [], ◌∷◌, ◌+◌, ◌≤◌, ◌<◌, ◌⊎◌, inl, inr, arith,
  Option, some, Bool-cases, eq→==, ◌==◌, leb,
}
use mathlib.Core.Path.{subst}
use top.Contracts.{Text}
use top.Cron.Calendar.{Zone, date_of}
use top.Cron.Parse.{
  mem, CronExpression, CronError, Parsed, parsed, error, ◌>>=◌, parsed-injective, parse,
  Parsed-cases,
}
use top.Cron.Bounds.{InRange, parse-InRange}
use top.Cron.Next.{occurrences_on, min_of, earliest_or, search, next_after, max_days, timezone}
use top.Cron.Collect.{min_of-mem, min_of_least}
use top.Cron.Occurs.{
  Occurs, RoundTrips, occurrences_on-IsCandidate, occurrences_on_complete, not_listed,
}

abbrev pub local_date : Zone → ℕ → ℕ
local_date zone t = date_of (zone.to_local t).naive

-- The local date never goes back: no clock is set back over midnight.
abbrev pub KeepsDate : Zone → Type 0
KeepsDate zone = (t u : ℕ) → t ≤ u → local_date zone t ≤ local_date zone u

earliest_or_inverts :
    (ts : List ℕ) (later : Unit {0} → Parsed ℕ) {t : ℕ}
    → earliest_or ts later ≡ parsed t
    → ((ts ≡ []) × (later tt ≡ parsed t))
      ⊎ ((mem t ts ≡ true) × ((u : ℕ) → mem u ts ≡ true → t ≤ u))
earliest_or_inverts [] later found = inl (refl, found)
earliest_or_inverts (c ∷ cs) later {t} found =
    let same : min_of c cs ≡ t = parsed-injective found in
    inr (
      subst (λ x. mem x (c ∷ cs) ≡ true) same (min_of-mem c cs),
      λ u member. subst (λ x. x ≤ u) same (min_of_least c u cs member),
    )

earliest_or_error :
    (ts : List ℕ) (later : Unit {0} → Parsed ℕ) {e : CronError}
    → earliest_or ts later ≡ error e
    → (ts ≡ []) × (later tt ≡ error e)
earliest_or_error [] later failed = (refl, failed)
earliest_or_error (c ∷ cs) later failed = cc

module _ (zone : Zone) (now : ℕ) (e : CronExpression) where
  search-Occurs :
      (days d t : ℕ) → InRange e → search zone now e days d ≡ parsed t → (now < t) × Occurs zone e t
  unfolding search
  search-Occurs zero d t valid found = cc
  search-Occurs (suc days) d t valid found =
      elim (earliest_or_inverts (occurrences_on zone now e d) _ found) [
        | inl (missing, later) ↦ search-Occurs days (d + 1) t valid later
        | inr (member, least) ↦
            let candidate = occurrences_on-IsCandidate zone now e d t valid member in
            (candidate.later, candidate.occurs)
      ]

  listed_on :
      (d u : ℕ)
      → RoundTrips zone
      → now < u
      → Occurs zone e u
      → (local_date zone u == d) ≡ true
      → mem u (occurrences_on zone now e d) ≡ true
  listed_on d u trips after occurs today =
      subst (λ x. mem u (occurrences_on zone now e x) ≡ true) (eq→== (local_date zone u) d today)
        (occurrences_on_complete zone now e u trips after occurs)

  -- A day without candidates has no occurrence.
  past_day :
      (d u : ℕ)
      → RoundTrips zone
      → occurrences_on zone now e d ≡ []
      → now < u
      → Occurs zone e u
      → d ≤ local_date zone u
      → d + 1 ≤ local_date zone u
  past_day d u trips missing after occurs from_day = elim (Bool-cases (local_date zone u == d)) [
    | inl today ↦
        absurd (not_listed u (ap (mem u) (sym missing) ∙ listed_on d u trips after occurs today))
    | inr other ↦ ground (arith, other)
  ]

  search_least :
      (days d t u : ℕ)
      → InRange e
      → RoundTrips zone
      → KeepsDate zone
      → search zone now e days d ≡ parsed t
      → now < u
      → Occurs zone e u
      → d ≤ local_date zone u
      → t ≤ u
  unfolding search
  search_least zero d t u valid trips keeps found after occurs from_day = cc
  search_least (suc days) d t u valid trips keeps found after occurs from_day =
      elim (earliest_or_inverts (occurrences_on zone now e d) _ found) [
        | inl (missing, later) ↦
            search_least days (d + 1) t u valid trips keeps later after occurs
              (past_day d u trips missing after occurs from_day)
        | inr (member, least) ↦ elim (Bool-cases (local_date zone u == d)) [
          | inl today ↦ least u (listed_on d u trips after occurs today)
          | inr other ↦
              let here = (occurrences_on-IsCandidate zone now e d t valid member).on_date in
              elim (Bool-cases (leb t u)) [
                | inl ordered ↦ ground (arith, ordered)
                | inr reversed ↦ let back = keeps u t (ground arith) in ground (arith, here, back)
              ]
        ]
      ]

  search_error :
      (days d u : ℕ) {failure : CronError}
      → RoundTrips zone
      → search zone now e days d ≡ error failure
      → now < u
      → Occurs zone e u
      → d ≤ local_date zone u
      → d + days ≤ local_date zone u
  unfolding search
  search_error zero d u trips failed after occurs from_day = ground arith
  search_error (suc days) d u trips failed after occurs from_day =
      let (missing, later) = earliest_or_error (occurrences_on zone now e d) _ failed in
      let next = past_day d u trips missing after occurs from_day in
      let rest = search_error days (d + 1) u trips later after occurs next in omega arith

timezone_known :
    (zone_info : Text → Option Zone) (name : Text) (zone : Zone)
    → zone_info name ≡ some zone
    → timezone zone_info name ≡ parsed zone
unfolding timezone
timezone_known zone_info name zone known = rw (known, timezone) refl

next_after_known :
    (zone_info : Text → Option Zone) (zone : Zone) (name : Text) (e : CronExpression) (now : ℕ)
    → zone_info name ≡ some zone
    → next_after zone_info e now name ≡ search zone now e max_days (local_date zone now)
unfolding next_after
next_after_known zone_info zone name e now known =
    ap (λ z. z >>= λ x. search x now e max_days (local_date x now))
      (timezone_known zone_info name zone known)

-- What `next_after` returns for a parsed expression is a later instant that the expression names: on a
-- whole minute of the local clock, at a minute, an hour and a date that the fields select. This holds in
-- every zone.
pub next_after-Occurs :
    (zone_info : Text → Option Zone) (zone : Zone) (name expression : Text) (e : CronExpression)
    (now t : ℕ)
    → parse expression ≡ parsed e
    → zone_info name ≡ some zone
    → next_after zone_info e now name ≡ parsed t
    → (now < t) × Occurs zone e t
next_after-Occurs zone_info zone name expression e now t parses known found =
    search-Occurs zone now e max_days (local_date zone now) t (parse-InRange expression e parses)
      (sym (next_after_known zone_info zone name e now known) ∙ found)

-- If a parsed expression names a later instant whose local date is less than 2,930 days away, then
-- `next_after` returns an instant, and one that is not after it. The zone's instants must be found again
-- from their local time, and its local date must never go back.
pub next_after_first :
    (zone_info : Text → Option Zone) (zone : Zone) (name expression : Text) (e : CronExpression)
    (now u : ℕ)
    → parse expression ≡ parsed e
    → zone_info name ≡ some zone
    → RoundTrips zone
    → KeepsDate zone
    → now < u
    → Occurs zone e u
    → local_date zone u < local_date zone now + max_days
    → (t : ℕ) × (next_after zone_info e now name ≡ parsed t) × (t ≤ u)
next_after_first zone_info zone name expression e now u parses known trips keeps after occurs near =
    let today = local_date zone now in
    let from_day = keeps now u (omega arith) in
    elim (Parsed-cases (search zone now e max_days today)) [
      | inl (t, found) ↦ (
        t,
        next_after_known zone_info zone name e now known ∙ found,
        search_least zone now e max_days today t u (parse-InRange expression e parses) trips keeps
            found after occurs from_day,
      )
      | inr (failure, failed) ↦
          let far = search_error zone now e max_days today u trips failed after occurs from_day in
          absurd (ground (arith, far, near))
    ]
