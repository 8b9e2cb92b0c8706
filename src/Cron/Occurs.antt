-- ===== src/Cron/Occurs.antt =====
-- cron.py: the instants that an expression names in a zone, described by the reading of the local
-- clock, and the candidates of a day.
use top.Base.{
  ℕ, ◌≡◌, ◌≢◌, ◌∙◌, sym, ap, true, [], ◌∷◌, ◌≤◌, ◌<◌, ◌/◌, ◌%◌, any, Bool-cases, inl, inr, arith,
}
use mathlib.Core.Path.{subst}
use top.Contracts.{seconds}
use top.Cron.Calendar.{Zone, date_of, combine}
use top.Cron.Parse.{mem, CronExpression}
use top.Cron.Selects.{IsFieldOf}
use top.Cron.Bounds.{InRange}
use top.Cron.Next.{candidate_at, candidates_on, occurrences_on, date_matches}
use top.Cron.Collect.{collect_inverts, collect_complete}

abbrev pub hour_of : ℕ → ℕ
hour_of naive = naive / seconds 3600 % 24

abbrev pub minute_of : ℕ → ℕ
minute_of naive = naive / seconds 60 % 60

-- The expression names the instant `t`: a whole minute of the local clock, whose date, hour and minute
-- the fields select.
pub record Occurs (zone : Zone) (e : CronExpression) (t : ℕ) : Type 0 where
  pub whole : (zone.to_local t).naive % seconds 60 ≡ 0
  pub on_date : date_matches e (date_of (zone.to_local t).naive) ≡ true
  pub on_hour : mem (hour_of (zone.to_local t).naive) e.hour.values ≡ true
  pub on_minute : mem (minute_of (zone.to_local t).naive) e.minute.values ≡ true

candidate_at_inverts :
    (zone : Zone) (now n f t : ℕ)
    → mem t (candidate_at zone now n f) ≡ true
    → (now < t) × ((zone.to_local t).naive ≡ n) × ((zone.to_local t).fold ≡ f)
unfolding candidate_at any
candidate_at_inverts zone now n f t member = ground arith

candidate_at_complete :
    (zone : Zone) (now t : ℕ)
    → zone.to_utc (zone.to_local t) ≡ t
    → now < t
    → mem t (candidate_at zone now (zone.to_local t).naive (zone.to_local t).fold) ≡ true
unfolding candidate_at any
candidate_at_complete zone now t trip later = rw trip (ground arith)

pub record IsCandidate (zone : Zone) (now : ℕ) (e : CronExpression) (date t : ℕ) : Type 0 where
  pub later : now < t
  pub on_date : date_of (zone.to_local t).naive ≡ date
  pub occurs : Occurs zone e t

combine_date : (d h m : ℕ) → h ≤ 23 → m ≤ 59 → date_of (combine d h m) ≡ d
combine_date d h m hour minute = omega arith

combine_hour : (d h m : ℕ) → h ≤ 23 → m ≤ 59 → hour_of (combine d h m) ≡ h
combine_hour d h m hour minute = omega arith

combine_minute : (d h m : ℕ) → h ≤ 23 → m ≤ 59 → minute_of (combine d h m) ≡ m
combine_minute d h m hour minute = omega arith

combine_whole : (d h m : ℕ) → combine d h m % seconds 60 ≡ 0
combine_whole d h m = omega arith

combine_clock :
    (naive : ℕ)
    → naive % seconds 60 ≡ 0
    → combine (date_of naive) (hour_of naive) (minute_of naive) ≡ naive
combine_clock naive whole = omega arith

clock-IsCandidate :
    (zone : Zone) (now : ℕ) (e : CronExpression) (d h m t : ℕ)
    → InRange e
    → date_matches e d ≡ true
    → mem h e.hour.values ≡ true
    → mem m e.minute.values ≡ true
    → now < t
    → (zone.to_local t).naive ≡ combine d h m
    → IsCandidate zone now e d t
unfolding IsFieldOf
clock-IsCandidate zone now e d h m t valid on_date on_hour on_minute later local =
    let hour = (valid.hour.0 h on_hour).1 in
    let minute = (valid.minute.0 m on_minute).1 in
    record {
      later = later;
      on_date = ap date_of local ∙ combine_date d h m hour minute;
      occurs = record {
        whole = ap (λ n. n % seconds 60) local ∙ combine_whole d h m;
        on_date =
            ap (λ n. date_matches e (date_of n)) local
            ∙ ap (date_matches e) (combine_date d h m hour minute)
            ∙ on_date;
        on_hour =
            ap (λ n. mem (hour_of n) e.hour.values) local
            ∙ ap (λ n. mem n e.hour.values) (combine_hour d h m hour minute)
            ∙ on_hour;
        on_minute =
            ap (λ n. mem (minute_of n) e.minute.values) local
            ∙ ap (λ n. mem n e.minute.values) (combine_minute d h m hour minute)
            ∙ on_minute;
      };
    }

pub not_listed : (t : ℕ) → mem t [] ≢ true
unfolding any
not_listed t member = cc

pub occurrences_on-IsCandidate :
    (zone : Zone) (now : ℕ) (e : CronExpression) (d t : ℕ)
    → InRange e
    → mem t (occurrences_on zone now e d) ≡ true
    → IsCandidate zone now e d t
unfolding occurrences_on candidates_on
occurrences_on-IsCandidate zone now e d t valid member = elim (Bool-cases (date_matches e d)) [
  | inl matches ↦
      let (h, on_hour, of_hour) = collect_inverts _ t e.hour.values (rw matches at member) in
      let (m, on_minute, of_minute) = collect_inverts _ t e.minute.values of_hour in
      let (fold, of_folds, found) =
        collect_inverts (candidate_at zone now (combine d h m)) t (0 ∷ 1 ∷ []) of_minute in
      let (later, local, of_fold) = candidate_at_inverts zone now (combine d h m) fold t found in
      clock-IsCandidate zone now e d h m t valid matches on_hour on_minute later local
  | inr other ↦ absurd (not_listed t (rw other at member))
]

-- A zone of the IANA data base: each instant has a reading of the clock, which leads back to it.
pub record RoundTrips (zone : Zone) : Type 0 where
  pub back : (t : ℕ) → zone.to_utc (zone.to_local t) ≡ t
  pub folds : (t : ℕ) → (zone.to_local t).fold ≤ 1

fold_listed : (fold : ℕ) → fold ≤ 1 → mem fold (0 ∷ 1 ∷ []) ≡ true
unfolding any
fold_listed fold small = ground arith

pub occurrences_on_complete :
    (zone : Zone) (now : ℕ) (e : CronExpression) (t : ℕ)
    → RoundTrips zone
    → now < t
    → Occurs zone e t
    → mem t (occurrences_on zone now e (date_of (zone.to_local t).naive)) ≡ true
unfolding occurrences_on candidates_on
occurrences_on_complete zone now e t trips later occurs =
    let naive = (zone.to_local t).naive in
    rw occurs.on_date (
      collect_complete _ t (hour_of naive) e.hour.values occurs.on_hour (
        collect_complete _ t (minute_of naive) e.minute.values occurs.on_minute (
          collect_complete
            (candidate_at zone now (combine (date_of naive) (hour_of naive) (minute_of naive))) t
            (zone.to_local t).fold (0 ∷ 1 ∷ []) (fold_listed _ (trips.folds t))
            (subst (λ n. mem t (candidate_at zone now n (zone.to_local t).fold) ≡ true)
              (sym (combine_clock naive occurs.whole))
              (candidate_at_complete zone now t (trips.back t) later)))))
