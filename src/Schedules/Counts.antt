-- ===== src/Schedules/Counts.antt =====
-- schedule_services.py: the counts of `process_due_schedules`, and the firings over its loop.
use top.Base.{
  ℕ, ◌≡◌, refl, ◌∙◌, ◌&&◌, ◌≤◌, ◌+◌, Option, some, List, [], ◌∷◌, first, length, map, limit,
  order_by, select, length-limit, Bool-cases, Option-cases, inl, inr, arith, leb,
}
use mathlib.Core.Path.{subst}
use top.Contracts.{Text}
use top.Cron.Parse.{Parsed, parsed, error, parse, call_parsed, parsed-injective}
use top.Cron.Calendar.{Zone}
use top.Cron.Next.{next_after}
use top.Schedules.Rows.{Schedule, ScheduleStore}
use top.Schedules.Process.{
  RunCreation, Outcome, has_id, due_at, due_turn, process_row, process_due_schedule,
}
use top.Schedules.Pass.{
  DispatchSummary, is_due_schedule, fires_before, due_schedules, count_outcome, after_call,
  process_ids, process_due_schedules,
}
use top.Schedules.Once.{FiresOnce, fire-FiresOnce}

abbrev pub counted : DispatchSummary → ℕ
counted u = u.triggered + u.skipped + u.blocked + u.failed

count_outcome_step :
    (outcome : Outcome) (u : DispatchSummary)
    → (counted (count_outcome outcome u) ≤ counted u + 1)
      × ((count_outcome outcome u).selected ≡ u.selected)
unfolding count_outcome
count_outcome_step Outcome.ignored u = (omega arith, refl)
count_outcome_step Outcome.skipped u = (omega arith, refl)
count_outcome_step Outcome.blocked u = (omega arith, refl)
count_outcome_step Outcome.triggered u = (omega arith, refl)

module _ {S : Type 0} (runs : RunCreation S) (zone_info : Text → Option Zone) (moment : ℕ) where
  row-FiresOnce :
      (firing_id : ℕ) (r : Schedule) (at : ℕ) (s t : ScheduleStore S) (outcome : Outcome)
      → FiresOnce s.firings
      → process_row runs zone_info moment firing_id r at s ≡ parsed (t, outcome)
      → FiresOnce t.firings
  unfolding process_row
  row-FiresOnce firing_id r at s t outcome once done =
      let (cron, parses, rest) = call_parsed (parse r.cron_expression) _ done in
      let (next, fires, last) = call_parsed (next_after zone_info cron moment r.timezone) _ rest in
      subst (λ x. FiresOnce x.0.firings) (parsed-injective last)
        (fire-FiresOnce runs (due_turn r at next moment firing_id) s once)

  pub due-FiresOnce :
      (firing_id id : ℕ) (s t : ScheduleStore S) (outcome : Outcome)
      → FiresOnce s.firings
      → process_due_schedule runs zone_info moment firing_id id s ≡ parsed (t, outcome)
      → FiresOnce t.firings
  unfolding process_due_schedule
  due-FiresOnce firing_id id s t outcome once done =
      elim (Option-cases (first (has_id id) s.schedules)) [
        | inl missing ↦
            let same : (s, Outcome.ignored) ≡ (t, outcome) =
              parsed-injective (rw (process_due_schedule, missing) at done) in
            subst (λ x. FiresOnce x.0.firings) same once
        | inr (r, found) ↦ elim (Option-cases (due_at moment r)) [
          | inl waits ↦
              let same : (s, Outcome.ignored) ≡ (t, outcome) =
                parsed-injective (rw (process_due_schedule, found, waits) at done) in
              subst (λ x. FiresOnce x.0.firings) same once
          | inr (at, due) ↦
              row-FiresOnce firing_id r at s t outcome once
                (rw (process_due_schedule, found, due) at done)
        ]
      ]

  after_call-Kept :
      (call : Parsed (ScheduleStore S × Outcome)) (s : ScheduleStore S) (u : DispatchSummary)
      → FiresOnce s.firings
      → ((t : ScheduleStore S) (outcome : Outcome)
          → call ≡ parsed (t, outcome)
          → FiresOnce t.firings)
      → FiresOnce (after_call call s u).0.firings
        × (counted (after_call call s u).1 ≤ counted u + 1)
        × ((after_call call s u).1.selected ≡ u.selected)
  unfolding after_call
  after_call-Kept (error e) s u once kept = (once, omega arith, refl)
  after_call-Kept (parsed (t, outcome)) s u once kept =
      (kept t outcome refl, (count_outcome_step outcome u).0, (count_outcome_step outcome u).1)

  process_ids-Kept :
      (fresh : ℕ → ℕ) (ids : List ℕ) (s : ScheduleStore S) (u : DispatchSummary)
      → FiresOnce s.firings
      → FiresOnce (process_ids runs zone_info moment fresh ids s u).0.firings
        × (counted (process_ids runs zone_info moment fresh ids s u).1 ≤ counted u + length ids)
        × ((process_ids runs zone_info moment fresh ids s u).1.selected ≡ u.selected)
  unfolding process_ids
  process_ids-Kept fresh [] s u once = (once, omega arith, refl)
  process_ids-Kept fresh (id ∷ ids) s u once =
      let call = process_due_schedule runs zone_info moment (fresh id) id s in
      let (kept, one, same) =
        after_call-Kept call s u once (λ t outcome. due-FiresOnce (fresh id) id s t outcome once) in
      let (later, more, rest) =
        process_ids-Kept fresh ids (after_call call s u).0 (after_call call s u).1 kept in
      (later, omega arith, rest ∙ same)

length-map : (f : Schedule → ℕ) (rs : List Schedule) → length (map f rs) ≡ length rs
length-map f [] = refl
length-map f (r ∷ rs) = let rest = length-map f rs in omega arith

-- A pass over the due schedules keeps one firing at most for each schedule and time, also where turns of
-- it raise. Its counts of triggered, skipped, blocked and failed schedules are together at most the
-- selected ones, and these at most the limit.
pub process_due_schedules-Counted :
    {S : Type 0} (runs : RunCreation S) (zone_info : Text → Option Zone) (moment : ℕ)
    (fresh : ℕ → ℕ) (n : ℕ) (s t : ScheduleStore S) (u : DispatchSummary)
    → FiresOnce s.firings
    → process_due_schedules runs zone_info moment fresh n s ≡ some (t, u)
    → FiresOnce t.firings × (counted u ≤ u.selected) × (u.selected ≤ n)
unfolding process_due_schedules due_schedules
process_due_schedules-Counted runs zone_info moment fresh n s t u once done =
    let rows = limit n (order_by fires_before (select (is_due_schedule moment) s.schedules)) in
    let ids = due_schedules moment n s.schedules in
    elim (Bool-cases (leb 1 n && leb n 500)) [
      | inl bounded ↦
          let start : DispatchSummary = record {
            selected = length ids;
            triggered = 0;
            skipped = 0;
            blocked = 0;
            failed = 0;
          } in
          let same : process_ids runs zone_info moment fresh ids s start ≡ (t, u) =
            cc (rw bounded at done) in
          let (kept, fewer, all) = process_ids-Kept runs zone_info moment fresh ids s start once in
          let listed : length ids ≡ length rows = length-map (λ r. r.id) rows in
          let short : length rows ≤ n = length-limit n _ in
          subst (λ x. FiresOnce x.0.firings × (counted x.1 ≤ x.1.selected) × (x.1.selected ≤ n))
            same (kept, omega arith, omega arith)
      | inr other ↦ cc (rw other at done)
    ]
