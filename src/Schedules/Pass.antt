-- ===== src/Schedules/Pass.antt =====
-- schedule_services.py: `process_due_schedules`.
use top.Base.{
  ℕ, Bool, true, false, ◌&&◌, ◌+◌, leb, Option, none, some, List, [], ◌∷◌, if◌then◌else◌, length,
  select, order_by, limit, map, or_else,
}
use top.Contracts.{Text}
use top.Cron.Parse.{Parsed, parsed, error}
use top.Cron.Calendar.{Zone}
use top.Schedules.Rows.{Schedule, ScheduleStore}
use top.Schedules.Process.{RunCreation, Outcome, due_at, process_due_schedule}

pub record DispatchSummary : Type 0 where
  pub selected : ℕ
  pub triggered : ℕ
  pub skipped : ℕ
  pub blocked : ℕ
  pub failed : ℕ

abbrev pub is_due_schedule : ℕ → Schedule → Bool
is_due_schedule moment r = elim (due_at moment r) [ none ↦ false | some at ↦ true ]

abbrev pub fires_before : Schedule → Schedule → Bool
fires_before a b = leb (or_else a.next_fire_at 0) (or_else b.next_fire_at 0)

unfoldable pub due_schedules : ℕ → ℕ → List Schedule → List ℕ
unfolding due_at
due_schedules moment n schedules =
    map (λ r. r.id) (limit n (order_by fires_before (select (is_due_schedule moment) schedules)))

-- `counts[outcome] += 1`, where `counts` has the outcome.
unfoldable pub count_outcome : Outcome → DispatchSummary → DispatchSummary
count_outcome Outcome.ignored u = u
count_outcome Outcome.skipped u = record u { skipped = u.skipped + 1 }
count_outcome Outcome.blocked u = record u { blocked = u.blocked + 1 }
count_outcome Outcome.triggered u = record u { triggered = u.triggered + 1 }

module _ {S : Type 0} where
  unfoldable pub after_call :
      Parsed (ScheduleStore S × Outcome)
      → ScheduleStore S
      → DispatchSummary
      → ScheduleStore S × DispatchSummary
  unfolding count_outcome
  after_call (error e) s u = (s, record u { failed = u.failed + 1 })
  after_call (parsed (t, outcome)) s u = (t, count_outcome outcome u)

  -- The loop over the identifiers, each in a session of its own.
  unfoldable pub process_ids :
      RunCreation S
      → (Text → Option Zone)
      → ℕ
      → (ℕ → ℕ)
      → List ℕ
      → ScheduleStore S
      → DispatchSummary
      → ScheduleStore S × DispatchSummary
  unfolding process_due_schedule after_call
  process_ids runs zone_info moment fresh [] s u = (s, u)
  process_ids runs zone_info moment fresh (id ∷ ids) s u =
      let next = after_call (process_due_schedule runs zone_info moment (fresh id) id s) s u in
      process_ids runs zone_info moment fresh ids next.0 next.1

  unfoldable pub process_due_schedules :
      RunCreation S
      → (Text → Option Zone)
      → ℕ
      → (ℕ → ℕ)
      → ℕ
      → ScheduleStore S
      → Option (ScheduleStore S × DispatchSummary)
  unfolding process_ids due_schedules
  process_due_schedules runs zone_info moment fresh n s =
      let ids = due_schedules moment n s.schedules in
      let summary : DispatchSummary = record {
        selected = length ids;
        triggered = 0;
        skipped = 0;
        blocked = 0;
        failed = 0;
      } in
      if leb 1 n && leb n 500
      then some (process_ids runs zone_info moment fresh ids s summary)
      else none
