-- ===== src/Schedules/Once.antt =====
-- schedule_services.py: the firings of a schedule, one for a time, and the Runs that they create.
use top.Base.{
  ℕ, ◌≡◌, refl, Bool, true, false, ◌&&◌, ◌≤◌, ◌⊎◌, Option, none, some, List, [], ◌∷◌, first, any,
  count_where, Bool-cases, inl, inr, arith,
}
use mathlib.Core.Path.{subst}
use top.Contracts.{Text}
use top.Service.{Served, ServiceError, ok, raise, call_returned, call_raised}
use top.Cron.Parse.{parsed, parse, call_parsed, parsed-injective}
use top.Cron.Calendar.{Zone}
use top.Cron.Next.{next_after}
use top.Schedules.Rows.{Schedule, ScheduleStore, Firing, FiringStatus}
use top.Schedules.Resources.{validate_resources}
use top.Schedules.Process.{
  RunCreation, Outcome, has_id, due_at, is_firing, is_missed, is_skip, Due, due_turn, new_firing,
  run_request, write_attempt, write_firing, attempt_run, fire, process_row, process_due_schedule,
}

-- One firing at most for a schedule and a time, as the table's unique constraint wants it.
abbrev pub FiresOnce : List Firing → Type 0
FiresOnce firings = (id at : ℕ) → count_where (is_firing id at) firings ≤ 1

any-count : (p : Firing → Bool) (fs : List Firing) → any p fs ≡ false → count_where p fs ≡ 0
unfolding any count_where
any-count p [] missing = refl
any-count p (f ∷ fs) missing = ground (arith, any-count p fs)

pub add-FiresOnce :
    (f : Firing) (fs : List Firing)
    → any (is_firing f.schedule_id f.scheduled_for) fs ≡ false
    → FiresOnce fs
    → FiresOnce (f ∷ fs)
unfolding count_where
add-FiresOnce f fs missing once id at = elim (Bool-cases (is_firing id at f)) [
  | inl same ↦
      let same_id : f.schedule_id ≡ id = ground arith in
      let same_at : f.scheduled_for ≡ at = ground arith in
      let missing_there : any (is_firing id at) fs ≡ false =
        subst (λ x. any (is_firing id x) fs ≡ false) same_at
          (subst (λ x. any (is_firing x f.scheduled_for) fs ≡ false) same_id missing) in
      rw same (let zero = any-count (is_firing id at) fs missing_there in omega arith)
  | inr other ↦ rw other (let before = once id at in omega arith)
]

-- What a turn did: the call of `create_run`, which returned `run`, new or not, and the firing of it; or
-- the refusal of the resources or of that call.
abbrev pub Launched :
    {S : Type 0}
    → RunCreation S
    → Schedule
    → ℕ
    → ScheduleStore S
    → ScheduleStore S
    → Outcome
    → Type 0
Launched runs r at s t Outcome.triggered =
    (run : ℕ) × (created : Bool) × (runs.create_run (run_request r at) s.rest
      ≡ ok (t.rest, run, created))
    × (validate_resources (runs.tables s.rest) r.refs ≡ ok tt)
    × (f : Firing) × (first (is_firing r.id at) t.firings ≡ some f)
    × (f.run_id ≡ some run)
Launched runs r at s t Outcome.blocked =
    (t.rest ≡ s.rest)
    × (failure : ServiceError) × ((validate_resources (runs.tables s.rest) r.refs ≡ raise failure)
        ⊎ (runs.create_run (run_request r at) s.rest ≡ raise failure))
Launched runs r at s t _ = t.rest ≡ s.rest

module _ {S : Type 0} where
  write_attempt-FiresOnce :
      (d : Due) (answer : Served (S × ℕ × Bool)) (s : ScheduleStore S)
      → any (is_firing d.schedule.id d.scheduled_for) s.firings ≡ false
      → FiresOnce s.firings
      → FiresOnce (write_attempt d answer s).0.firings
  unfolding write_attempt write_firing new_firing
  write_attempt-FiresOnce d (raise failure) s fresh once = add-FiresOnce _ s.firings fresh once
  write_attempt-FiresOnce d (ok (rest, run_id, created)) s fresh once =
      add-FiresOnce _ s.firings fresh once

  pub fire-FiresOnce :
      (runs : RunCreation S) (d : Due) (s : ScheduleStore S)
      → FiresOnce s.firings
      → FiresOnce (fire runs d s).0.firings
  unfolding fire write_firing new_firing
  fire-FiresOnce runs d s once =
      elim (Bool-cases (any (is_firing d.schedule.id d.scheduled_for) s.firings)) [
        | inl existing ↦ rw existing once
        | inr fresh ↦ elim (Bool-cases (is_missed d && is_skip d.schedule.misfire_policy)) [
          | inl missed ↦ rw (fresh, missed) (add-FiresOnce _ s.firings fresh once)
          | inr on_time ↦
              rw (fresh, on_time)
                (write_attempt-FiresOnce d (attempt_run runs d s.rest) s fresh once)
        ]
      ]

  attempt_run-ok :
      (runs : RunCreation S) (d : Due) (rest after : S) (run : ℕ) (created : Bool)
      → attempt_run runs d rest ≡ ok (after, run, created)
      → (validate_resources (runs.tables rest) d.schedule.refs ≡ ok tt)
        × (runs.create_run (run_request d.schedule d.scheduled_for) rest ≡ ok (after, run, created))
  unfolding attempt_run
  attempt_run-ok runs d rest after run created went =
      let (done, valid, made) =
        call_returned (validate_resources (runs.tables rest) d.schedule.refs) _ went in
      (valid, made)

  attempt_run-raise :
      (runs : RunCreation S) (d : Due) (rest : S) (failure : ServiceError)
      → attempt_run runs d rest ≡ raise failure
      → (validate_resources (runs.tables rest) d.schedule.refs ≡ raise failure)
        ⊎ (runs.create_run (run_request d.schedule d.scheduled_for) rest ≡ raise failure)
  unfolding attempt_run
  attempt_run-raise runs d rest failure refused =
      elim (call_raised (validate_resources (runs.tables rest) d.schedule.refs) _ refused) [
        | inl invalid ↦ inl invalid
        | inr (done, valid, raised) ↦ inr raised
      ]

  write_attempt-Launched :
      (runs : RunCreation S) (d : Due) (s : ScheduleStore S) (answer : Served (S × ℕ × Bool))
      → attempt_run runs d s.rest ≡ answer
      → Launched runs d.schedule d.scheduled_for s
          (write_attempt d answer s).0
          (write_attempt d answer s).1
  unfolding write_attempt write_firing new_firing first
  write_attempt-Launched runs d s (raise failure) refused =
      (refl, failure, attempt_run-raise runs d s.rest failure refused)
  write_attempt-Launched runs d s (ok (rest, run, created)) went =
      let (valid, made) = attempt_run-ok runs d s.rest rest run created went in
      let mine : is_firing d.schedule.id d.scheduled_for
            (new_firing d FiringStatus.triggered (some run) none)
          ≡ true =
        ground arith in
      (
        run,
        created,
        made,
        valid,
        new_firing d FiringStatus.triggered (some run) none,
        rw mine refl,
        refl,
      )

  fire-Launched :
      (runs : RunCreation S) (d : Due) (s : ScheduleStore S)
      → Launched runs d.schedule d.scheduled_for s (fire runs d s).0 (fire runs d s).1
  unfolding fire write_firing
  fire-Launched runs d s =
      elim (Bool-cases (any (is_firing d.schedule.id d.scheduled_for) s.firings)) [
        | inl existing ↦ rw existing refl
        | inr fresh ↦ elim (Bool-cases (is_missed d && is_skip d.schedule.misfire_policy)) [
          | inl missed ↦ rw (fresh, missed) refl
          | inr on_time ↦
              rw (fresh, on_time) (write_attempt-Launched runs d s (attempt_run runs d s.rest) refl)
        ]
      ]

-- Processing a due schedule keeps one firing at most for each schedule and time. Where it answers that
-- the schedule was triggered, the resources were valid, `create_run` returned a Run for the request of
-- the time that was due, whether it says that it created it or not, the other tables are as that call
-- left them, and the firing of that time records the Run. Where it answers that the schedule was
-- blocked, the resources were refused or `create_run` raised for that request. In all answers but the
-- first the other tables stay as they are.
pub process_due_schedule-Launched :
    {S : Type 0} (runs : RunCreation S) (zone_info : Text → Option Zone)
    (moment firing_id scheduled_for : ℕ) (r : Schedule) (s t : ScheduleStore S) (outcome : Outcome)
    → first (has_id r.id) s.schedules ≡ some r
    → due_at moment r ≡ some scheduled_for
    → FiresOnce s.firings
    → process_due_schedule runs zone_info moment firing_id r.id s ≡ parsed (t, outcome)
    → FiresOnce t.firings × Launched runs r scheduled_for s t outcome
unfolding process_due_schedule process_row
process_due_schedule-Launched runs zone_info moment firing_id at r s t outcome found due once done =
    let turn : process_row runs zone_info moment firing_id r at s ≡ parsed (t, outcome) =
      rw (process_due_schedule, found, due) at done in
    let (cron, parses, rest) = call_parsed (parse r.cron_expression) _ turn in
    let (next, fires, last) = call_parsed (next_after zone_info cron moment r.timezone) _ rest in
    let d = due_turn r at next moment firing_id in
    let same : fire runs d s ≡ (t, outcome) = parsed-injective last in
    subst (λ x. FiresOnce x.0.firings × Launched runs r at s x.0 x.1) same
      (fire-FiresOnce runs d s once, fire-Launched runs d s)
