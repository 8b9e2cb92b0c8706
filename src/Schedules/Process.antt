-- ===== src/Schedules/Process.antt =====
-- schedule_services.py: `_process_due_schedule`. `create_run` is an
-- interface here: it takes the Run that a schedule asks for, and gives the other tables, the Run's id
-- and whether it is new.
-- An exception other than a ServiceError is a `CronError`, and closes the session without a commit.
use top.Base.{
  ℕ, Bool, true, false, ◌&&◌, ◌-◌, ◌==◌, ltb, Option, none, some, ◌∷◌, if◌then◌else◌, first,
  update_where, any,
}
use top.Contracts.{Text, seconds}
use top.Service.{ServiceError, Served, ok, raise}
use top.Service
use top.Cron.Parse.{Parsed, parsed, ◌>>=◌, parse}
use top.Cron.Calendar.{Zone}
use top.Cron.Next.{next_after}
use top.Schedules.Rows.{
  Schedule, ScheduleStatus, MisfirePolicy, TriggerKind, FiringStatus, ScheduleError, Firing,
  ScheduleAction, ScheduleAudit, ScheduleStore, ResourceRefs, ResourceTables,
}
use top.Schedules.Resources.{validate_resources}

-- `_scheduled_idempotency_key` and `_manual_idempotency_key`, by their parts; the second has the SHA-256
-- of the key that the user sent.
pub data RunKey : Type 0 where
  scheduled : ℕ → ℕ → RunKey
  manual : ℕ → Text → RunKey

-- `_run_payload` with the other arguments of `create_run`.
pub record RunRequest : Type 0 where
  pub refs : ResourceRefs
  pub idempotency_key : RunKey
  pub actor_id : ℕ
  pub regression_schedule_id : ℕ
  pub scheduled_for : ℕ

unfoldable pub run_request : Schedule → ℕ → RunRequest
run_request r scheduled_for = record {
  refs = r.refs;
  idempotency_key = RunKey.scheduled r.id scheduled_for;
  actor_id = r.created_by;
  regression_schedule_id = r.id;
  scheduled_for = scheduled_for;
}

pub record RunCreation (S : Type 0) : Type 0 where
  pub create_run : RunRequest → S → Served (S × ℕ × Bool)
  pub tables : S → ResourceTables

pub data Outcome : Type 0 where
  ignored skipped blocked triggered : Outcome

abbrev pub has_id : ℕ → Schedule → Bool
has_id id r = r.id == id

-- `next_fire_at` of an ACTIVE schedule, if it is not after the moment.
unfoldable pub due_at : ℕ → Schedule → Option ℕ
due_at moment r = elim r.status [
  | ScheduleStatus.active ↦ elim r.next_fire_at [
    | none ↦ none
    | some at ↦ if ltb moment at then none else some at
  ]
  | _ ↦ none
]

abbrev pub is_firing : ℕ → ℕ → Firing → Bool
is_firing id scheduled_for f = (f.schedule_id == id) && (f.scheduled_for == scheduled_for)

abbrev pub is_skip : MisfirePolicy → Bool
is_skip MisfirePolicy.skip = true
is_skip MisfirePolicy.fire_once = false

-- What a turn has read before it writes: the schedule, its time and the next one.
pub record Due : Type 0 where
  pub schedule : Schedule
  pub scheduled_for : ℕ
  pub next_fire_at : ℕ
  pub moment : ℕ
  pub firing_id : ℕ

abbrev pub due_turn : Schedule → ℕ → ℕ → ℕ → ℕ → Due
due_turn r scheduled_for next moment firing_id = record {
  schedule = r;
  scheduled_for = scheduled_for;
  next_fire_at = next;
  moment = moment;
  firing_id = firing_id;
}

abbrev pub is_missed : Due → Bool
is_missed d = ltb (seconds d.schedule.misfire_grace_seconds) (d.moment - d.scheduled_for)

unfoldable pub new_firing : Due → FiringStatus → Option ℕ → Option ServiceError → Firing
new_firing d status run_id failure = record {
  id = d.firing_id;
  schedule_id = d.schedule.id;
  run_id = run_id;
  scheduled_for = d.scheduled_for;
  triggered_at = d.moment;
  trigger_kind = if is_missed d then TriggerKind.misfire else TriggerKind.scheduled;
  status = status;
  error_message = failure;
}

abbrev pub schedule_audit : Due → ScheduleAction → ScheduleAudit
schedule_audit d action = record {
  actor_id = d.schedule.created_by;
  action = action;
  resource_id = d.schedule.id;
}

unfoldable pub advanced : Due → Schedule
advanced d = record d.schedule { next_fire_at = some d.next_fire_at }

unfoldable pub skipped_schedule : Due → Schedule
unfolding advanced
skipped_schedule d = record (advanced d) {
  last_scheduled_for = some d.scheduled_for;
  last_error = some ScheduleError.misfire_skipped;
}

unfoldable pub blocked_schedule : Due → ServiceError → Schedule
unfolding advanced
blocked_schedule d failure = record (advanced d) {
  last_scheduled_for = some d.scheduled_for;
  last_triggered_at = some d.moment;
  last_error = some (ScheduleError.raised failure);
}

unfoldable pub triggered_schedule : Due → ℕ → Schedule
unfolding advanced
triggered_schedule d run_id = record (advanced d) {
  last_scheduled_for = some d.scheduled_for;
  last_triggered_at = some d.moment;
  last_run_id = some run_id;
  last_error = none;
}

module _ {S : Type 0} where
  abbrev pub write_schedule : Schedule → ScheduleStore S → ScheduleStore S
  write_schedule r s = record s { schedules = update_where (has_id r.id) (λ _. r) s.schedules }

  unfoldable pub write_firing :
      Schedule → Firing → ScheduleAudit → S → ScheduleStore S → ScheduleStore S
  write_firing r f audit rest s = record s {
    schedules = update_where (has_id r.id) (λ _. r) s.schedules;
    firings = f ∷ s.firings;
    audits = audit ∷ s.audits;
    rest = rest;
  }

  -- The answer of `_validate_resources` and `create_run`, or the ServiceError that one raised.
  unfoldable pub write_attempt :
      Due → Served (S × ℕ × Bool) → ScheduleStore S → ScheduleStore S × Outcome
  unfolding write_firing blocked_schedule triggered_schedule new_firing
  write_attempt d (raise failure) s = (
    write_firing (blocked_schedule d failure)
        (new_firing d FiringStatus.blocked none (some failure))
        (schedule_audit d ScheduleAction.trigger_blocked) s.rest s,
    Outcome.blocked,
  )
  write_attempt d (ok (rest, run_id, created)) s = (
    write_firing (triggered_schedule d run_id)
        (new_firing d FiringStatus.triggered (some run_id) none)
        (schedule_audit d ScheduleAction.triggered) rest s,
    Outcome.triggered,
  )

  unfoldable pub attempt_run : RunCreation S → Due → S → Served (S × ℕ × Bool)
  unfolding validate_resources run_request
  attempt_run runs d rest =
      top.Service.◌>>◌ (validate_resources (runs.tables rest) d.schedule.refs)
        (runs.create_run (run_request d.schedule d.scheduled_for) rest)

  unfoldable pub fire : RunCreation S → Due → ScheduleStore S → ScheduleStore S × Outcome
  unfolding write_attempt attempt_run advanced skipped_schedule
  fire runs d s =
      if any (is_firing d.schedule.id d.scheduled_for) s.firings
      then (write_schedule (advanced d) s, Outcome.ignored)
      else if is_missed d && is_skip d.schedule.misfire_policy
      then (
        write_firing (skipped_schedule d) (new_firing d FiringStatus.skipped none none)
            (schedule_audit d ScheduleAction.misfire_skipped) s.rest s,
        Outcome.skipped,
      )
      else write_attempt d (attempt_run runs d s.rest) s

  -- A row that was selected as due, with its time.
  unfoldable pub process_row :
      RunCreation S
      → (Text → Option Zone)
      → ℕ
      → ℕ
      → Schedule
      → ℕ
      → ScheduleStore S
      → Parsed (ScheduleStore S × Outcome)
  unfolding fire parse next_after
  process_row runs zone_info moment firing_id r scheduled_for s = do
    cron ← parse r.cron_expression
    next ← next_after zone_info cron moment r.timezone
    parsed (fire runs (due_turn r scheduled_for next moment firing_id) s)

  -- One transaction; `firing_id` is the UUID of a new firing.
  unfoldable pub process_due_schedule :
      RunCreation S
      → (Text → Option Zone)
      → ℕ
      → ℕ
      → ℕ
      → ScheduleStore S
      → Parsed (ScheduleStore S × Outcome)
  unfolding due_at process_row
  process_due_schedule runs zone_info moment firing_id id s = elim (first (has_id id) s.schedules) [
    | none ↦ parsed (s, Outcome.ignored)
    | some r ↦ elim (due_at moment r) [
      | none ↦ parsed (s, Outcome.ignored)
      | some scheduled_for ↦ process_row runs zone_info moment firing_id r scheduled_for s
    ]
  ]
