-- ===== src/Lifecycle/Queue.antt =====
-- services.py: `_execution_usage`, `_enforce_execution_policy`, `_existing_idempotent_run`,
-- `_queue_snapshot_run` and the end of `create_run`, for Runs of no schedule. The snapshot that
-- `create_run` builds is an argument; `fresh` is the UUID of the Outbox row.
use top.Base.{
  ℕ, ◌+◌, ◌-◌, ◌%◌, Bool, true, false, Option, none, some, List, [], ◌∷◌, ◌++◌, ◌&&◌, ◌||◌, ◌==◌,
  leb, ltb, if◌then◌else◌, first, any, count_where,
}
use top.Contracts.{RunStatus, RunSnapshot, CaseDefinition, Text, text_eq, seconds, same_status}
use top.Service.{ServiceError, Served, ok, raise, ◌>>=◌, ◌>>◌, check}
use top.Store.{Store}
use top.Store.Rows.{
  Run, RunCase, RowStatus, DispatchState, DedupeKey, EventType, OutboxEvent, OutboxRow,
  OutboxStatus, Action, Project,
}
use top.Lifecycle.Events.{NewEvent, append_run_event}
use top.Lifecycle.Callbacks.{add_audit, audit_run}
use top.Lifecycle.Cancel.{add_outbox}

pub record Usage : Type 0 where
  pub queued_runs : ℕ
  pub preparing_runs : ℕ
  pub running_runs : ℕ
  pub runs_created_today : ℕ

abbrev pub in_flight_runs : Usage → ℕ
in_flight_runs u = u.queued_runs + u.preparing_runs + u.running_runs

abbrev pub in_status : ℕ → RunStatus → Run → Bool
in_status project status r = r.project_id == project && same_status r.status status

-- Midnight in UTC.
abbrev pub day_start : ℕ → ℕ
day_start now = now - now % seconds 86400

abbrev pub is_of_today : ℕ → ℕ → Run → Bool
is_of_today project now r = r.project_id == project && leb (day_start now) r.created_at

unfoldable pub execution_usage : ℕ → ℕ → Store → Usage
execution_usage project now s = record {
  queued_runs = count_where (in_status project RunStatus.queued) s.runs;
  preparing_runs = count_where (in_status project RunStatus.preparing) s.runs;
  running_runs = count_where (in_status project RunStatus.running) s.runs;
  runs_created_today = count_where (is_of_today project now) s.runs;
}

unfoldable pub enforce_execution_policy : Project → ℕ → Store → Served (Unit {0})
unfolding execution_usage
enforce_execution_policy project now s =
    let usage = execution_usage project.id now s in
    check (ltb (in_flight_runs usage) project.max_in_flight_runs) ServiceError.conflict
    >> check (ltb usage.runs_created_today project.max_daily_runs) ServiceError.conflict

abbrev pub has_idempotency_key : ℕ → Text → Run → Bool
has_idempotency_key project key r = r.project_id == project && text_eq r.idempotency_key key

unfoldable pub existing_idempotent_run : ℕ → Text → Text → Store → Served (Option Run)
existing_idempotent_run project key request_hash s =
    elim (first (has_idempotency_key project key) s.runs) [
      | none ↦ ok none
      | some r ↦
          if text_eq r.request_hash request_hash then ok (some r) else raise ServiceError.conflict
    ]

-- The arguments of `_queue_snapshot_run`. `is_rerun` says that there is a `source_run_id`.
pub record QueueRequest : Type 0 where
  pub snapshot : RunSnapshot
  pub project_id : ℕ
  pub idempotency_key : Text
  pub request_hash : Text
  pub actor_id : ℕ
  pub runner_pool_id : Option ℕ
  pub timeout_seconds : ℕ
  pub is_rerun : Bool

unfoldable pub new_run : QueueRequest → Run
new_run q = record {
  id = q.snapshot.run_id;
  project_id = q.project_id;
  runner_pool_id = q.runner_pool_id;
  status = RunStatus.queued;
  idempotency_key = q.idempotency_key;
  request_hash = q.request_hash;
  snapshot = q.snapshot;
  result_digest = none;
  result_document = none;
  timeout_seconds = q.timeout_seconds;
  created_by = q.actor_id;
  created_at = q.snapshot.created_at;
  cancel_requested = false;
  dispatch_state = DispatchState.pending;
  dispatch_wait_reason = none;
  dispatched_at = none;
  started_at = none;
  timeout_at = none;
  finished_at = none;
  error_message = none;
}

-- `enumerate(snapshot.cases, start=1)`.
unfoldable pub case_rows : ℕ → ℕ → List CaseDefinition → List RunCase
case_rows run n [] = []
case_rows run n (c ∷ cs) =
    record {
      run_id = run;
      case_id = c.case_id;
      case_code = c.case_code;
      sequence = n;
      status = RowStatus.of_run RunStatus.queued;
      duration_ms = none;
      failure_category = none;
      error_message = none;
    }
    ∷ case_rows run (n + 1) cs

unfoldable pub created_event : QueueRequest → NewEvent
created_event q = record {
  dedupe_key = DedupeKey.run_created;
  event_type = EventType.run_created;
  case_code = none;
  status = some (RowStatus.of_run RunStatus.queued);
  occurred_at = q.snapshot.created_at;
}

unfoldable pub queued_row : QueueRequest → ℕ → ℕ → OutboxRow
queued_row q fresh now = record {
  id = fresh;
  aggregate_id = q.snapshot.run_id;
  event = OutboxEvent.run_queued q.snapshot;
  status = OutboxStatus.pending;
  attempts = 0;
  available_at = now;
  created_at = now;
  processed_at = none;
  last_error = none;
}

unfoldable pub write_run : QueueRequest → ℕ → ℕ → Store → Store
write_run q fresh now s =
    add_audit
      (audit_run q.actor_id (if q.is_rerun then Action.rerun_created else Action.created)
        (new_run q))
      (add_outbox (queued_row q fresh now)
        (append_run_event q.snapshot.run_id (created_event q) (record s {
          runs = new_run q ∷ s.runs;
          cases = case_rows q.snapshot.run_id 1 q.snapshot.cases ++ s.cases;
        })).0)

-- A Run that has the primary key or the unique key of the new one.
unfoldable pub collides : QueueRequest → Run → Bool
collides q r = r.id == q.snapshot.run_id || has_idempotency_key q.project_id q.idempotency_key r

abbrev pub answer_raced : Option Run → Store → Served (Store × Bool)
answer_raced none s = raise ServiceError.conflict
answer_raced (some r) s = ok (s, false)

-- A collision fails the commit; then the Run that won the race is the answer.
unfoldable pub queue_snapshot_run : QueueRequest → ℕ → ℕ → Store → Served (Store × Bool)
queue_snapshot_run q fresh now s =
    if any (collides q) s.runs
    then (do
      raced ← existing_idempotent_run q.project_id q.idempotency_key q.request_hash s
      answer_raced raced s)
    else ok (write_run q fresh now s, true)

-- The end of `create_run`, behind the checks of what the request names.
unfoldable pub admit_run : Project → QueueRequest → ℕ → ℕ → Store → Served (Store × Bool)
admit_run project q fresh now s = do
  enforce_execution_policy project now s
  queue_snapshot_run q fresh now s
