-- ===== src/Lifecycle/Cancel.antt =====
-- services.py: `_request_cancel`, `cancel_run` and `cancel_runs`. `fresh` is the UUID of the Outbox
-- row that a request adds; the project of a request exists.
use top.Base.{ℕ, ◌+◌, Bool, true, false, none, some, List, [], ◌∷◌, ◌||◌, ◌==◌, if◌then◌else◌}
use top.Contracts.{RunStatus, same_status}
use top.RunState.{is_terminal}
use top.Service.{ServiceError, Served, ok, ◌>>=◌, ◌>>◌, check, or_raise}
use top.Store.{Store, get_run, update_run}
use top.Store.Rows.{
  Run, RowStatus, DedupeKey, EventType, OutboxEvent, OutboxRow, OutboxStatus, Action,
}
use top.Lifecycle.Events.{NewEvent, append_run_event}
use top.Lifecycle.Callbacks.{add_audit, audit_run}
use top.Lifecycle.Emails.{enqueue_run_result_email}
use top.Lifecycle.Results.{release_runner_slot}

-- The columns that a request writes: a QUEUED Run is CANCELED at once.
unfoldable pub mark_canceled : ℕ → Run → Run
mark_canceled now r =
    if same_status r.status RunStatus.queued
    then record r { cancel_requested = true; status = RunStatus.canceled; finished_at = some now }
    else record r { cancel_requested = true }

-- The rest of the branch for a QUEUED Run.
unfoldable pub close_queued : Run → ℕ → Store → Store
close_queued run now s =
    if same_status run.status RunStatus.queued
    then enqueue_run_result_email (mark_canceled now run) now (release_runner_slot run.id now s)
    else s

unfoldable pub cancel_event : Run → ℕ → NewEvent
cancel_event run now = record {
  dedupe_key = DedupeKey.cancel_requested;
  event_type = EventType.cancel_requested;
  case_code = none;
  status = some (RowStatus.of_run (mark_canceled now run).status);
  occurred_at = now;
}

unfoldable pub cancel_row : ℕ → ℕ → Run → OutboxRow
cancel_row fresh now run = record {
  id = fresh;
  aggregate_id = run.id;
  event = OutboxEvent.run_cancel_requested;
  status = OutboxStatus.pending;
  attempts = 0;
  available_at = now;
  created_at = now;
  processed_at = none;
  last_error = none;
}

abbrev pub add_outbox : OutboxRow → Store → Store
add_outbox row s = record s { outbox = row ∷ s.outbox }

unfoldable pub write_cancel : Run → ℕ → ℕ → ℕ → Store → Store
write_cancel run actor fresh now s =
    add_audit
      (audit_run actor (Action.cancel_requested run.status (mark_canceled now run).status) run)
      (add_outbox (cancel_row fresh now run)
        (append_run_event run.id (cancel_event run now)
          (close_queued run now (update_run run.id (mark_canceled now) s))).0)

unfoldable pub request_cancel : Run → ℕ → ℕ → ℕ → Store → Store × Bool
request_cancel run actor fresh now s =
    if is_terminal run.status || run.cancel_requested
    then (s, false)
    else (write_cancel run actor fresh now s, true)

unfoldable pub cancel_run : ℕ → ℕ → ℕ → ℕ → Store → Served (Store × Bool)
cancel_run run_id actor fresh now s = do
  run ← or_raise (get_run s run_id) ServiceError.not_found
  ok (request_cancel run actor fresh now s)

-- The Runs of the project among `run_ids`; one that is missing raises.
unfoldable pub project_runs : Store → ℕ → List ℕ → Served (List Run)
project_runs s project [] = ok []
project_runs s project (id ∷ ids) = do
  run ← or_raise (get_run s id) ServiceError.not_found
  check (run.project_id == project) ServiceError.not_found
  runs ← project_runs s project ids
  ok (run ∷ runs)

unfoldable pub cancel_each : List Run → ℕ → (ℕ → ℕ) → ℕ → Store → ℕ → Store × ℕ
cancel_each [] actor fresh now s changed = (s, changed)
cancel_each (run ∷ runs) actor fresh now s changed =
    let (s', done) = request_cancel run actor (fresh run.id) now s in
    cancel_each runs actor fresh now s' (if done then changed + 1 else changed)

-- The request's schema gives distinct `run_ids`.
unfoldable pub cancel_runs : ℕ → List ℕ → ℕ → (ℕ → ℕ) → ℕ → Store → Served (Store × ℕ)
cancel_runs project run_ids actor fresh now s = do
  runs ← project_runs s project run_ids
  ok (cancel_each runs actor fresh now s 0)
