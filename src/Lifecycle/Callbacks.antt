-- ===== src/Lifecycle/Callbacks.antt =====
-- services.py: `_bind_runner_slot` and `update_run_status`. `now` is the instant of the call.
use top.Base.{
  ℕ, ◌+◌, String, Bool, true, false, Option, none, some, ◌∷◌, ◌==◌, if◌then◌else◌, first,
  update_where, str_eq, or_else,
}
use top.Contracts.{RunStatus, same_status, seconds}
use top.RunState.{allowed, is_started}
use top.Service.{ServiceError, Served, ok, ◌>>=◌, ◌>>◌, check, or_raise}
use top.Store.{Store, get_run, update_run, active_lease, update_lease}
use top.Store.Rows.{
  Run, RowStatus, DedupeKey, EventType, Lease, Worker, Availability, Action, AuditLog,
}
use top.Lifecycle.Events.{NewEvent, append_run_event}

abbrev pub runner_actor_id : ℕ
runner_actor_id = 1

abbrev pub is_available : Availability → Bool
is_available Availability.active = true
is_available _ = false

abbrev pub add_audit : AuditLog → Store → Store
add_audit a s = record s { audit = a ∷ s.audit }

unfoldable pub update_worker : ℕ → (Worker → Worker) → Store → Store
update_worker id f s = record s { workers = update_where (λ w. w.id == id) f s.workers }

unfoldable pub find_worker : String → Store → Option Worker
find_worker key s = first (λ w. str_eq w.worker_key key) s.workers

-- `lease.worker_id is None or lease.worker_id == worker.id`.
abbrev pub may_bind : Option ℕ → ℕ → Bool
may_bind none worker = true
may_bind (some bound) worker = bound == worker

unfoldable pub bind_to : ℕ → Lease → Worker → Store → Store
bind_to now l w s =
    update_worker w.id (λ x. record x { last_heartbeat_at = now })
      (update_lease l.id (λ x. record x { worker_id = some w.id }) s)

unfoldable pub bind_key : Run → String → ℕ → Store → Served (Store × Bool)
bind_key run key now s = do
  lease ← or_raise (active_lease s run.id) ServiceError.conflict
  worker ← or_raise (find_worker key s) ServiceError.invalid
  check (worker.pool_id == lease.pool_id) ServiceError.invalid
  check (is_available worker.status) ServiceError.conflict
  check (may_bind lease.worker_id worker.id) ServiceError.conflict
  ok (bind_to now lease worker s, true)

unfoldable pub bind_runner_slot : Run → Option String → ℕ → Store → Served (Store × Bool)
bind_runner_slot run none now s = ok (s, false)
bind_runner_slot run (some key) now s = elim run.runner_pool_id [
  | none ↦ ok (s, false)
  | some pool ↦ bind_key run key now s
]

-- The columns that a status report writes.
unfoldable pub enter : RunStatus → ℕ → Run → Run
enter target now r = record r {
  status = target;
  timeout_at = some (or_else r.timeout_at (now + seconds r.timeout_seconds));
  started_at =
      if same_status target RunStatus.running
      then some (or_else r.started_at now)
      else r.started_at;
}

unfoldable pub status_event : RunStatus → ℕ → NewEvent
status_event target now = record {
  dedupe_key = DedupeKey.status_changed target;
  event_type = EventType.status_changed;
  case_code = none;
  status = some (RowStatus.of_run target);
  occurred_at = now;
}

unfoldable pub audit_run : ℕ → Action → Run → AuditLog
audit_run actor action run = record {
  actor_id = actor;
  action = action;
  resource_id = run.id;
  project_id = some run.project_id;
}

unfoldable pub change_status : Run → RunStatus → ℕ → Store → Store
change_status run target now s =
    add_audit (audit_run runner_actor_id (Action.status_changed run.status target) run)
      (append_run_event run.id (status_event target now) (update_run run.id (enter target now) s)).0

-- The part behind the binding; `s` is the store that the binding left.
unfoldable pub report_status : Run → RunStatus → ℕ → Store → Served (Store × Bool)
report_status run target now s = if same_status run.status target then ok (s, false) else do
  check (allowed run.status target) ServiceError.conflict
  ok (change_status run target now s, true)

unfoldable pub update_run_status : ℕ → RunStatus → Option String → ℕ → Store → Served (Store × Bool)
update_run_status run_id target key now s = do
  check (is_started target) ServiceError.invalid
  run ← or_raise (get_run s run_id) ServiceError.not_found
  bound ← bind_runner_slot run key now s
  report_status run target now bound.0
