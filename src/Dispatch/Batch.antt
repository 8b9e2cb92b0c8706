-- ===== src/Dispatch/Batch.antt =====
-- outbox.py: `_task_for` and `dispatch_outbox_batch`. The broker is outside of the repository:
-- `send` answers a task with `none`, or with the text of what `publisher.send_task` raised.
-- `fresh` gives the UUID that a row's new lease gets, `locked` the rows that another transaction
-- holds, which SKIP LOCKED passes over.
use Prim.Native.String.{◌++◌ as append}
use top.Base.{
  ℕ, zero, suc, ◌+◌, ◌^◌, String, Bool, true, false, not, Option, none, some, List, [], ◌∷◌, ◌&&◌,
  min, leb, ◌==◌, if◌then◌else◌, select, order_by, limit, update_where,
}
use top.Contracts.{RunSnapshot, seconds}
use top.Store.{Store, update_run, update_lease}
use top.Store.Rows.{
  WaitReason, DispatchState, Run, OutboxEvent, OutboxRow, OutboxStatus, Lease, LeaseStatus,
}
use top.Dispatch.Prepare.{Attempt, PreparedDispatch, prepare_run_dispatch, settle}

pub data TaskId : Type 0 where
  run_task cancel_task : ℕ → TaskId

pub data Task : Type 0 where
  execute_run : RunSnapshot → TaskId → Option String → Task
  cancel_run : ℕ → TaskId → Option String → Task

-- `str(exc)[:2000]`.
unfoldable pub clip : ℕ → String → String
clip zero s = String.[]
clip (suc n) String.[] = String.[]
clip (suc n) (String.◌∷◌ c s) = String.◌∷◌ c (clip n s)

pub data Sent : Type 0 where
  delivered : Sent
  raised : String → Sent

answer : Option String → Sent
answer none = delivered
answer (some e) = raised e

-- `_task_for`, then `publisher.send_task`; an event with no task raises in the same `try`.
unfoldable pub publish : (Task → Option String) → OutboxRow → Option String → Sent
unfolding answer
publish send row queue = elim row.event [
  | OutboxEvent.run_queued snap ↦ answer (send (execute_run snap (run_task row.aggregate_id) queue))
  | OutboxEvent.run_cancel_requested ↦
      answer (send (cancel_run row.aggregate_id (cancel_task row.id) queue))
  | OutboxEvent.other event ↦ raised (append "unsupported Outbox event: " event)
]

unfoldable pub backoff_seconds : ℕ → ℕ
backoff_seconds attempts = min 300 (2 ^ min attempts 8)

unfoldable pub update_row : ℕ → (OutboxRow → OutboxRow) → Store → Store
update_row id f s = record s { outbox = update_where (λ r. r.id == id) f s.outbox }

abbrev pub for_run : Option ℕ → (Run → Run) → Store → Store
for_run none f s = s
for_run (some id) f s = update_run id f s

abbrev pub for_lease : Option ℕ → (Lease → Lease) → Store → Store
for_lease none f s = s
for_lease (some id) f s = update_lease id f s

unfoldable pub park : WaitReason → Run → Run
park reason run = record run {
  dispatch_state = DispatchState.waiting;
  dispatch_wait_reason = some reason;
}

unfoldable pub free : ℕ → Lease → Lease
free now l = record l { status = LeaseStatus.released; released_at = some now }

unfoldable pub close_row : ℕ → OutboxRow → OutboxRow
close_row now r = record r {
  status = OutboxStatus.published;
  processed_at = some now;
  last_error = none;
}

unfoldable pub retry_row : ℕ → String → OutboxRow → OutboxRow
retry_row now error r = record r {
  attempts = r.attempts + 1;
  last_error = some (clip 2000 error);
  available_at = now + seconds (backoff_seconds (r.attempts + 1));
}

unfoldable pub delay_row : ℕ → ℕ → String → OutboxRow → OutboxRow
delay_row now poll reason r = record r { last_error = some reason; available_at = now + poll }

unfoldable pub reason_text : WaitReason → String
reason_text WaitReason.runner_pool_not_found = "RUNNER_POOL_NOT_FOUND"
reason_text WaitReason.runner_pool_draining = "RUNNER_POOL_DRAINING"
reason_text WaitReason.runner_pool_disabled = "RUNNER_POOL_DISABLED"
reason_text WaitReason.no_healthy_runner = "NO_HEALTHY_RUNNER"
reason_text WaitReason.runner_capability_mismatch = "RUNNER_CAPABILITY_MISMATCH"
reason_text WaitReason.runner_isolation_unavailable = "RUNNER_ISOLATION_UNAVAILABLE"
reason_text WaitReason.automation_package_unavailable = "AUTOMATION_PACKAGE_UNAVAILABLE"
reason_text WaitReason.runner_pool_capacity_exhausted = "RUNNER_POOL_CAPACITY_EXHAUSTED"
reason_text WaitReason.broker_publish_failed = "BROKER_PUBLISH_FAILED"

pub record Summary : Type 0 where
  pub published : ℕ
  pub failed : ℕ
  pub waiting : ℕ

abbrev pub no_rounds : Summary
no_rounds = record { published = 0; failed = 0; waiting = 0 }

abbrev pub selected : Summary → ℕ
selected t = t.published + t.failed + t.waiting

unfoldable pub publish_prepared :
    (Task → Option String) → ℕ → OutboxRow → PreparedDispatch → Store → Summary → Store × Summary
publish_prepared send now row p s t = elim (publish send row p.queue) [
  | delivered ↦ (
    for_run p.run (settle now)
        (update_row row.id (λ r. close_row now (record r { attempts = r.attempts + 1 })) s),
    record t { published = t.published + 1 },
  )
  | raised e ↦ (
    for_lease p.lease (free now) (
        for_run p.run (park WaitReason.broker_publish_failed)
          (update_row row.id (retry_row now e) s)),
    record t { failed = t.failed + 1 },
  )
]

-- One round of the loop; `none` is a `ValueError`, which ends the batch and rolls it back.
unfoldable pub dispatch_row :
    (Task → Option String) → ℕ → ℕ → ℕ → ℕ → OutboxRow → Store → Summary → Option (Store × Summary)
dispatch_row send now ttl poll fresh row s t = elim (prepare_run_dispatch s row now ttl fresh) [
  | Attempt.invalid ↦ none
  | Attempt.wait reason ↦ some (
    update_row row.id (delay_row now poll (reason_text reason))
        (update_run row.aggregate_id (park reason) s),
    record t { waiting = t.waiting + 1 },
  )
  | Attempt.go (p, s') ↦
      if p.skip_publish
      then some (update_row row.id (close_row now) s', record t { published = t.published + 1 })
      else some (publish_prepared send now row p s' t)
]

unfoldable pub dispatch_rows :
    (Task → Option String)
    → ℕ
    → ℕ
    → ℕ
    → (ℕ → ℕ)
    → List OutboxRow
    → Store
    → Summary
    → Option (Store × Summary)
dispatch_rows send now ttl poll fresh [] s t = some (s, t)
dispatch_rows send now ttl poll fresh (row ∷ rows) s t =
    elim (dispatch_row send now ttl poll (fresh row.id) row s t) [
      | none ↦ none
      | some (s', t') ↦ dispatch_rows send now ttl poll fresh rows s' t'
    ]

abbrev pub is_pending : OutboxStatus → Bool
is_pending OutboxStatus.pending = true
is_pending OutboxStatus.published = false

unfoldable pub is_due : ℕ → OutboxRow → Bool
is_due now r = is_pending r.status && leb r.available_at now

-- ORDER BY created_at.
abbrev created_before : OutboxRow → OutboxRow → Bool
created_before a b = leb a.created_at b.created_at

unfoldable pub due_rows : (ℕ → Bool) → ℕ → ℕ → Store → List OutboxRow
due_rows locked now n s =
    limit n (order_by created_before (select (λ r. is_due now r && not (locked r.id)) s.outbox))

abbrev within : ℕ → ℕ → ℕ → Bool
within lo n hi = leb lo n && leb n hi

-- `poll` is `capacity_poll_seconds` in microseconds. A refused argument raises.
unfoldable pub dispatch_outbox_batch :
    (Task → Option String) → (ℕ → Bool) → (ℕ → ℕ) → ℕ → ℕ → ℕ → ℕ → Store → Option (Store × Summary)
dispatch_outbox_batch send locked fresh n now ttl poll s =
    if within 1 n 500 && (within 15 ttl 600 && within 100000 poll 60000000)
    then dispatch_rows send now ttl poll fresh (due_rows locked now n s) s no_rounds
    else none
