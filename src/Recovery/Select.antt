-- ===== src/Recovery/Select.antt =====
-- reliability_services.py: the queries of `process_run_reliability`. `locked` says of a Run that
-- another transaction holds it or its lease, and SKIP LOCKED passes over it.
use top.Base.{
  ℕ, ◌+◌, Bool, true, false, not, Option, none, some, List, [], ◌∷◌, ◌&&◌, ◌==◌, leb, ltb,
  if◌then◌else◌, first, select, order_by, limit, or_else,
}
use top.Contracts.{RunStatus, seconds, same_status}
use top.RunState.{is_terminal, is_started}
use top.Store.{Store, get_run, is_active}
use top.Store.Rows.{Run, Lease, Worker}

abbrev pub is_past : Option ℕ → ℕ → Bool
is_past none moment = false
is_past (some at) moment = leb at moment

unfoldable pub is_expired : ℕ → Run → Bool
is_expired moment r = is_started r.status && is_past r.timeout_at moment

-- ORDER BY timeout_at, id.
unfoldable pub deadline_before : Run → Run → Bool
deadline_before a b =
    let x = or_else a.timeout_at 0 in
    let y = or_else b.timeout_at 0 in if x == y then leb a.id b.id else leb x y

unfoldable pub timeout_runs : (ℕ → Bool) → ℕ → ℕ → Store → List Run
timeout_runs locked n moment s =
    limit n
      (order_by deadline_before (select (λ r. is_expired moment r && not (locked r.id)) s.runs))

-- The worker that a lease is bound to.
unfoldable pub worker_of : Store → Lease → Option Worker
worker_of s l = elim l.worker_id [ none ↦ none | some id ↦ first (λ w. w.id == id) s.workers ]

-- A lease joined with its Run and its worker.
pub record Held : Type 0 where
  pub lease : Lease
  pub run : Run
  pub worker : Option Worker

unfoldable pub join : Store → List Lease → List Held
unfolding worker_of
join s [] = []
join s (l ∷ ls) =
    let rest = join s ls in
    elim (get_run s l.run_id) [
      | none ↦ rest
      | some r ↦ record { lease = l; run = r; worker = worker_of s l } ∷ rest
    ]

-- `last_heartbeat_at < moment - ttl`, with the subtraction on the other side.
unfoldable pub is_silent : ℕ → ℕ → Option Worker → Bool
is_silent moment ttl none = false
is_silent moment ttl (some w) = ltb (w.last_heartbeat_at + seconds ttl) moment

unfoldable pub is_lost : ℕ → ℕ → Held → Bool
is_lost moment ttl h =
    is_active h.lease.status && (is_started h.run.status && is_silent moment ttl h.worker)

abbrev heartbeat : Option Worker → ℕ
heartbeat none = 0
heartbeat (some w) = w.last_heartbeat_at

-- ORDER BY last_heartbeat_at, acquired_at.
unfoldable pub silent_before : Held → Held → Bool
silent_before a b =
    if heartbeat a.worker == heartbeat b.worker
    then leb a.lease.acquired_at b.lease.acquired_at
    else leb (heartbeat a.worker) (heartbeat b.worker)

unfoldable pub stale_rows : (ℕ → Bool) → ℕ → ℕ → ℕ → Store → List Held
stale_rows locked n moment ttl s = limit n (
    order_by silent_before
      (select (λ h. is_lost moment ttl h && not (locked h.run.id)) (join s s.leases)))

abbrev is_unbound : Option ℕ → Bool
is_unbound none = true
is_unbound (some w) = false

-- `dispatched_at <= moment - start_timeout`, with the subtraction on the other side.
abbrev is_overdue : Option ℕ → ℕ → ℕ → Bool
is_overdue none start_timeout moment = false
is_overdue (some at) start_timeout moment = leb (at + seconds start_timeout) moment

unfoldable pub is_stalled : ℕ → ℕ → Held → Bool
is_stalled moment start_timeout h =
    is_active h.lease.status
    && (is_unbound h.lease.worker_id
        && (same_status h.run.status RunStatus.queued
            && is_overdue h.run.dispatched_at start_timeout moment))

-- ORDER BY dispatched_at, id.
unfoldable pub dispatched_before : Held → Held → Bool
dispatched_before a b =
    let x = or_else a.run.dispatched_at 0 in
    let y = or_else b.run.dispatched_at 0 in if x == y then leb a.run.id b.run.id else leb x y

unfoldable pub stalled_rows : (ℕ → Bool) → ℕ → ℕ → ℕ → Store → List Held
stalled_rows locked n moment start_timeout s = limit n (
    order_by dispatched_before
      (select (λ h. is_stalled moment start_timeout h && not (locked h.run.id)) (join s s.leases)))

unfoldable pub is_orphaned : Held → Bool
is_orphaned h = is_active h.lease.status && is_terminal h.run.status

unfoldable pub acquired_before : Held → Held → Bool
acquired_before a b = leb a.lease.acquired_at b.lease.acquired_at

unfoldable pub orphaned_leases : (ℕ → Bool) → ℕ → Store → List Held
orphaned_leases locked n s = limit n (
    order_by acquired_before
      (select (λ h. is_orphaned h && not (locked h.run.id)) (join s s.leases)))
