-- ===== src/Dispatch/Prepare.antt =====
-- outbox.py: `_prepare_run_dispatch`, from an Outbox row to a queue and a slot lease. A raised
-- `CapacityWait` is `wait`, a raised `ValueError` is `invalid`; both leave the store as it was.
-- `fresh` is the UUID of the new lease.
use top.Base.{
  ℕ, ◌+◌, String, Bool, true, false, Option, none, some, List, [], ◌∷◌, ◌&&◌, min, max, leb, ◌==◌,
  if◌then◌else◌, select, count_where, sum_where,
}
use top.Contracts.{TargetType, RunnerType, RunSnapshot, AutomationPackageRef, seconds}
use top.RunState.{is_terminal}
use top.Store.{Store, get_run, update_run, get_pool, active_in_pool, active_lease}
use top.Store.Rows.{
  WaitReason, DispatchState, Run, OutboxEvent, OutboxRow, Lease, LeaseStatus, Availability, Worker,
  Pool,
}
use top.Dispatch.Workers.{
  worker_matches, worker_hosts_package, worker_supports_execution_isolation, worker_isolation_rank,
}

pub data Attempt (A : Type 0) : Type 0 where
  go : A → Attempt A
  wait : WaitReason → Attempt A
  invalid : Attempt A

infixl 5 ◌>>=◌ ◌>>◌
abbrev pub ◌>>=◌ : {A B : Type 0} → Attempt A → (A → Attempt B) → Attempt B
go a >>= f = f a
wait r >>= f = wait r
invalid >>= f = invalid

abbrev pub ◌>>◌ : {B : Type 0} → Attempt (Unit {0}) → Attempt B → Attempt B
m >> k = m >>= λ _. k

pub record PreparedDispatch : Type 0 where
  pub queue : Option String
  pub run : Option ℕ
  pub lease : Option ℕ
  pub skip_publish : Bool

abbrev pub unpooled : Option ℕ → PreparedDispatch
unpooled run = record { queue = none; run = run; lease = none; skip_publish = false }

-- `if not workers: raise CapacityWait(reason)`.
unfoldable pub some_of : List Worker → WaitReason → Attempt (List Worker)
some_of [] reason = wait reason
some_of (w ∷ ws) reason = go (w ∷ ws)

unfoldable pub open_pool : Availability → Attempt (Unit {0})
open_pool Availability.draining = wait WaitReason.runner_pool_draining
open_pool Availability.disabled = wait WaitReason.runner_pool_disabled
open_pool Availability.active = go tt

abbrev is_available : Availability → Bool
is_available Availability.active = true
is_available _ = false

-- `last_heartbeat_at >= dispatch_time - ttl`, with the subtraction on the other side.
unfoldable pub is_healthy : Pool → ℕ → ℕ → Worker → Bool
is_healthy pool now ttl w =
    w.pool_id == pool.id && (is_available w.status && leb now (w.last_heartbeat_at + seconds ttl))

-- `allow_in_process_device_worker`.
unfoldable pub device_run : TargetType → RunnerType → Bool
device_run TargetType.app RunnerType.android_appium = true
device_run _ _ = false

unfoldable pub strongest : List Worker → ℕ
strongest [] = 0
strongest (w ∷ ws) = max (worker_isolation_rank w) (strongest ws)

unfoldable pub package_of : RunSnapshot → Attempt AutomationPackageRef
package_of snap = elim snap.automation_package [ none ↦ invalid | some p ↦ go p ]

-- The workers of the pool that may take the Run: healthy, capable, isolated, hosting the exact
-- package, and of the strongest isolation among those.
unfoldable pub eligible_workers : Store → RunSnapshot → Pool → ℕ → ℕ → Attempt (List Worker)
unfolding package_of
eligible_workers s snap pool now ttl = do
  healthy ← some_of (select (is_healthy pool now ttl) s.workers) WaitReason.no_healthy_runner
  capable ←
      some_of (select (worker_matches snap.target_type snap.browser) healthy)
        WaitReason.runner_capability_mismatch
  runtime ← package_of snap
  isolated ←
      some_of
        (select
          (worker_supports_execution_isolation (device_run snap.target_type runtime.runner_type))
          capable)
        WaitReason.runner_isolation_unavailable
  hosting ←
      some_of
        (select (worker_hosts_package runtime.runner_type runtime.image_repository runtime.digest)
          isolated)
        WaitReason.automation_package_unavailable
  go (select (λ w. worker_isolation_rank w == strongest hosting) hosting)

unfoldable pub effective_capacity : Pool → List Worker → ℕ
effective_capacity pool ws = min pool.max_concurrency (sum_where (λ w. true) (λ w. w.max_slots) ws)

unfoldable pub new_lease : ℕ → ℕ → Run → Pool → Lease
new_lease fresh now run pool = record {
  id = fresh;
  pool_id = pool.id;
  run_id = run.id;
  worker_id = none;
  status = LeaseStatus.active;
  acquired_at = now;
  released_at = none;
}

-- Reuse the Run's ACTIVE lease, or take a slot below the effective capacity.
unfoldable pub take_slot :
    Store → Run → Pool → ℕ → ℕ → List Worker → Attempt (PreparedDispatch × Store)
take_slot s run pool now fresh ws = elim (active_lease s run.id) [
  | some l ↦ go (
    record {
      queue = some pool.queue_name;
      run = some run.id;
      lease = some l.id;
      skip_publish = false;
    },
    s,
  )
  | none ↦
      if leb (effective_capacity pool ws) (count_where (active_in_pool pool.id) s.leases)
      then wait WaitReason.runner_pool_capacity_exhausted
      else go (
        record {
          queue = some pool.queue_name;
          run = some run.id;
          lease = some fresh;
          skip_publish = false;
        },
        record s { leases = new_lease fresh now run pool ∷ s.leases },
      )
]

unfoldable pub pool_for : Store → ℕ → Attempt Pool
pool_for s id = elim (get_pool s id) [
  | none ↦ wait WaitReason.runner_pool_not_found
  | some p ↦ go p
]

unfoldable pub prepare_pooled :
    Store → RunSnapshot → Run → ℕ → ℕ → ℕ → ℕ → Attempt (PreparedDispatch × Store)
unfolding pool_for
prepare_pooled s snap run pool_id now ttl fresh = do
  pool ← pool_for s pool_id
  open_pool pool.status
  workers ← eligible_workers s snap pool now ttl
  take_slot s run pool now fresh workers

-- A terminal Run is marked as dispatched and never published.
unfoldable pub settle : ℕ → Run → Run
settle now run = record run {
  dispatch_state = DispatchState.dispatched;
  dispatch_wait_reason = none;
  dispatched_at = some now;
}

unfoldable pub prepare_run :
    Store → RunSnapshot → Run → ℕ → ℕ → ℕ → Attempt (PreparedDispatch × Store)
unfolding settle
prepare_run s snap run now ttl fresh =
    if is_terminal run.status
    then go (
      record { queue = none; run = some run.id; lease = none; skip_publish = true },
      update_run run.id (settle now) s,
    )
    else elim run.runner_pool_id [
      | none ↦ go (unpooled (some run.id), s)
      | some pool_id ↦ prepare_pooled s snap run pool_id now ttl fresh
    ]

unfoldable pub prepare_event :
    Store → OutboxEvent → ℕ → ℕ → ℕ → ℕ → Attempt (PreparedDispatch × Store)
prepare_event s (OutboxEvent.run_queued snap) id now ttl fresh = elim (get_run s id) [
  | none ↦ invalid
  | some run ↦ prepare_run s snap run now ttl fresh
]
prepare_event s _ id now ttl fresh = go (unpooled none, s)

unfoldable pub prepare_run_dispatch :
    Store → OutboxRow → ℕ → ℕ → ℕ → Attempt (PreparedDispatch × Store)
unfolding prepare_event
prepare_run_dispatch s row now ttl fresh = prepare_event s row.event row.aggregate_id now ttl fresh
