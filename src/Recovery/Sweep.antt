-- ===== src/Recovery/Sweep.antt =====
-- reliability_services.py: `process_run_reliability`. `locked` are the Runs and leases that another
-- transaction holds, which SKIP LOCKED passes over; `fresh` gives the UUID of a Run's Outbox row.
use top.Base.{
  ℕ, ◌+◌, ◌-◌, String, Bool, Option, none, some, List, [], ◌∷◌, ◌&&◌, leb, if◌then◌else◌,
}
use top.Contracts.{RunStatus}
use top.Store.{Store, update_lease}
use top.Store.Rows.{Message, Run, Recovery, LeaseStatus, Worker}
use top.Recovery.Recover.{Verdict, recover_run}
use top.Recovery.Select.{timeout_runs, Held, stale_rows, stalled_rows, orphaned_leases}

pub record SweepSummary : Type 0 where
  pub selected : ℕ
  pub timed_out : ℕ
  pub runner_lost : ℕ
  pub dispatch_stalled : ℕ
  pub leases_released : ℕ

abbrev pub no_recoveries : SweepSummary
no_recoveries = record {
  selected = 0;
  timed_out = 0;
  runner_lost = 0;
  dispatch_stalled = 0;
  leases_released = 0;
}

-- A Run to end, and why.
abbrev pub Task : Type 0
Task = ℕ × Verdict

abbrev pub counted : Recovery → Bool → SweepSummary → SweepSummary
counted Recovery.timed_out freed t = record t {
  selected = t.selected + 1;
  timed_out = t.timed_out + 1;
  leases_released = t.leases_released + (if freed then 1 else 0);
}
counted Recovery.runner_lost freed t = record t {
  selected = t.selected + 1;
  runner_lost = t.runner_lost + 1;
  leases_released = t.leases_released + (if freed then 1 else 0);
}
counted Recovery.dispatch_stalled freed t = record t {
  selected = t.selected + 1;
  dispatch_stalled = t.dispatch_stalled + 1;
  leases_released = t.leases_released + (if freed then 1 else 0);
}

-- One of the loops over selected Runs.
unfoldable pub recover_all :
    List Task → (ℕ → ℕ) → ℕ → Store → SweepSummary → Option (Store × SweepSummary)
recover_all [] fresh moment s t = some (s, t)
recover_all ((id, v) ∷ tasks) fresh moment s t = elim (recover_run id v (fresh id) moment s) [
  | none ↦ none
  | some (s', freed) ↦ recover_all tasks fresh moment s' (counted v.reason freed t)
]

abbrev key_of : Option Worker → String
key_of none = ""
key_of (some w) = w.worker_key

unfoldable pub timeout_task : Run → Task
timeout_task r = (
  r.id,
  record {
    target = RunStatus.timed_out;
    reason = Recovery.timed_out;
    message = Message.run_timed_out r.timeout_seconds;
  },
)

unfoldable pub timeout_tasks : List Run → List Task
unfolding timeout_task
timeout_tasks [] = []
timeout_tasks (r ∷ rs) = timeout_task r ∷ timeout_tasks rs

unfoldable pub lost_tasks : List Held → List Task
lost_tasks [] = []
lost_tasks (h ∷ hs) =
    (
      h.run.id,
      record {
        target = RunStatus.infra_error;
        reason = Recovery.runner_lost;
        message = Message.runner_heartbeat_expired (key_of h.worker);
      },
    )
    ∷ lost_tasks hs

unfoldable pub stalled_tasks : List Held → List Task
stalled_tasks [] = []
stalled_tasks (h ∷ hs) =
    (
      h.run.id,
      record {
        target = RunStatus.infra_error;
        reason = Recovery.dispatch_stalled;
        message = Message.run_not_claimed;
      },
    )
    ∷ stalled_tasks hs

unfoldable pub free_orphans : List Held → ℕ → Store → SweepSummary → Store × SweepSummary
free_orphans [] moment s t = (s, t)
free_orphans (h ∷ hs) moment s t =
    free_orphans hs moment
      (update_lease h.lease.id
        (λ l. record l { status = LeaseStatus.released; released_at = some moment }) s)
      (record t { selected = t.selected + 1; leases_released = t.leases_released + 1 })

-- The four parts of the sweep; each takes at most what the batch has left.
unfoldable pub sweep_timeouts : (ℕ → Bool) → (ℕ → ℕ) → ℕ → ℕ → Store → Option (Store × SweepSummary)
sweep_timeouts locked fresh n moment s =
    recover_all (timeout_tasks (timeout_runs locked n moment s)) fresh moment s no_recoveries

unfoldable pub sweep_lost :
    (ℕ → Bool) → (ℕ → ℕ) → ℕ → ℕ → ℕ → Store × SweepSummary → Option (Store × SweepSummary)
sweep_lost locked fresh n moment ttl (s, t) =
    recover_all (lost_tasks (stale_rows locked (n - t.selected) moment ttl s)) fresh moment s t

unfoldable pub sweep_stalled :
    (ℕ → Bool) → (ℕ → ℕ) → ℕ → ℕ → ℕ → Store × SweepSummary → Option (Store × SweepSummary)
sweep_stalled locked fresh n moment start_timeout (s, t) =
    recover_all (stalled_tasks (stalled_rows locked (n - t.selected) moment start_timeout s)) fresh
      moment s t

unfoldable pub sweep_orphans : (ℕ → Bool) → ℕ → ℕ → Store × SweepSummary → Store × SweepSummary
sweep_orphans locked n moment (s, t) =
    free_orphans (orphaned_leases locked (n - t.selected) s) moment s t

infixl 5 ◌>>=◌
abbrev pub ◌>>=◌ : {A B : Type 0} → Option A → (A → Option B) → Option B
none >>= f = none
some a >>= f = f a

abbrev pub within : ℕ → ℕ → ℕ → Bool
within lo n hi = leb lo n && leb n hi

unfoldable pub sweep : (ℕ → Bool) → (ℕ → ℕ) → ℕ → ℕ → ℕ → ℕ → Store → Option (Store × SweepSummary)
sweep locked fresh n moment ttl start_timeout s = do
  one ← sweep_timeouts locked fresh n moment s
  two ← sweep_lost locked fresh n moment ttl one
  three ← sweep_stalled locked fresh n moment start_timeout two
  some (sweep_orphans locked n moment three)

-- A refused argument raises.
unfoldable pub process_run_reliability :
    (ℕ → Bool) → (ℕ → ℕ) → ℕ → ℕ → ℕ → ℕ → Store → Option (Store × SweepSummary)
process_run_reliability locked fresh n moment ttl start_timeout s =
    if within 1 n 1000 && (within 15 ttl 600 && within 30 start_timeout 3600)
    then sweep locked fresh n moment ttl start_timeout s
    else none
