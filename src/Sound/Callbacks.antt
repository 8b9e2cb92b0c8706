-- ===== src/Sound/Callbacks.antt =====
-- The Runner's status callbacks (`update_run_status`) and the invariant.
use top.Base.{
  ℕ, ◌≡◌, refl, String, Bool, true, inl, inr, Option, none, some, arith, Option-cases, Bool-cases,
}
use mathlib.Core.Path.{subst}
use top.Contracts.{RunStatus, same_status}
use top.RunState.{allowed, is_started}
use top.Service.{ok, check, or_raise, call_returned, check-eq-ok, or_raise-eq-ok}
use top.Store.{Store, get_run, update_run, active_lease, update_lease}
use top.Store.Rows.{Run, Lease, Worker}
use top.Lifecycle.Callbacks.{
  update_worker, find_worker, bind_to, bind_key, bind_runner_slot, enter, status_event,
  change_status, report_status, update_run_status,
}
use top.Lifecycle.Steps.{Steps-refl, enter-RunStep}
use top.Sound.Log.{append_run_event-runs, append_run_event-leases, append_run_event-pools}
use top.Sound.Invariant.{IsSound, Effect}
use top.Sound.Writes.{Closes, Closes-refl, update_lease-Closes, Effect-write, get_run_self}

-- Binding a lease to a worker.
pub record Binds (s t : Store) : Type 0 where
  pub runs : t.runs ≡ s.runs
  pub pools : t.pools ≡ s.pools
  pub events : t.events ≡ s.events
  pub leases : Closes s.leases t.leases

Binds-refl : (s : Store) → Binds s s
Binds-refl s = record { runs = refl; pools = refl; events = refl; leases = Closes-refl s.leases }

bind_to-Binds : (now : ℕ) (l : Lease) (w : Worker) (s : Store) → Binds s (bind_to now l w s)
unfolding bind_to update_worker update_lease
bind_to-Binds now l w s = record {
  runs = refl;
  pools = refl;
  events = refl;
  leases = update_lease-Closes l.id _ s.leases (λ x. (refl, refl)) (λ x e. e);
}

bind_key-Binds :
    (run : Run) (key : String) (now : ℕ) (s t : Store) (b : Bool)
    → bind_key run key now s ≡ ok (t, b)
    → Binds s t
unfolding bind_key
bind_key-Binds run key now s t b h =
    let (l, e1, _) = call_returned (or_raise (active_lease s run.id) _) _ h in
    let found : active_lease s run.id ≡ some l = or_raise-eq-ok _ _ e1 in
    elim (Option-cases (find_worker key s)) [
      | inl n ↦ absurd (ground (arith, found))
      | inr (w, q) ↦
          let done : bind_to now l w s ≡ t = ground (arith, found) in
          rw done at (bind_to-Binds now l w s)
    ]

pub bind_runner_slot-Binds :
    (run : Run) (key : Option String) (now : ℕ) (s t : Store) (b : Bool)
    → bind_runner_slot run key now s ≡ ok (t, b)
    → Binds s t
unfolding bind_runner_slot
bind_runner_slot-Binds run none now s t b h = subst (λ x. Binds s x) (ground arith) (Binds-refl s)
bind_runner_slot-Binds run (some key) now s t b h = elim (Option-cases run.runner_pool_id) [
  | inl n ↦ subst (λ x. Binds s x) (ground arith) (Binds-refl s)
  | inr (pool, q) ↦ bind_key-Binds run key now s t b (ground arith)
]

Binds-Effect : (s t : Store) → Binds s t → IsSound s → Effect s t
Binds-Effect s t b w = record {
  runs = rw b.runs (Steps-refl s.runs);
  pools = b.pools;
  fewer_of_run = b.leases.fewer_of_run;
  fewer_in_pool = b.leases.fewer_in_pool;
  log = rw b.events w.log;
  ended = rw (b.runs, b.events) w.ended;
}

change_status-Effect :
    (run : Run) (target : RunStatus) (now : ℕ) (s m : Store)
    → IsSound s
    → Binds s m
    → get_run s run.id ≡ some run
    → is_started target ≡ true
    → allowed run.status target ≡ true
    → Effect s (change_status run target now m)
unfolding change_status update_run status_event
change_status-Effect run target now s m w b known started move =
    Effect-write s (update_run run.id (enter target now) m) _ run (enter target now)
      (status_event target now) w known (enter-RunStep target now run started move)
      (rw (append_run_event-runs, b.runs)) (rw (append_run_event-pools, b.pools))
      (rw append_run_event-leases b.leases) b.events refl refl

status_reported :
    (run : Run) (target : RunStatus) (now : ℕ) (s m t : Store) (changed : Bool)
    → IsSound s
    → Binds s m
    → get_run s run.id ≡ some run
    → is_started target ≡ true
    → report_status run target now m ≡ ok (t, changed)
    → Effect s t
unfolding report_status
status_reported run target now s m t changed w b known started h =
    elim (Bool-cases (same_status run.status target)) [
      | inl q ↦ subst (λ x. Effect s x) (ground arith) (Binds-Effect s m b w)
      | inr q ↦ elim (Bool-cases (allowed run.status target)) [
        | inl a ↦
            subst (λ x. Effect s x) (ground arith)
              (change_status-Effect run target now s m w b known started a)
        | inr n ↦ absurd (ground arith)
      ]
    ]

-- A status callback keeps the invariant of the store.
pub update_run_status-Effect :
    (run_id : ℕ) (target : RunStatus) (key : Option String) (now : ℕ) (s t : Store) (changed : Bool)
    → update_run_status run_id target key now s ≡ ok (t, changed)
    → IsSound s
    → Effect s t
unfolding update_run_status
update_run_status-Effect run_id target key now s t changed h w =
    let (_, e1, h1) = call_returned (check (is_started target) _) _ h in
    let (run, e2, h2) = call_returned (or_raise (get_run s run_id) _) _ h1 in
    let ((m, b), e3, h3) = call_returned (bind_runner_slot run key now s) _ h2 in
    let bound = bind_runner_slot-Binds run key now s m b e3 in
    let known = get_run_self s run_id run (or_raise-eq-ok _ _ e2) in
    status_reported run target now s m t changed w bound known (check-eq-ok _ _ e1) h3
