-- ===== src/Lifecycle/Retry.antt =====
-- Status reports that are sent twice.
use mathlib.Core.Path.{subst}
use top.Base.{
  ℕ, ◌≡◌, ◌∙◌, refl, String, Bool, true, false, inl, inr, Option, none, some, arith, ◌==◌,
  first-update_where, Bool-cases, Option-cases, str_eq,
}
use top.Contracts.{RunStatus, same_status}
use top.RunState.{allowed, is_started}
use top.Service.{ok, check, or_raise, call_returned, check-eq-ok, or_raise-eq-ok}
use top.Store.{Store, get_run, update_run, active_lease, active_of_run, update_lease}
use top.Store.Rows.{Run, Lease, Worker}
use top.Lifecycle.Events.{NewEvent, append_run_event}
use top.Lifecycle.Callbacks.{
  may_bind, is_available, update_worker, find_worker, bind_to, bind_key, bind_runner_slot, enter,
  change_status, report_status, update_run_status,
}
use top.Sound.Log.{append_run_event-leases, append_run_event-runs}
use top.Sound.Callbacks.{bind_runner_slot-Binds}
use top.Sound.Writes.{get_run-id, get_run_self}

append_run_event-workers :
    (run : ℕ) (n : NewEvent) (s : Store) → (append_run_event run n s).0.workers ≡ s.workers
unfolding append_run_event
append_run_event-workers run n s = ground arith

-- The binding that a call made is there for the next one.
record Bound (run : Run) (key : String) (s : Store) : Type 0 where
  lease : Lease
  worker : Worker
  leased : active_lease s run.id ≡ some lease
  listed : find_worker key s ≡ some worker
  fits : (worker.pool_id == lease.pool_id) ≡ true
  available : is_available worker.status ≡ true
  bound : may_bind lease.worker_id worker.id ≡ true

bind_to-Bound :
    (run : Run) (key : String) (now : ℕ) (s : Store) (l : Lease) (w : Worker)
    → active_lease s run.id ≡ some l
    → find_worker key s ≡ some w
    → (w.pool_id == l.pool_id) ≡ true
    → is_available w.status ≡ true
    → Bound run key (bind_to now l w s)
unfolding bind_to update_worker update_lease active_lease find_worker
bind_to-Bound run key now s l w leased listed fits available =
    let f : Lease → Lease = λ x. record x { worker_id = some w.id } in
    let g : Worker → Worker = λ x. record x { last_heartbeat_at = now } in
    record {
      lease = f l;
      worker = g w;
      leased =
          first-update_where (active_of_run run.id) (λ x. x.id == l.id) f s.leases l (λ y. refl)
            leased (ground arith);
      listed =
          first-update_where (λ x. str_eq x.worker_key key) (λ x. x.id == w.id) g s.workers w
            (λ y. refl) listed (ground arith);
      fits = fits;
      available = available;
      bound = ground arith;
    }

bind_key-Bound :
    (run : Run) (key : String) (now : ℕ) (s t : Store) (b : Bool)
    → bind_key run key now s ≡ ok (t, b)
    → Bound run key t
unfolding bind_key
bind_key-Bound run key now s t b h =
    let (l, e1, h1) = call_returned (or_raise (active_lease s run.id) _) _ h in
    let (w, e2, h2) = call_returned (or_raise (find_worker key s) _) _ h1 in
    let (_, e3, h3) = call_returned (check (w.pool_id == l.pool_id) _) _ h2 in
    let (_, e4, h4) = call_returned (check (is_available w.status) _) _ h3 in
    let (_, e5, h5) = call_returned (check (may_bind l.worker_id w.id) _) _ h4 in
    subst (Bound run key) (ground arith) (
      bind_to-Bound run key now s l w (or_raise-eq-ok _ _ e1) (or_raise-eq-ok _ _ e2)
        (check-eq-ok _ _ e3) (check-eq-ok _ _ e4))

bind_key-again :
    (run : Run) (key : String) (later : ℕ) (s : Store)
    → Bound run key s
    → (t : Store) × (bind_key run key later s ≡ ok (t, true))
unfolding bind_key
bind_key-again run key later s b = (
  bind_to later b.lease b.worker s,
  rw (b.leased, b.listed) (rw (b.fits, b.available, b.bound) refl),
)

Bound-moves :
    (run run' : Run) (key : String) (s t : Store)
    → run'.id ≡ run.id
    → t.leases ≡ s.leases
    → t.workers ≡ s.workers
    → Bound run key s
    → Bound run' key t
unfolding active_lease find_worker
Bound-moves run run' key s t same ls ws b = record {
  lease = b.lease;
  worker = b.worker;
  leased = rw (same, ls) b.leased;
  listed = rw ws b.listed;
  fits = b.fits;
  available = b.available;
  bound = b.bound;
}

bind_runner_slot-pool :
    (run : Run) (p : ℕ) (key : String) (now : ℕ) (s : Store)
    → run.runner_pool_id ≡ some p
    → bind_runner_slot run (some key) now s ≡ bind_key run key now s
unfolding bind_runner_slot bind_key
bind_runner_slot-pool run p key now s q = rw (q, bind_runner_slot) refl

bind_runner_slot-again :
    (run run' : Run) (key : Option String) (now later : ℕ) (s m t : Store) (b : Bool)
    → bind_runner_slot run key now s ≡ ok (m, b)
    → run'.id ≡ run.id
    → run'.runner_pool_id ≡ run.runner_pool_id
    → t.leases ≡ m.leases
    → t.workers ≡ m.workers
    → (t' : Store) × (b' : Bool) × (bind_runner_slot run' key later t ≡ ok (t', b'))
unfolding bind_runner_slot
bind_runner_slot-again run run' none now later s m t b h same pool ls ws = (t, false, refl)
bind_runner_slot-again run run' (some key) now later s m t b h same pool ls ws =
    elim (Option-cases run.runner_pool_id) [
      | inl n ↦ (t, false, rw (pool ∙ n, bind_runner_slot) refl)
      | inr (p, q) ↦
          let done : bind_key run key now s ≡ ok (m, b) = ground arith in
          let (t', e) =
            bind_key-again run' key later t
              (Bound-moves run run' key m t same ls ws (bind_key-Bound run key now s m b done)) in
          (t', true, bind_runner_slot-pool run' p key later t (pool ∙ q) ∙ e)
    ]

-- The Run that a report leaves, and the tables that it does not write.
record Reported (run : Run) (target : RunStatus) (m t : Store) : Type 0 where
  row : Run
  known : get_run t run.id ≡ some row
  at_target : row.status ≡ target
  same_id : row.id ≡ run.id
  same_pool : row.runner_pool_id ≡ run.runner_pool_id
  leases : t.leases ≡ m.leases
  workers : t.workers ≡ m.workers

same_status-eq : (a b : RunStatus) → same_status a b ≡ true → a ≡ b
same_status-eq a b h = ground arith

change_status-Reported :
    (run : Run) (target : RunStatus) (now : ℕ) (m : Store)
    → get_run m run.id ≡ some run
    → Reported run target m (change_status run target now m)
unfolding change_status update_run get_run enter
change_status-Reported run target now m known = record {
  row = enter target now run;
  known = simp append_run_event-runs (
      first-update_where (λ x. x.id == run.id) (λ x. x.id == run.id) (enter target now) m.runs run
        (λ x. refl) known (ground arith));
  at_target = refl;
  same_id = refl;
  same_pool = refl;
  leases = simp append_run_event-leases;
  workers = simp append_run_event-workers;
}

report_status-Reported :
    (run : Run) (target : RunStatus) (now : ℕ) (m t : Store) (changed : Bool)
    → get_run m run.id ≡ some run
    → report_status run target now m ≡ ok (t, changed)
    → Reported run target m t
unfolding report_status
report_status-Reported run target now m t changed known h =
    elim (Bool-cases (same_status run.status target)) [
      | inl q ↦ subst (Reported run target m) (ground arith) (record {
        row = run;
        known = known;
        at_target = same_status-eq run.status target q;
        same_id = refl;
        same_pool = refl;
        leases = refl;
        workers = refl;
      })
      | inr q ↦ elim (Bool-cases (allowed run.status target)) [
        | inr n ↦ absurd (ground arith)
        | inl a ↦
            subst (Reported run target m) (ground arith)
              (change_status-Reported run target now m known)
      ]
    ]

get_run-same :
    (s m : Store) (id : ℕ) (run : Run)
    → m.runs ≡ s.runs
    → get_run s id ≡ some run
    → get_run m id ≡ some run
unfolding get_run
get_run-same s m id run e h = rw e h

update_run_status-unchanged :
    (run_id : ℕ) (row : Run) (target : RunStatus) (key : Option String) (later : ℕ) (t t' : Store)
    (b : Bool)
    → is_started target ≡ true
    → get_run t run_id ≡ some row
    → bind_runner_slot row key later t ≡ ok (t', b)
    → row.status ≡ target
    → update_run_status run_id target key later t ≡ ok (t', false)
unfolding update_run_status report_status
update_run_status-unchanged run_id row target key later t t' b started there e q =
    rw (started, there) (rw e (ground (arith, q)))

-- A status report that succeeded succeeds again, and then says that it changed nothing, as long as
-- nothing else happened.
pub update_run_status-repeat :
    (run_id : ℕ) (target : RunStatus) (key : Option String) (now later : ℕ) (s t : Store)
    (changed : Bool)
    → update_run_status run_id target key now s ≡ ok (t, changed)
    → (t' : Store) × (update_run_status run_id target key later t ≡ ok (t', false))
unfolding update_run_status report_status
update_run_status-repeat run_id target key now later s t changed h =
    let (_, e1, h1) = call_returned (check (is_started target) _) _ h in
    let (run, e2, h2) = call_returned (or_raise (get_run s run_id) _) _ h1 in
    let ((m, b), e3, h3) = call_returned (bind_runner_slot run key now s) _ h2 in
    let found = or_raise-eq-ok _ _ e2 in
    let binds = bind_runner_slot-Binds run key now s m b e3 in
    let known = get_run-same s m run.id run binds.runs (get_run_self s run_id run found) in
    let r = report_status-Reported run target now m t changed known h3 in
    let (t', b', e4) =
      bind_runner_slot-again run r.row key now later s m t b e3 r.same_id r.same_pool r.leases
        r.workers in
    let there : get_run t run_id ≡ some r.row =
      subst (λ n. get_run t n ≡ some r.row) (get_run-id s run_id run found) r.known in
    (
      t',
      update_run_status-unchanged run_id r.row target key later t t' b' (check-eq-ok _ _ e1) there
          e4 r.at_target,
    )
