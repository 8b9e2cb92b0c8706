-- ===== src/Sound/Writes.antt =====
-- The writes that the operations share: leases that are closed, and one Run with its event.
use top.Base.{
  ℕ, ◌≤◌, ◌≡◌, refl, sym, Bool, true, false, Option, none, some, List, arith, ◌==◌, count_where,
  count_where-update_le, first-some, update_where,
}
use mathlib.Core.Path.{subst}
use top.Store.{Store, get_run, active_of_run, active_in_pool, is_active, active_lease, update_lease}
use top.Store.Rows.{Run, Lease}
use top.Lifecycle.Events.{NewEvent, numbered, append_run_event}
use top.Lifecycle.Results.{release_runner_slot, on_lease}
use top.Lifecycle.Steps.{RunStep, Steps, Steps-update_first}
use top.Sound.Log.{is_recovery, append_run_event-IsLog, append_run_event-All}
use top.Sound.Invariant.{Ended, IsSound, Effect, Steps-ended}

-- What an operation does to the leases: it closes or binds them.
pub record Closes (ls ks : List Lease) : Type 0 where
  pub fewer_of_run :
      (run : ℕ) → count_where (active_of_run run) ks ≤ count_where (active_of_run run) ls
  pub fewer_in_pool :
      (pool : ℕ) → count_where (active_in_pool pool) ks ≤ count_where (active_in_pool pool) ls

pub Closes-refl : (ls : List Lease) → Closes ls ls
Closes-refl ls = record { fewer_of_run = λ run. omega arith; fewer_in_pool = λ pool. omega arith }

pub update_lease-Closes :
    (id : ℕ) (f : Lease → Lease) (ls : List Lease)
    → ((l : Lease) → ((f l).run_id ≡ l.run_id) × ((f l).pool_id ≡ l.pool_id))
    → ((l : Lease) → is_active (f l).status ≡ true → is_active l.status ≡ true)
    → Closes ls (update_where (λ l. l.id == id) f ls)
update_lease-Closes id f ls keeps active = record {
  fewer_of_run = λ run.
      count_where-update_le (active_of_run run) _ f ls (λ l e. ground (arith, keeps l, active l));
  fewer_in_pool = λ pool.
      count_where-update_le (active_in_pool pool) _ f ls (λ l e. ground (arith, keeps l, active l));
}

pub on_lease-Closes :
    (o : Option Lease) (f : Lease → Lease) (s : Store)
    → ((l : Lease) → ((f l).run_id ≡ l.run_id) × ((f l).pool_id ≡ l.pool_id))
    → ((l : Lease) → is_active (f l).status ≡ true → is_active l.status ≡ true)
    → Closes s.leases (on_lease o f s).leases
unfolding update_lease
on_lease-Closes none f s keeps active = Closes-refl s.leases
on_lease-Closes (some l) f s keeps active = update_lease-Closes l.id f s.leases keeps active

pub release-Closes :
    (run now : ℕ) (s : Store) → Closes s.leases (release_runner_slot run now s).leases
unfolding release_runner_slot
release-Closes run now s = on_lease-Closes (active_lease s run) _ s (λ x. (refl, refl)) (λ x e. cc)

-- Steps of the Runs with the event that tells of them. `m` is the store that the event is appended
-- to.
pub Effect-Steps :
    (s m t : Store) (run : ℕ) (n : NewEvent)
    → IsSound s
    → Steps s.runs t.runs
    → t.pools ≡ s.pools
    → Closes s.leases t.leases
    → m.events ≡ s.events
    → t.events ≡ (append_run_event run n m).0.events
    → is_recovery n.dedupe_key ≡ false
    → Effect s t
Effect-Steps s m t run n w steps pools closes before after plain = record {
  runs = steps;
  pools = pools;
  fewer_of_run = closes.fewer_of_run;
  fewer_in_pool = closes.fewer_in_pool;
  log = rw after (append_run_event-IsLog run n m (rw before w.log));
  ended = rw after (
      append_run_event-All (Ended t.runs) run n m (unfold numbered in λ r p q. cc)
        (rw before (Steps-ended s.runs t.runs s.events steps w.ended)));
}

-- The write of one Run whose row was read.
pub Effect-write :
    (s m t : Store) (run : Run) (f : Run → Run) (n : NewEvent)
    → IsSound s
    → get_run s run.id ≡ some run
    → RunStep run (f run)
    → t.runs ≡ update_where (λ r. r.id == run.id) f s.runs
    → t.pools ≡ s.pools
    → Closes s.leases t.leases
    → m.events ≡ s.events
    → t.events ≡ (append_run_event run.id n m).0.events
    → is_recovery n.dedupe_key ≡ false
    → Effect s t
unfolding get_run
Effect-write s m t run f n w known step runs =
    Effect-Steps s m t run.id n w
      (rw runs (Steps-update_first _ f s.runs run known (w.keyed run.id) step))

pub get_run-id : (s : Store) (id : ℕ) (run : Run) → get_run s id ≡ some run → run.id ≡ id
unfolding get_run
get_run-id s id run h =
    let test : Run → Bool = λ r. r.id == id in ground (arith, first-some test s.runs {x = run} h)

pub get_run_self :
    (s : Store) (id : ℕ) (run : Run) → get_run s id ≡ some run → get_run s run.id ≡ some run
get_run_self s id run h = subst (λ n. get_run s n ≡ some run) (sym (get_run-id s id run h)) h
