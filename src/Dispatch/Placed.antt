-- ===== src/Dispatch/Placed.antt =====
-- outbox.py: what `_prepare_run_dispatch` makes sure of before a Run goes to the queue of its pool.
use top.Base.{ℕ, suc, ◌≤◌, ◌≡◌, ◌≢◌, none, some, List, [], All, count_where}
use top.Contracts.{RunSnapshot, AutomationPackageRef}
use top.Store.{Store, get_pool, active_in_pool, active_lease}
use top.Store.Rows.{Availability, Worker, Pool}
use top.Dispatch.Prepare.{effective_capacity}
use top.Dispatch.Eligible.{IsEligible}

-- The pool of a Run is ACTIVE and has eligible workers, and if the Run holds no slot there is one
-- within what these workers offer.
pub record Placed (s : Store) (snap : RunSnapshot) (runtime : AutomationPackageRef)
    (run pool_id : ℕ) (now ttl : ℕ) : Type 0 where
  pub pool : Pool
  pub known : get_pool s pool_id ≡ some pool
  pub active : pool.status ≡ Availability.active
  pub workers : List Worker
  pub some_worker : workers ≢ []
  pub eligible : All (IsEligible snap runtime pool now ttl) workers
  pub room :
      active_lease s run ≡ none
      → suc (count_where (active_in_pool pool.id) s.leases) ≤ effective_capacity pool workers
