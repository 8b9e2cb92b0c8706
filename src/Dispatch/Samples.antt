-- ===== src/Dispatch/Samples.antt =====
-- The publisher on a store with one queued Run.
use top.Base.{
  order_by, ◌+◌, ◌≤◌, ◌≡◌, refl, String, true, false, Option, none, some, [], ◌∷◌, or_else, length,
  arith, first, select, count_where, update_where, any, sum_where,
}
use top.Contracts.{seconds, lower, text_eq}
use top.RunState.{is_terminal}
use top.Store.{Store, get_run, update_run, get_pool, active_of_run, active_lease}
use top.Store.Rows.{Isolation, CredentialScope}
use top.Store.Samples.{store, queued_run, snapshot, pool, worker}
use top.Dispatch.Workers.{
  worker_matches, worker_hosts_package, worker_supports_execution_isolation, worker_isolation_rank,
}
use top.Dispatch.Prepare.{
  PreparedDispatch, go, some_of, open_pool, is_healthy, device_run, strongest, package_of,
  eligible_workers, effective_capacity, new_lease, take_slot, pool_for, prepare_pooled, prepare_run,
  prepare_run_dispatch,
}
use top.Dispatch.Batch.{
  Task, publish, Summary, no_rounds, selected, update_row, publish_prepared, dispatch_row,
  dispatch_rows, is_due, due_rows, dispatch_outbox_batch,
}
use top.Dispatch.Capacity.{
  IsWithinCapacity, HasOneLease, dispatch_outbox_batch-IsWithinCapacity,
  dispatch_outbox_batch-HasOneLease,
}
use top.Dispatch.Eligible.{isolation_dedicated}
use top.Dispatch.Placed.{Placed}
use top.Dispatch.Progress.{Settled, selected-dispatch_outbox_batch, dispatch_outbox_batch-Settled}

-- Everything that a run of the batch computes through.
abbrev run_batch : (Task → Option String) → Option (Store × Summary)
run_batch send =
    dispatch_outbox_batch send (λ id. false) (λ id. id + 1000) 20 (seconds 20) 45 2000000 store

abbrev accepting : Task → Option String
accepting t = none

abbrev after : (Task → Option String) → Store × Summary
after send = or_else (run_batch send) (store, no_rounds)

run_accepted : run_batch accepting ≡ some (after accepting)
unfolding dispatch_outbox_batch dispatch_rows dispatch_row prepare_run_dispatch prepare_run
    prepare_pooled eligible_workers some_of take_slot due_rows order_by select first is_due
    is_terminal get_run get_pool pool_for open_pool is_healthy package_of worker_matches
    worker_supports_execution_isolation worker_hosts_package worker_isolation_rank strongest
    active_lease effective_capacity sum_where count_where device_run any lower text_eq
run_accepted = refl

-- The Run gets the slot and is published; with a broker that raises, it keeps no lease and waits.
published_and_leased :
    ((after accepting).1 ≡ record { published = 1; failed = 0; waiting = 0 })
    × (count_where (active_of_run 7) (after accepting).0.leases ≡ 1)
unfolding dispatch_outbox_batch dispatch_rows dispatch_row prepare_run_dispatch prepare_run
    prepare_pooled eligible_workers some_of take_slot due_rows order_by select first is_due
    is_terminal get_run get_pool pool_for open_pool is_healthy package_of worker_matches
    worker_supports_execution_isolation worker_hosts_package worker_isolation_rank strongest
    active_lease effective_capacity sum_where count_where device_run any lower text_eq
    publish_prepared publish new_lease update_run update_row update_where
published_and_leased = (refl, refl)

store-IsWithinCapacity : IsWithinCapacity store
unfolding count_where
store-IsWithinCapacity = record { at_pool = λ id p h. omega arith }

store-HasOneLease : HasOneLease store
unfolding count_where
store-HasOneLease = record { at_run = λ run. omega arith }

dispatch_outbox_batch-IsWithinCapacity_example : IsWithinCapacity (after accepting).0
dispatch_outbox_batch-IsWithinCapacity_example =
    dispatch_outbox_batch-IsWithinCapacity accepting (λ id. false) (λ id. id + 1000) 20 (seconds 20)
      45 2000000 store (after accepting).0 (after accepting).1 run_accepted store-IsWithinCapacity

dispatch_outbox_batch-HasOneLease_example : HasOneLease (after accepting).0
dispatch_outbox_batch-HasOneLease_example =
    dispatch_outbox_batch-HasOneLease accepting (λ id. false) (λ id. id + 1000) 20 (seconds 20) 45
      2000000 store (after accepting).0 (after accepting).1 run_accepted store-HasOneLease

selected-dispatch_outbox_batch_example :
    (selected (after accepting).1 ≡ length (due_rows (λ id. false) (seconds 20) 20 store))
    × (selected (after accepting).1 ≤ 20)
selected-dispatch_outbox_batch_example =
    selected-dispatch_outbox_batch accepting (λ id. false) (λ id. id + 1000) 20 (seconds 20) 45
      2000000 store (after accepting).0 (after accepting).1 run_accepted

dispatch_outbox_batch-Settled_example :
    Settled (seconds 20) (due_rows (λ id. false) (seconds 20) 20 store) (after accepting).0.outbox
dispatch_outbox_batch-Settled_example =
    dispatch_outbox_batch-Settled accepting (λ id. false) (λ id. id + 1000) 20 (seconds 20) 45
      2000000 store (after accepting).0 (after accepting).1 run_accepted

eligible_of_store : eligible_workers store snapshot pool (seconds 20) 45 ≡ go (worker ∷ [])
unfolding eligible_workers some_of select is_healthy package_of worker_matches
    worker_supports_execution_isolation worker_hosts_package worker_isolation_rank strongest
    device_run any lower text_eq
eligible_of_store = refl

abbrev prepared : PreparedDispatch
prepared = record {
  queue = some pool.queue_name;
  run = some 7;
  lease = some 1000;
  skip_publish = false;
}

abbrev with_lease : Store
with_lease = record store { leases = new_lease 1000 (seconds 20) queued_run pool ∷ store.leases }

worker_supported : worker_supports_execution_isolation false worker ≡ true
unfolding worker_supports_execution_isolation
worker_supported = refl

isolation_dedicated_example :
    (2 ≤ worker_isolation_rank worker)
    × (i : Isolation) × (worker.capabilities.execution_isolation ≡ some i)
    × (i.dedicated_process ≡ true)
    × (i.credential_scope ≡ CredentialScope.run_secrets_only)
isolation_dedicated_example = isolation_dedicated worker worker_supported
