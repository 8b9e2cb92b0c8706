-- ===== src/Recovery/Samples.antt =====
-- A sweep over a Run that is past its deadline.
use top.Base.{
  order_by, ◌+◌, ◌≡◌, ◌∙◌, refl, Bool, false, Option, none, some, ◌==◌, arith, All, first, select,
  update_where, count_where, or_else,
}
use top.Contracts.{RunStatus, seconds}
use top.RunState.{allowed, is_terminal, is_started}
use top.Store.{Store, get_run, get_pool, update_run, active_lease, update_lease}
use top.Store.Rows.{Recovery, Message}
use top.Store.Samples.{store}
use top.Dispatch.Capacity.{IsWithinCapacity}
use top.Lifecycle.Results.{set_validation}
use top.Lifecycle.Samples.{running_run, running_store, preparing_store, running-HasOneLease}
use top.Recovery.Recover.{
  Verdict, append_reliability_event, end_run, end_cases, expire_lease, write_recovery, recover,
  recover_run,
}
use top.Recovery.Sweep.{
  SweepSummary, no_recoveries, recover_all, timeout_task, timeout_tasks, lost_tasks, stalled_tasks,
  sweep_timeouts, sweep_lost, sweep_stalled, sweep, process_run_reliability,
}
use top.Recovery.Select.{
  is_expired, timeout_runs, join, is_lost, stale_rows, is_stalled, stalled_rows,
}
use top.Recovery.Counts.{Tallied, process_run_reliability-Tallied}
use top.Recovery.Blocked.{process_run_reliability-none}
use top.Recovery.Ended.{Recovered, recover_run-Recovered}
use top.Recovery.Deadlines.{HasEnded, process_run_reliability-HasEnded}
use top.Sound.Invariant.{IsSound}

abbrev sweep_of : Store → Option (Store × SweepSummary)
sweep_of s = process_run_reliability (λ id. false) (λ id. id + 1000) 100 (seconds 100) 45 300 s

abbrev pub swept_all : Store × SweepSummary
swept_all = or_else (sweep_of running_store) (store, no_recoveries)

pub sweep_accepted : sweep_of running_store ≡ some swept_all
unfolding process_run_reliability sweep sweep_timeouts timeout_runs order_by select is_expired
    is_started timeout_tasks timeout_task recover_all recover_run get_run first recover is_terminal
    allowed sweep_lost stale_rows sweep_stalled stalled_rows lost_tasks join write_recovery
    append_reliability_event set_validation end_cases expire_lease active_lease update_run
    update_lease update_where end_run is_lost stalled_tasks is_stalled
sweep_accepted = refl

process_run_reliability-Tallied_example :
    Tallied (λ id. false) (λ id. id + 1000) 100 (seconds 100) 45 300 running_store swept_all.1
process_run_reliability-Tallied_example =
    process_run_reliability-Tallied (λ id. false) (λ id. id + 1000) 100 (seconds 100) 45 300
      running_store swept_all.0 swept_all.1 sweep_accepted

pub running-IsWithinCapacity : IsWithinCapacity running_store
unfolding count_where get_pool first
running-IsWithinCapacity = record { at_pool = λ id p h. ground arith }

pub running-IsSound : IsSound running_store
unfolding count_where is_terminal is_started
running-IsSound = record {
  keyed = λ id. ground arith;
  runs =
      (record { finished = refl; watched = refl; begun = λ h. refl; result_final = λ h. cc }, tt);
  capacity = running-IsWithinCapacity;
  one_lease = running-HasOneLease;
  log = tt;
  ended = tt;
}

process_run_reliability-HasEnded_example :
    All
      (HasEnded running_store swept_all.0)
      (timeout_runs (λ id. false) 100 (seconds 100) running_store)
process_run_reliability-HasEnded_example =
    process_run_reliability-HasEnded (λ id. false) (λ id. id + 1000) 100 (seconds 100) 45 300
      running_store swept_all.0 swept_all.1 sweep_accepted running-IsSound

-- The same Run, still PREPARING at its deadline, blocks the sweep.
selects_preparing :
    first (λ r. r.id == 7) (timeout_runs (λ id. false) 100 (seconds 100) preparing_store)
    ≡ get_run preparing_store 7
unfolding timeout_runs order_by select is_expired is_started first get_run
selects_preparing = refl

preparing_there :
    get_run preparing_store 7
    ≡ some (record running_run { status = RunStatus.preparing; started_at = none })
unfolding get_run first
preparing_there = refl

process_run_reliability-none_example : sweep_of preparing_store ≡ none
process_run_reliability-none_example =
    process_run_reliability-none (λ id. false) (λ id. id + 1000) 100 (seconds 100) 45 300
      preparing_store (record running_run { status = RunStatus.preparing; started_at = none })
      (selects_preparing ∙ preparing_there) preparing_there refl

abbrev late : Verdict
late = record {
  target = RunStatus.timed_out;
  reason = Recovery.timed_out;
  message = Message.run_timed_out 60;
}

abbrev ended : Store × Bool
ended = or_else (recover_run 7 late 41 (seconds 100) running_store) (store, false)

recovers : recover_run 7 late 41 (seconds 100) running_store ≡ some ended
unfolding recover_run get_run first recover is_terminal allowed
recovers = refl

running_there : get_run running_store 7 ≡ some running_run
unfolding get_run first
running_there = refl

still_going : is_terminal running_run.status ≡ false
unfolding is_terminal
still_going = refl

recover_run-Recovered_example : Recovered 7 (seconds 100) late ended.0
recover_run-Recovered_example =
    recover_run-Recovered 7 late 41 (seconds 100) running_store ended.0 running_run ended.1 recovers
      running_there still_going running-HasOneLease
