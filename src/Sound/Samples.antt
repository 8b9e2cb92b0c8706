-- ===== src/Sound/Samples.antt =====
-- A Run that is created and canceled, and a Runner that sends the result of a Run twice.
use top.Base.{
  any, ℕ, ◌≤◌, ◌≡◌, ◌⊎◌, ◌↔◌, refl, true, false, some, [], ◌∷◌, ◌==◌, All, arith, first, is_some,
  count_where,
}
use top.Contracts.{RunStatus, Text, text_eq, seconds}
use top.RunState.{allowed, is_terminal}
use top.RunState.Graph.{terminal_iff_final}
use top.Store.{Store, get_run}
use top.Store.Samples.{store, snapshot}
use top.Service.{ServiceError, ok, raise}
use top.Lifecycle.Queue.{
  write_run, QueueRequest, new_run, enforce_execution_policy, existing_idempotent_run,
  queue_snapshot_run, admit_run,
}
use top.Lifecycle.Admission.{IsWithinQuota, admit_run-IsWithinQuota, admit_run-existing}
use top.Store.Rows.{Run, EmailPreference, Project}
use top.Lifecycle.Cancel.{cancel_run, request_cancel}
use top.Lifecycle.Events.{append_run_event}
use top.Lifecycle.Emails.{result_deliveries}
use top.Lifecycle.Results.{all, valid_case_result, valid_result, finish}
use top.Lifecycle.Recipients.{Consented, result_deliveries-Consented}
use top.Lifecycle.Samples.{
  served, running_run, running_store, result, digest, concluded, result_accepted, result_again,
  running-HasOneLease,
}
use top.Recovery.Samples.{running-IsSound}
use top.Lifecycle.Outcome.{record_run_result-Concluded}
use top.Sound.Invariant.{IsSound}
use top.Sound.Courses.{Course, Reach-Evolved}
use top.Sound.Operations.{
  Reach, none_yet, then, run_created, run_canceled, result_recorded, Reach-IsSound, Reach-terminal,
}

result_valid : valid_result result ≡ true
unfolding valid_result is_terminal all valid_case_result
result_valid = refl

sent : Reach running_store concluded
sent =
    then none_yet
      (result_recorded 7 digest false result (seconds 51) true result_valid result_accepted)

sent_twice : Reach running_store concluded
sent_twice =
    then sent (result_recorded 7 digest true result (seconds 52) false result_valid result_again)

running_there : get_run running_store 7 ≡ some running_run
unfolding get_run first
running_there = refl

Reach-Evolved_example :
    (run' : Run) × (get_run concluded 7 ≡ some run')
    × (n : ℕ) × Course 7 RunStatus.running concluded sent_twice run'.status n
    × (n ≤ 3)
    × (is_some running_run.result_digest ≡ true
        → (run'.result_digest ≡ running_run.result_digest)
          × (run'.result_document ≡ running_run.result_document))
Reach-Evolved_example =
    Reach-Evolved running_store concluded 7 running_run sent_twice running-IsSound running_there

-- From the concluded Run on, its status is final.
concluded_is : (run : Run) × (get_run concluded 7 ≡ some run) × (is_terminal run.status ≡ true)
unfolding get_run first is_terminal
concluded_is =
    let c =
      record_run_result-Concluded 7 digest false result (seconds 51) running_store concluded
        result_accepted running-HasOneLease in
    (c.row, c.known, ground (arith, c.status))

sent_again : Reach concluded concluded
sent_again =
    then none_yet
      (result_recorded 7 digest true result (seconds 52) false result_valid result_again)

Reach-terminal_example :
    (run' : Run) × (get_run concluded 7 ≡ some run') × (run'.status ≡ concluded_is.0.status)
Reach-terminal_example =
    Reach-terminal concluded concluded 7 concluded_is.0 sent_again
      (Reach-IsSound running_store concluded sent running-IsSound) concluded_is.1 concluded_is.2

result_deliveries-Consented_example :
    (result_deliveries running_store (finish digest result running_run) (seconds 51) ≡ [])
    ⊎ ((p : EmailPreference) × (first (λ x. x.user_id == 3) running_store.preferences ≡ some p)
        × All
            (Consented (finish digest result running_run) p)
            (result_deliveries running_store (finish digest result running_run) (seconds 51)))
unfolding finish
result_deliveries-Consented_example =
    result_deliveries-Consented running_store (finish digest result running_run) (seconds 51)

terminal_iff_final_example :
    (is_terminal RunStatus.passed ≡ true) ↔ ((b : RunStatus) → allowed RunStatus.passed b ≡ false)
terminal_iff_final_example = terminal_iff_final RunStatus.passed

-- The Run of the samples is created in a store that has none, and canceled.
abbrev no_runs : Store
no_runs = record store { runs = []; cases = []; outbox = [] }

abbrev project : Project
project = record { id = 5; max_in_flight_runs = 1; max_daily_runs = 10; run_timeout_seconds = 60 }

abbrev request : QueueRequest
request = record {
  snapshot = snapshot;
  project_id = 5;
  idempotency_key = b'k' ∷ [];
  request_hash = b'h' ∷ [];
  actor_id = 3;
  runner_pool_id = some 9;
  timeout_seconds = 60;
  is_rerun = false;
}

abbrev created : Store
created = (served (admit_run project request 11 100 no_runs)).0

admitted : admit_run project request 11 100 no_runs ≡ ok (created, true)
unfolding admit_run enforce_execution_policy count_where queue_snapshot_run any
admitted = refl

admit_run-IsWithinQuota_example : IsWithinQuota project 100 created
admit_run-IsWithinQuota_example =
    admit_run-IsWithinQuota project request 11 100 no_runs created admitted

admit_run-existing_example :
    (existing_idempotent_run 5 (b'k' ∷ []) (b'h' ∷ []) created ≡ ok (some (new_run request)))
    × ((other : Text)
        → text_eq (b'h' ∷ []) other ≡ false
        → existing_idempotent_run 5 (b'k' ∷ []) other created ≡ raise ServiceError.conflict)
admit_run-existing_example = admit_run-existing project request 11 100 no_runs created admitted

no_runs-IsSound : IsSound no_runs
unfolding count_where
no_runs-IsSound = record {
  keyed = λ id. omega arith;
  runs = tt;
  capacity = record { at_pool = λ id p h. omega arith };
  one_lease = record { at_run = λ run. omega arith };
  log = tt;
  ended = tt;
}

no_event : count_where (λ e. e.run_id == 7) no_runs.events ≡ 0
unfolding count_where
no_event = refl

-- A Run is created and then canceled.
abbrev withdrawn : Store
withdrawn = (served (cancel_run 7 3 41 (seconds 20) created)).0

withdraws : cancel_run 7 3 41 (seconds 20) created ≡ ok (withdrawn, true)
unfolding cancel_run admit_run enforce_execution_policy count_where queue_snapshot_run any write_run
    append_run_event new_run get_run first request_cancel is_terminal
withdraws = refl

created_and_canceled : Reach no_runs withdrawn
created_and_canceled =
    then (then none_yet (run_created project request 11 100 admitted no_event))
      (run_canceled 7 3 41 (seconds 20) true withdraws)

Reach-IsSound_example : IsSound withdrawn
Reach-IsSound_example = Reach-IsSound no_runs withdrawn created_and_canceled no_runs-IsSound
