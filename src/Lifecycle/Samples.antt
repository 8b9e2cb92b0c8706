-- ===== src/Lifecycle/Samples.antt =====
-- A running Run with its lease, and the Runner's calls on it.
use top.Base.{
  ℕ, ◌≡◌, refl, String, Bool, true, false, Option, none, some, [], ◌∷◌, arith, first, update_where,
  any, count_where,
}
use top.Contracts.{RunStatus, RunResult, CaseResult, CaseResultStatus, Text, seconds, text_eq}
use top.RunState.{allowed, is_terminal, is_started}
use top.Service.{ServiceError, Served, ok, raise}
use top.Store.{Store, get_run, active_lease, update_lease}
use top.Store.Rows.{Run, Lease, LeaseStatus, EventType, EmailPreference}
use top.Store.Samples.{store, queued_run}
use top.Dispatch.Capacity.{HasOneLease}
use top.Lifecycle.Events.{
  RunnerEvent, append_run_event, is_case, known_case, runner_new_event, append_reported,
  record_run_event,
}
use top.Lifecycle.Callbacks.{
  update_worker, find_worker, bind_to, bind_key, bind_runner_slot, report_status, update_run_status,
}
use top.Lifecycle.Results.{
  all, mem_id, distinct, same_ids, cases_of, statuses_agree, with_result, apply_case_results,
  refs_known, free_artifacts, accept_result, record_for, record_run_result,
}
use top.Lifecycle.Cancel.{request_cancel, cancel_run}
use top.Lifecycle.Repeat.{record_run_result-repeat}
use top.Lifecycle.Retry.{update_run_status-repeat}
use top.Lifecycle.Again.{record_run_event-repeat, cancel_run-repeat}
use top.Lifecycle.Outcome.{Concluded, record_run_result-Concluded}

abbrev pub lease : Lease
lease = record {
  id = 31;
  pool_id = 9;
  run_id = 7;
  worker_id = some 21;
  status = LeaseStatus.active;
  acquired_at = 100;
  released_at = none;
}

abbrev pub running_run : Run
running_run = record queued_run {
  status = RunStatus.running;
  started_at = some (seconds 12);
  timeout_at = some (seconds 72);
}

abbrev preference : EmailPreference
preference = record {
  user_id = 3;
  email = none;
  emails = (b'A' ∷ []) ∷ (b'b' ∷ []) ∷ [];
  selected_emails = some ((b'a' ∷ []) ∷ (b'c' ∷ []) ∷ []);
  enabled = true;
  statuses = RunStatus.failed ∷ [];
}

abbrev pub running_store : Store
running_store = record store {
  runs = running_run ∷ [];
  leases = lease ∷ [];
  outbox = [];
  preferences = preference ∷ [];
}

abbrev pub preparing_store : Store
preparing_store = record running_store {
  runs = record running_run { status = RunStatus.preparing; started_at = none } ∷ [];
}

abbrev result_of : ℕ → String → CaseResultStatus → Option String → CaseResult
result_of id code status message = record {
  case_id = id;
  case_code = code;
  status = status;
  started_at = seconds 13;
  finished_at = seconds 14;
  duration_ms = 40;
  failure_category = none;
  error_message = message;
  artifact_ids = [];
}

abbrev pub result : RunResult
result = record {
  run_id = 7;
  status = RunStatus.failed;
  started_at = seconds 12;
  finished_at = seconds 50;
  case_results =
      result_of 1 "TC-HOME-002" CaseResultStatus.passed none
      ∷ result_of 2 "TC-LOGIN-001" CaseResultStatus.failed (some "no such button")
      ∷ [];
  artifacts = [];
}

abbrev pub digest : Text
digest = b'1' ∷ b'f' ∷ []

abbrev pub served : Served (Store × Bool) → Store × Bool
served (ok a) = a
served (raise e) = (store, false)

abbrev pub concluded : Store
concluded = (served (record_run_result 7 digest false result (seconds 51) running_store)).0

pub result_accepted :
    record_run_result 7 digest false result (seconds 51) running_store ≡ ok (concluded, true)
unfolding record_run_result record_for accept_result get_run first allowed distinct mem_id any
    same_ids all cases_of statuses_agree apply_case_results refs_known free_artifacts update_where
    with_result
result_accepted = refl

pub running-HasOneLease : HasOneLease running_store
unfolding count_where
running-HasOneLease = record { at_run = λ run. ground arith }

record_run_result-Concluded_example : Concluded 7 digest result concluded
record_run_result-Concluded_example =
    record_run_result-Concluded 7 digest false result (seconds 51) running_store concluded
      result_accepted running-HasOneLease

pub result_again :
    record_run_result 7 digest true result (seconds 52) concluded ≡ ok (concluded, false)
result_again =
    (record_run_result-repeat 7 digest false result (seconds 51) running_store concluded true
      result_accepted (seconds 52)).0

record_run_result-repeat_example :
    (record_run_result 7 digest true result (seconds 52) concluded ≡ ok (concluded, false))
    × ((other : RunResult) (digest' : Text) (matches' : Bool)
        → other.run_id ≡ 7
        → text_eq digest digest' ≡ false
        → record_run_result 7 digest' matches' other (seconds 52) concluded
          ≡ raise ServiceError.conflict)
record_run_result-repeat_example =
    record_run_result-repeat 7 digest false result (seconds 51) running_store concluded true
      result_accepted (seconds 52)

abbrev reported : Store
reported =
    (served
      (update_run_status 7 RunStatus.running (some "worker-1") (seconds 20) preparing_store)).0

status_accepted :
    update_run_status 7 RunStatus.running (some "worker-1") (seconds 20) preparing_store
    ≡ ok (reported, true)
unfolding update_run_status is_started get_run first bind_runner_slot bind_key active_lease
    find_worker bind_to update_worker update_lease update_where report_status allowed
status_accepted = refl

update_run_status-repeat_example :
    (t' : Store) × (update_run_status 7 RunStatus.running (some "worker-1") (seconds 21) reported
      ≡ ok (t', false))
update_run_status-repeat_example =
    update_run_status-repeat 7 RunStatus.running (some "worker-1") (seconds 20) (seconds 21)
      preparing_store reported true status_accepted

abbrev case_started : RunnerEvent
case_started = record {
  run_id = 7;
  event = EventType.case_started;
  at = seconds 13;
  case_code = some "TC-HOME-002";
  status = none;
  progress_case_code = none;
  digest = digest;
}

abbrev noted : Store
noted = (served (record_run_event 7 case_started running_store)).0

event_accepted : record_run_event 7 case_started running_store ≡ ok (noted, true)
unfolding record_run_event get_run first append_reported known_case is_case append_run_event
    runner_new_event
event_accepted = refl

record_run_event-repeat_example : record_run_event 7 case_started noted ≡ ok (noted, false)
record_run_event-repeat_example =
    record_run_event-repeat 7 case_started running_store noted true event_accepted

abbrev pub canceled : Store
canceled = (served (cancel_run 7 3 41 (seconds 20) store)).0

pub cancel_accepted : cancel_run 7 3 41 (seconds 20) store ≡ ok (canceled, true)
unfolding cancel_run get_run first request_cancel is_terminal
cancel_accepted = refl

cancel_run-repeat_example : cancel_run 7 4 42 (seconds 21) canceled ≡ ok (canceled, false)
cancel_run-repeat_example =
    cancel_run-repeat 7 3 41 (seconds 20) store canceled true cancel_accepted 4 42 (seconds 21)
