-- ===== src/Recovery/Recover.antt =====
-- reliability_services.py: `_append_reliability_event` and `_recover_run`. `none` is a raised
-- `InvalidRunTransition`, which nothing in the sweep catches. `fresh` is the UUID of the Outbox row.
use top.Base.{
  ℕ, suc, Bool, true, false, Option, none, some, ◌∷◌, ◌&&◌, ◌==◌, if◌then◌else◌, update_where,
  is_some,
}
use top.Contracts.{RunStatus}
use top.RunState.{allowed, is_terminal, is_in_flight}
use top.Store.{Store, get_run, update_run, active_lease}
use top.Store.Rows.{
  Message, Run, RowStatus, Recovery, DedupeKey, EventType, OutboxEvent, OutboxRow, OutboxStatus,
  LeaseStatus, Action,
}
use top.Lifecycle.Events.{NewEvent, last_sequence, numbered}
use top.Lifecycle.Callbacks.{runner_actor_id, add_audit, audit_run}
use top.Lifecycle.Results.{on_lease, set_validation}
use top.Lifecycle.Cancel.{add_outbox}

-- What the sweep says of a Run that it ends.
pub record Verdict : Type 0 where
  pub target : RunStatus
  pub reason : Recovery
  pub message : Message

unfoldable pub recovery_event : Verdict → ℕ → NewEvent
recovery_event v moment = record {
  dedupe_key = DedupeKey.recovered v.reason;
  event_type = EventType.run_recovered;
  case_code = none;
  status = some (RowStatus.of_run v.target);
  occurred_at = moment;
}

-- No search for the dedupe key here: a second event of the same reason would fail the transaction.
unfoldable pub append_reliability_event : ℕ → Verdict → ℕ → Store → Store
append_reliability_event run v moment s = record s {
  events = numbered run (suc (last_sequence run s.events)) (recovery_event v moment) ∷ s.events;
}

-- The columns of the Run.
unfoldable pub end_run : Verdict → ℕ → Run → Run
end_run v moment r = record r {
  status = v.target;
  cancel_requested = true;
  timeout_at = none;
  finished_at = some moment;
  error_message = some v.message;
  dispatch_wait_reason = none;
}

abbrev is_open : RowStatus → Bool
unfolding is_in_flight
is_open (RowStatus.of_run status) = is_in_flight status
is_open RowStatus.skipped = false

unfoldable pub end_cases : ℕ → Verdict → Store → Store
unfolding is_in_flight
end_cases run v s = record s {
  cases =
      update_where (λ c. c.run_id == run && is_open c.status)
        (λ c. record c { status = RowStatus.of_run v.target; error_message = some v.message })
        s.cases;
}

unfoldable pub expire_lease : ℕ → ℕ → Store → Store
expire_lease run moment s =
    on_lease (active_lease s run)
      (λ l. record l { status = LeaseStatus.expired; released_at = some moment }) s

unfoldable pub recovery_row : ℕ → ℕ → ℕ → OutboxRow
recovery_row fresh moment run = record {
  id = fresh;
  aggregate_id = run;
  event = OutboxEvent.run_cancel_requested;
  status = OutboxStatus.pending;
  attempts = 0;
  available_at = moment;
  created_at = moment;
  processed_at = none;
  last_error = none;
}

unfoldable pub write_recovery : Run → Verdict → ℕ → ℕ → Store → Store
write_recovery run v fresh moment s =
    add_audit (audit_run runner_actor_id (Action.recovered v.reason run.status v.target) run) (
      add_outbox (recovery_row fresh moment run.id) (
        append_reliability_event run.id v moment (
          set_validation run.id v.target (
            end_cases run.id v
              (expire_lease run.id moment (update_run run.id (end_run v moment) s))))))

-- `true` where a lease was released.
unfoldable pub recover : Run → Verdict → ℕ → ℕ → Store → Option (Store × Bool)
recover run v fresh moment s =
    if is_terminal run.status
    then some (s, false)
    else if allowed run.status v.target
    then some (write_recovery run v fresh moment s, is_some (active_lease s run.id))
    else none

-- The row objects of the sweep are live: a Run is read again when its turn comes.
unfoldable pub recover_run : ℕ → Verdict → ℕ → ℕ → Store → Option (Store × Bool)
recover_run id v fresh moment s = elim (get_run s id) [
  | none ↦ some (s, false)
  | some run ↦ recover run v fresh moment s
]
