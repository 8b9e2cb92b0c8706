-- ===== src/Lifecycle/Events.antt =====
-- services.py: `_append_run_event` and `record_run_event`. The digest of a Runner's event document
-- is computed by hashlib and is an argument.
use top.Base.{
  ℕ, suc, String, Bool, true, false, not, Option, none, some, List, [], ◌∷◌, ◌&&◌, max, ◌==◌,
  if◌then◌else◌, first, update_where, str_eq, is_some,
}
use top.Contracts.{RunStatus, Text, same_status, text_eq}
use top.RunState.{is_terminal}
use top.Service.{ServiceError, Served, ok, ◌>>=◌, ◌>>◌, check, or_raise}
use top.Store.{Store, get_run}
use top.Store.Rows.{Run, RunCase, RowStatus, Recovery, DedupeKey, EventType, RunEvent}

abbrev pub recovery_rank : Recovery → ℕ
recovery_rank Recovery.timed_out = 0
recovery_rank Recovery.runner_lost = 1
recovery_rank Recovery.dispatch_stalled = 2

unfoldable pub same_key : DedupeKey → DedupeKey → Bool
same_key DedupeKey.run_created DedupeKey.run_created = true
same_key DedupeKey.cancel_requested DedupeKey.cancel_requested = true
same_key (DedupeKey.status_changed a) (DedupeKey.status_changed b) = same_status a b
same_key (DedupeKey.result_recorded a) (DedupeKey.result_recorded b) = text_eq a b
same_key (DedupeKey.runner_event a) (DedupeKey.runner_event b) = text_eq a b
same_key (DedupeKey.recovered a) (DedupeKey.recovered b) = recovery_rank a == recovery_rank b
same_key _ _ = false

abbrev pub has_key : ℕ → DedupeKey → RunEvent → Bool
has_key run key e = e.run_id == run && same_key e.dedupe_key key

-- `func.max(RunEventRecord.sequence)` of the Run, 0 where it has no event.
unfoldable pub last_sequence : ℕ → List RunEvent → ℕ
last_sequence run [] = 0
last_sequence run (e ∷ es) = max (if e.run_id == run then e.sequence else 0) (last_sequence run es)

-- What a caller says of a new event.
pub record NewEvent : Type 0 where
  pub dedupe_key : DedupeKey
  pub event_type : EventType
  pub case_code : Option String
  pub status : Option RowStatus
  pub occurred_at : ℕ

unfoldable pub numbered : ℕ → ℕ → NewEvent → RunEvent
numbered run sequence n = record {
  run_id = run;
  sequence = sequence;
  dedupe_key = n.dedupe_key;
  event_type = n.event_type;
  case_code = n.case_code;
  status = n.status;
  occurred_at = n.occurred_at;
}

-- The new event takes the next sequence of its Run; the second component is `created`.
unfoldable pub append_run_event : ℕ → NewEvent → Store → Store × Bool
append_run_event run n s = elim (first (has_key run n.dedupe_key) s.events) [
  | some e ↦ (s, false)
  | none ↦
      (record s { events = numbered run (suc (last_sequence run s.events)) n ∷ s.events }, true)
]

-- `InternalRunEventCreate`, with the digest of its document. `progress_case_code` is
-- `current_case_code`.
pub record RunnerEvent : Type 0 where
  pub run_id : ℕ
  pub event : EventType
  pub at : ℕ
  pub case_code : Option String
  pub status : Option RowStatus
  pub progress_case_code : Option String
  pub digest : Text

unfoldable pub is_case : ℕ → String → RunCase → Bool
is_case run code c = c.run_id == run && str_eq c.case_code code

-- A case code that is given must be one of the Run's cases.
unfoldable pub known_case : ℕ → Option String → Store → Served (Unit {0})
known_case run none s = ok tt
known_case run (some code) s =
    check (is_some (first (is_case run code) s.cases)) ServiceError.invalid

-- The status that a Runner's event gives to its case.
unfoldable pub case_status : EventType → Option RowStatus → RowStatus → RowStatus
case_status EventType.case_started reported old = RowStatus.of_run RunStatus.running
case_status EventType.case_finished (some reported) old = reported
case_status _ _ old = old

unfoldable pub write_case : ℕ → Option String → (RunCase → RunCase) → Store → Store
write_case run none f s = s
write_case run (some code) f s = record s { cases = update_where (is_case run code) f s.cases }

unfoldable pub runner_new_event : RunnerEvent → NewEvent
runner_new_event p = record {
  dedupe_key = DedupeKey.runner_event p.digest;
  event_type = p.event;
  case_code = p.case_code;
  status = p.status;
  occurred_at = p.at;
}

unfoldable pub report_case : Run → RunnerEvent → Bool → Store → Store
report_case run p created s =
    if created && not (is_terminal run.status)
    then write_case run.id p.case_code
        (λ c. record c { status = case_status p.event p.status c.status }) s
    else s

unfoldable pub append_reported : Run → RunnerEvent → Store → Served (Store × Bool)
append_reported run p s = do
  known_case run.id p.case_code s
  known_case run.id p.progress_case_code s
  let (s', created) = append_run_event run.id (runner_new_event p) s
  ok (report_case run p created s', created)

unfoldable pub record_run_event : ℕ → RunnerEvent → Store → Served (Store × Bool)
record_run_event run_id p s = do
  check (p.run_id == run_id) ServiceError.invalid
  run ← or_raise (get_run s run_id) ServiceError.not_found
  elim (first (has_key run_id (DedupeKey.runner_event p.digest)) s.events) [
    | some e ↦ ok (s, false)
    | none ↦ append_reported run p s
  ]
