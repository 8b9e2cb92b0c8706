-- ===== src/Lifecycle/Results.antt =====
-- services.py: `_release_runner_slot` and `record_run_result`, and the validators of `RunResult`
-- and `CaseResult` in models.py. The digest of a result is computed by hashlib: two arguments stand
-- for it, the digest and the test that the stored document is this result.
use top.Base.{
  ℕ, String, Bool, true, false, not, Option, none, some, List, [], ◌∷◌, ◌++◌, ◌&&◌, ◌==◌, leb,
  if◌then◌else◌, first, update_where, str_eq, is_some, any, length, map, holds,
}
use top.Contracts.{RunStatus, CaseResultStatus, Text, text_eq, Artifact, CaseResult, RunResult}
use top.RunState.{allowed, is_terminal}
use top.Service.{ServiceError, Served, ok, ◌>>=◌, ◌>>◌, check, or_raise}
use top.Store.{Store, get_run, update_run, active_lease, update_lease}
use top.Store.Rows.{
  Message, text, Run, RunCase, RowStatus, of_result, DedupeKey, EventType, Lease, LeaseStatus,
  Action, ArtifactRow, ChangeRequest,
}
use top.Lifecycle.Events.{NewEvent, append_run_event}
use top.Lifecycle.Callbacks.{runner_actor_id, add_audit, audit_run}
use top.Lifecycle.Emails.{enqueue_run_result_email}

abbrev pub is_failure : CaseResultStatus → Bool
is_failure CaseResultStatus.failed = true
is_failure CaseResultStatus.infra_error = true
is_failure _ = false

abbrev pub is_failed : CaseResultStatus → Bool
is_failed CaseResultStatus.failed = true
is_failed _ = false

abbrev pub is_infra_error : CaseResultStatus → Bool
is_infra_error CaseResultStatus.infra_error = true
is_infra_error _ = false

-- A message that is there and not empty.
abbrev pub is_message : Option String → Bool
is_message none = false
is_message (some m) = not (str_eq m "")

unfoldable pub all : {A : Type 0} → (A → Bool) → List A → Bool
all p [] = true
all p (x ∷ xs) = p x && all p xs

-- `RunResult.validate_terminal_result` and `CaseResult.validate_times`.
unfoldable pub valid_case_result : CaseResult → Bool
valid_case_result c =
    leb c.started_at c.finished_at
    && (if is_failure c.status then is_message c.error_message else true)

unfoldable pub valid_result : RunResult → Bool
valid_result r =
    is_terminal r.status && (leb r.started_at r.finished_at && all valid_case_result r.case_results)

unfoldable pub mem_id : ℕ → List ℕ → Bool
mem_id n xs = any (λ x. x == n) xs

unfoldable pub distinct : List ℕ → Bool
unfolding mem_id
distinct [] = true
distinct (x ∷ xs) = not (mem_id x xs) && distinct xs

-- `set(a) == set(b)`.
unfoldable pub same_ids : List ℕ → List ℕ → Bool
unfolding mem_id all
same_ids a b = all (λ x. mem_id x b) a && all (λ x. mem_id x a) b

unfoldable pub cases_of : ℕ → List RunCase → List RunCase
cases_of run [] = []
cases_of run (c ∷ cs) = let rest = cases_of run cs in if c.run_id == run then c ∷ rest else rest

-- The status of a Run result against the statuses of its cases.
unfoldable pub statuses_agree : RunStatus → List CaseResult → Bool
statuses_agree RunStatus.passed cs = not (any (λ (c : CaseResult). is_failure c.status) cs)
statuses_agree RunStatus.failed cs = any (λ (c : CaseResult). is_failed c.status) cs
statuses_agree RunStatus.infra_error cs = any (λ (c : CaseResult). is_infra_error c.status) cs
statuses_agree _ cs = true

abbrev pub is_row : ℕ → ℕ → RunCase → Bool
is_row run case_id c = c.run_id == run && c.case_id == case_id

abbrev pub as_message : Option String → Option Message
as_message none = none
as_message (some m) = some (text m)

unfoldable pub with_result : CaseResult → RunCase → RunCase
with_result r c = record c {
  status = of_result r.status;
  duration_ms = some r.duration_ms;
  failure_category = r.failure_category;
  error_message = as_message r.error_message;
}

-- The loop over `result.case_results`; a result whose code is not the stored one raises.
unfoldable pub apply_case_results : ℕ → List CaseResult → List RunCase → Served (List RunCase)
apply_case_results run [] rows = ok rows
apply_case_results run (r ∷ rs) rows = do
  stored ← or_raise (first (is_row run r.case_id) rows) ServiceError.invalid
  check (str_eq stored.case_code r.case_code) ServiceError.invalid
  apply_case_results run rs (update_where (is_row run r.case_id) (with_result r) rows)

-- Every artifact that a case refers to is one of the result's.
unfoldable pub refs_known : RunResult → Bool
unfolding all mem_id
refs_known r =
    all
      (λ c. all (λ a. mem_id a (map (λ (x : Artifact). x.artifact_id) r.artifacts)) c.artifact_ids)
      r.case_results

unfoldable pub artifact_rows : ℕ → List Artifact → List ArtifactRow
artifact_rows run [] = []
artifact_rows run (a ∷ as') =
    record {
      artifact_id = a.artifact_id;
      run_id = run;
      name = a.name;
      uri = a.uri;
      digest = a.digest;
      size_bytes = a.size_bytes;
    }
    ∷ artifact_rows run as'

-- The first message of a failed case.
unfoldable pub first_failure : List CaseResult → Option String
first_failure [] = none
first_failure (c ∷ cs) =
    let rest = first_failure cs in
    if is_failure c.status && is_message c.error_message then c.error_message else rest

-- The columns that a result writes.
unfoldable pub finish : Text → RunResult → Run → Run
finish digest result r = record r {
  status = result.status;
  started_at = some result.started_at;
  timeout_at = none;
  finished_at = some result.finished_at;
  result_digest = some digest;
  result_document = some result;
  error_message = as_message (first_failure result.case_results);
}

abbrev pub on_lease : Option Lease → (Lease → Lease) → Store → Store
on_lease none f s = s
on_lease (some l) f s = update_lease l.id f s

unfoldable pub release_runner_slot : ℕ → ℕ → Store → Store
release_runner_slot run now s =
    on_lease (active_lease s run)
      (λ l. record l { status = LeaseStatus.released; released_at = some now }) s

unfoldable pub validates : ℕ → ChangeRequest → Bool
validates run c = holds c.validation_run_id run

unfoldable pub set_validation : ℕ → RunStatus → Store → Store
set_validation run status s = elim (first (validates run) s.changes) [
  | none ↦ s
  | some c ↦ record s {
    changes =
        update_where (λ x. x.id == c.id) (λ x. record x { validation_status = some status })
          s.changes;
  }
]

unfoldable pub result_event : Text → RunResult → NewEvent
result_event digest result = record {
  dedupe_key = DedupeKey.result_recorded digest;
  event_type = EventType.result_recorded;
  case_code = none;
  status = some (RowStatus.of_run result.status);
  occurred_at = result.finished_at;
}

-- `ids` are the artifact ids that the table holds: a second row of one of them fails the commit.
unfoldable pub free_artifacts : List Artifact → List ArtifactRow → Bool
free_artifacts [] rows = true
free_artifacts (a ∷ as') rows =
    not (any (λ (r : ArtifactRow). r.artifact_id == a.artifact_id) rows) && free_artifacts as' rows

-- The guards of `record_run_result` behind the check for a recorded result.
unfoldable pub accept_result : Run → RunResult → Store → Served (List RunCase)
accept_result run result s = do
  check (allowed run.status result.status) ServiceError.conflict
  check (distinct (map (λ (c : CaseResult). c.case_id) result.case_results)) ServiceError.invalid
  check
      (same_ids (map (λ (c : CaseResult). c.case_id) result.case_results)
        (map (λ (c : RunCase). c.case_id) (cases_of run.id s.cases)))
      ServiceError.invalid
  check (statuses_agree result.status result.case_results) ServiceError.invalid
  rows ← apply_case_results run.id result.case_results s.cases
  check (distinct (map (λ (a : Artifact). a.artifact_id) result.artifacts)) ServiceError.invalid
  check (refs_known result) ServiceError.invalid
  check (free_artifacts result.artifacts s.artifacts) ServiceError.conflict
  ok rows

-- The writes, in the order of the code.
unfoldable pub write_result : Run → Text → RunResult → ℕ → List RunCase → Store → Store
write_result run digest result now rows s =
    enqueue_run_result_email (finish digest result run) now (
      add_audit
        (audit_run runner_actor_id
          (Action.result_recorded result.status digest (length result.artifacts)) run)
        (append_run_event run.id (result_event digest result) (
          set_validation run.id result.status (
            release_runner_slot run.id now (
              update_run run.id (finish digest result) (record s {
                cases = rows;
                artifacts = artifact_rows run.id result.artifacts ++ s.artifacts;
              }))))).0)

-- `record.result_digest == result_digest and record.result_document == result_document`.
abbrev pub is_recorded : Text → Bool → Option Text → Bool
is_recorded digest same_document none = false
is_recorded digest same_document (some d) = text_eq d digest && same_document

-- The part behind the read of the Run.
unfoldable pub record_for : Run → Text → Bool → RunResult → ℕ → Store → Served (Store × Bool)
record_for run digest same_document result now s =
    if is_some run.result_digest
    then (do
      check (is_recorded digest same_document run.result_digest) ServiceError.conflict
      ok (s, false))
    else (do
      rows ← accept_result run result s
      ok (write_result run digest result now rows s, true))

unfoldable pub record_run_result : ℕ → Text → Bool → RunResult → ℕ → Store → Served (Store × Bool)
record_run_result run_id digest same_document result now s = do
  check (result.run_id == run_id) ServiceError.invalid
  run ← or_raise (get_run s run_id) ServiceError.not_found
  record_for run digest same_document result now s
