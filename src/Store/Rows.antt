-- ===== src/Store/Rows.antt =====
-- The records of persistence.py. A column whose values the code draws from a fixed set is a data
-- type; the columns that no service here reads or writes are left out.
use top.Base.{ℕ, String, Bool, Option, List}
use top.Contracts.{
  RunStatus, CaseResultStatus, TargetType, Text, AutomationPackageRef, RunSnapshot, RunResult,
}

-- `dispatch_wait_reason`.
pub data WaitReason : Type 0 where
  runner_pool_not_found runner_pool_draining runner_pool_disabled no_healthy_runner : WaitReason
  runner_capability_mismatch runner_isolation_unavailable : WaitReason
  automation_package_unavailable runner_pool_capacity_exhausted : WaitReason
  broker_publish_failed : WaitReason

pub data DispatchState : Type 0 where
  pending waiting dispatched : DispatchState

-- A text that the code builds from a value is that value under a constructor.
pub data Message : Type 0 where
  text : String → Message
  run_timed_out : ℕ → Message
  runner_heartbeat_expired : String → Message
  run_not_claimed : Message

pub record Run : Type 0 where
  pub id : ℕ
  pub project_id : ℕ
  pub runner_pool_id : Option ℕ
  pub status : RunStatus
  pub idempotency_key : Text
  pub request_hash : Text
  pub snapshot : RunSnapshot
  pub result_digest : Option Text
  pub result_document : Option RunResult
  pub timeout_seconds : ℕ
  pub created_by : ℕ
  pub created_at : ℕ
  pub cancel_requested : Bool
  pub dispatch_state : DispatchState
  pub dispatch_wait_reason : Option WaitReason
  pub dispatched_at : Option ℕ
  pub started_at : Option ℕ
  pub timeout_at : Option ℕ
  pub finished_at : Option ℕ
  pub error_message : Option Message

-- The status column of a Run case holds Run statuses and Case Result statuses; PASSED, FAILED and
-- INFRA_ERROR are the same text in both.
pub data RowStatus : Type 0 where
  of_run : RunStatus → RowStatus
  skipped : RowStatus

abbrev pub of_result : CaseResultStatus → RowStatus
of_result CaseResultStatus.passed = of_run RunStatus.passed
of_result CaseResultStatus.failed = of_run RunStatus.failed
of_result CaseResultStatus.skipped = skipped
of_result CaseResultStatus.infra_error = of_run RunStatus.infra_error

pub record RunCase : Type 0 where
  pub run_id : ℕ
  pub case_id : ℕ
  pub case_code : String
  pub sequence : ℕ
  pub status : RowStatus
  pub duration_ms : Option ℕ
  pub failure_category : Option String
  pub error_message : Option Message

pub data Recovery : Type 0 where
  timed_out runner_lost dispatch_stalled : Recovery

-- The dedupe keys of Run events: "system:run_created", "system:status:…", "system:result:…",
-- "system:cancel_requested", "system:reliability:…", and the digest of a Runner's event.
pub data DedupeKey : Type 0 where
  run_created cancel_requested : DedupeKey
  status_changed : RunStatus → DedupeKey
  result_recorded runner_event : Text → DedupeKey
  recovered : Recovery → DedupeKey

pub data EventType : Type 0 where
  run_created status_changed result_recorded cancel_requested run_recovered : EventType
  run_started case_started case_finished run_finished run_progress : EventType

pub record RunEvent : Type 0 where
  pub run_id : ℕ
  pub sequence : ℕ
  pub dedupe_key : DedupeKey
  pub event_type : EventType
  pub case_code : Option String
  pub status : Option RowStatus
  pub occurred_at : ℕ

-- `event_type` and `payload` of an Outbox row.
pub data OutboxEvent : Type 0 where
  run_queued : RunSnapshot → OutboxEvent
  run_cancel_requested : OutboxEvent
  other : String → OutboxEvent

pub data OutboxStatus : Type 0 where
  pending published : OutboxStatus

pub record OutboxRow : Type 0 where
  pub id : ℕ
  pub aggregate_id : ℕ
  pub event : OutboxEvent
  pub status : OutboxStatus
  pub attempts : ℕ
  pub available_at : ℕ
  pub created_at : ℕ
  pub processed_at : Option ℕ
  pub last_error : Option String

pub data LeaseStatus : Type 0 where
  active released expired : LeaseStatus

pub record Lease : Type 0 where
  pub id : ℕ
  pub pool_id : ℕ
  pub run_id : ℕ
  pub worker_id : Option ℕ
  pub status : LeaseStatus
  pub acquired_at : ℕ
  pub released_at : Option ℕ

pub data Mode : Type 0 where
  in_process subprocess container kubernetes : Mode

pub data CredentialScope : Type 0 where
  worker run_secrets_only : CredentialScope

pub data NetworkPolicy : Type 0 where
  worker_default deny_all allowlist : NetworkPolicy

-- `RunnerExecutionIsolationCapabilities`, as the heartbeat stores it.
pub record Isolation : Type 0 where
  pub mode : Mode
  pub dedicated_process : Bool
  pub credential_scope : CredentialScope
  pub read_only_root_filesystem : Bool
  pub network_policy : NetworkPolicy
  pub resource_limits_enforced : Bool
  pub memory_limit_bytes : Option ℕ
  pub cpu_limit_millis : Option ℕ
  pub pids_limit : Option ℕ
  pub ephemeral_storage_limit_bytes : Option ℕ
  pub orchestrator_namespace : Option String
  pub service_account_name : Option String
  pub service_account_token_automounted : Option Bool

pub record Capabilities : Type 0 where
  pub target_types : List TargetType
  pub browsers : List String
  pub automation_packages : List AutomationPackageRef
  pub execution_isolation : Option Isolation

-- The status of a Runner worker and of a Runner pool.
pub data Availability : Type 0 where
  active draining disabled : Availability

pub record Worker : Type 0 where
  pub id : ℕ
  pub pool_id : ℕ
  pub worker_key : String
  pub display_name : String
  pub runner_version : String
  pub capabilities : Capabilities
  pub max_slots : ℕ
  pub status : Availability
  pub last_heartbeat_at : ℕ

pub record Pool : Type 0 where
  pub id : ℕ
  pub key : String
  pub name : String
  pub target_types : List TargetType
  pub queue_name : String
  pub max_concurrency : ℕ
  pub status : Availability

pub data Action : Type 0 where
  created rerun_created : Action
  status_changed cancel_requested : RunStatus → RunStatus → Action
  result_recorded : RunStatus → Text → ℕ → Action
  recovered : Recovery → RunStatus → RunStatus → Action
  worker_registered : Action
  worker_status_updated : Availability → Availability → Action

pub record AuditLog : Type 0 where
  pub actor_id : ℕ
  pub action : Action
  pub resource_id : ℕ
  pub project_id : Option ℕ

pub record ArtifactRow : Type 0 where
  pub artifact_id : ℕ
  pub run_id : ℕ
  pub name : String
  pub uri : String
  pub digest : Text
  pub size_bytes : ℕ

-- The columns of a change request that a Run's end writes.
pub record ChangeRequest : Type 0 where
  pub id : ℕ
  pub validation_run_id : Option ℕ
  pub validation_status : Option RunStatus

pub record EmailPreference : Type 0 where
  pub user_id : ℕ
  pub email : Option Text
  pub emails : List Text
  pub selected_emails : Option (List Text)
  pub enabled : Bool
  pub statuses : List RunStatus

pub record EmailDelivery : Type 0 where
  pub user_id : ℕ
  pub run_id : ℕ
  pub recipient_email : Text
  pub run_status : RunStatus
  pub attempts : ℕ
  pub available_at : ℕ

-- The columns of a project that the execution policy reads.
pub record Project : Type 0 where
  pub id : ℕ
  pub max_in_flight_runs : ℕ
  pub max_daily_runs : ℕ
  pub run_timeout_seconds : ℕ
