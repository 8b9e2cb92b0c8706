-- ===== src/Store/Samples.antt =====
-- Rows for the tests of every component: a pool with one worker, a queued Run of two cases and its
-- Outbox row.
use top.Base.{ℕ, true, false, none, some, [], ◌∷◌}
use top.Contracts.{
  RunStatus, TargetType, RunnerType, CaseDefinition, AutomationPackageRef, RunSnapshot, seconds,
}
use top.Store.{Store}
use top.Store.Rows.{
  DispatchState, Run, RunCase, RowStatus, OutboxEvent, OutboxRow, OutboxStatus, Isolation, Mode,
  CredentialScope, NetworkPolicy, Availability, Worker, Pool,
}

abbrev pub runtime : AutomationPackageRef
runtime = record {
  name = "yanjia-web";
  version = "1.0.0";
  runner_type = RunnerType.web_playwright;
  image_repository = "testops-worker";
  digest = b'A' ∷ b'1' ∷ [];
}

abbrev pub search_case : CaseDefinition
search_case = record { case_id = 1; case_code = "TC-HOME-002"; title = "search"; enabled = true }

abbrev pub login_case : CaseDefinition
login_case = record { case_id = 2; case_code = "TC-LOGIN-001"; title = "login"; enabled = true }

abbrev pub snapshot : RunSnapshot
snapshot = record {
  run_id = 7;
  target_type = TargetType.web;
  browser = some "chromium";
  automation_package = some runtime;
  cases = search_case ∷ login_case ∷ [];
  created_by = 3;
  created_at = 100;
}

abbrev pub queued_run : Run
queued_run = record {
  id = 7;
  project_id = 5;
  runner_pool_id = some 9;
  status = RunStatus.queued;
  idempotency_key = b'k' ∷ [];
  request_hash = b'h' ∷ [];
  snapshot = snapshot;
  result_digest = none;
  result_document = none;
  timeout_seconds = 60;
  created_by = 3;
  created_at = 100;
  cancel_requested = false;
  dispatch_state = DispatchState.pending;
  dispatch_wait_reason = none;
  dispatched_at = none;
  started_at = none;
  timeout_at = none;
  finished_at = none;
  error_message = none;
}

abbrev pub row_of : CaseDefinition → ℕ → RunCase
row_of c n = record {
  run_id = 7;
  case_id = c.case_id;
  case_code = c.case_code;
  sequence = n;
  status = RowStatus.of_run RunStatus.queued;
  duration_ms = none;
  failure_category = none;
  error_message = none;
}

abbrev pub queued_row : OutboxRow
queued_row = record {
  id = 11;
  aggregate_id = 7;
  event = OutboxEvent.run_queued snapshot;
  status = OutboxStatus.pending;
  attempts = 0;
  available_at = 100;
  created_at = 100;
  processed_at = none;
  last_error = none;
}

abbrev pub container : Isolation
container = record {
  mode = Mode.container;
  dedicated_process = true;
  credential_scope = CredentialScope.run_secrets_only;
  read_only_root_filesystem = true;
  network_policy = NetworkPolicy.allowlist;
  resource_limits_enforced = true;
  memory_limit_bytes = some 1073741824;
  cpu_limit_millis = some 1000;
  pids_limit = some 256;
  ephemeral_storage_limit_bytes = none;
  orchestrator_namespace = none;
  service_account_name = none;
  service_account_token_automounted = none;
}

-- The worker advertises the package digest in lower case.
abbrev pub worker : Worker
worker = record {
  id = 21;
  pool_id = 9;
  worker_key = "worker-1";
  display_name = "Worker 1";
  runner_version = "0.35.0";
  capabilities = record {
    target_types = TargetType.web ∷ [];
    browsers = "chromium" ∷ [];
    automation_packages = record runtime { digest = b'a' ∷ b'1' ∷ [] } ∷ [];
    execution_isolation = some container;
  };
  max_slots = 2;
  status = Availability.active;
  last_heartbeat_at = seconds 10;
}

abbrev pub pool : Pool
pool = record {
  id = 9;
  key = "web";
  name = "Web";
  target_types = TargetType.web ∷ [];
  queue_name = "testops.pool.web";
  max_concurrency = 1;
  status = Availability.active;
}

abbrev pub store : Store
store = record {
  runs = queued_run ∷ [];
  cases = row_of search_case 1 ∷ row_of login_case 2 ∷ [];
  events = [];
  outbox = queued_row ∷ [];
  leases = [];
  workers = worker ∷ [];
  pools = pool ∷ [];
  audit = [];
  artifacts = [];
  changes = [];
  preferences = [];
  emails = [];
}
