-- ===== src/RunState.antt =====
-- apps/api/src/testops/api/state_machine.py: the transitions of a persisted Test Run.
pub mod Graph
use top.Base.{Bool, true, false, Option, none, some, ◌≡◌}
use top.Contracts.{RunStatus}

-- `target in ALLOWED_RUN_TRANSITIONS[current]`.
unfoldable pub allowed : RunStatus → RunStatus → Bool
allowed RunStatus.queued RunStatus.preparing = true
allowed RunStatus.queued RunStatus.canceled = true
allowed RunStatus.queued RunStatus.infra_error = true
allowed RunStatus.preparing RunStatus.running = true
allowed RunStatus.preparing RunStatus.canceled = true
allowed RunStatus.preparing RunStatus.infra_error = true
allowed RunStatus.running RunStatus.passed = true
allowed RunStatus.running RunStatus.failed = true
allowed RunStatus.running RunStatus.canceled = true
allowed RunStatus.running RunStatus.timed_out = true
allowed RunStatus.running RunStatus.infra_error = true
allowed _ _ = false

-- `TERMINAL_RUN_STATUSES`.
unfoldable pub is_terminal : RunStatus → Bool
is_terminal RunStatus.passed = true
is_terminal RunStatus.failed = true
is_terminal RunStatus.canceled = true
is_terminal RunStatus.timed_out = true
is_terminal RunStatus.infra_error = true
is_terminal _ = false

-- `IN_FLIGHT_RUN_STATUSES`.
unfoldable pub is_in_flight : RunStatus → Bool
is_in_flight RunStatus.queued = true
is_in_flight RunStatus.preparing = true
is_in_flight RunStatus.running = true
is_in_flight _ = false

-- The Run is on a Runner: PREPARING or RUNNING.
unfoldable pub is_started : RunStatus → Bool
is_started RunStatus.preparing = true
is_started RunStatus.running = true
is_started _ = false
