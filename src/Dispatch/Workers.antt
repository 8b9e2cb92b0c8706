-- ===== src/Dispatch/Workers.antt =====
-- outbox.py: `_worker_matches`, `_worker_hosts_package`, `_worker_supports_execution_isolation` and
-- `_worker_isolation_rank`. The heartbeat validates the capabilities that a worker stores, so a
-- `get` with a default is a field, and `isinstance(…, int)` says that an optional field is there.
use top.Base.{
  ℕ, String, Bool, true, false, Option, none, some, not, ◌&&◌, ◌||◌, any, is_some, str_eq,
}
use top.Contracts.{TargetType, RunnerType, Text, same_target, same_runner, lower, text_eq}
use top.Store.Rows.{Mode, CredentialScope, NetworkPolicy, Isolation, Worker}

unfoldable pub worker_matches : TargetType → Option String → Worker → Bool
unfolding any
worker_matches target browser w =
    any (λ t. same_target t target) w.capabilities.target_types
    && elim browser [ none ↦ true | some b ↦ any (λ c. str_eq c b) w.capabilities.browsers ]

unfoldable pub worker_hosts_package : RunnerType → String → Text → Worker → Bool
unfolding any text_eq lower
worker_hosts_package runner repository digest w =
    any
      (λ p.
        same_runner p.runner_type runner
        && (str_eq p.image_repository repository && text_eq (lower p.digest) (lower digest)))
      w.capabilities.automation_packages

abbrev is_worker_scope : CredentialScope → Bool
is_worker_scope CredentialScope.worker = true
is_worker_scope CredentialScope.run_secrets_only = false

abbrev is_restricted : NetworkPolicy → Bool
is_restricted NetworkPolicy.worker_default = false
is_restricted _ = true

-- `isolation.get("service_account_name") not in {None, "", "default"}`.
abbrev is_named_account : Option String → Bool
is_named_account none = false
is_named_account (some a) = not (str_eq a "" || str_eq a "default")

abbrev is_false : Option Bool → Bool
is_false (some false) = true
is_false _ = false

unfoldable pub hard_isolation : Isolation → Bool
hard_isolation i =
    i.dedicated_process
    && (not (is_worker_scope i.credential_scope)
        && (i.read_only_root_filesystem
            && (is_restricted i.network_policy
                && (i.resource_limits_enforced
                    && (is_some i.memory_limit_bytes && is_some i.cpu_limit_millis)))))

-- The branches by `mode`; `device` is `allow_in_process_device_worker`.
unfoldable pub mode_supported : Mode → Bool → Isolation → Bool
unfolding hard_isolation
mode_supported Mode.in_process device i =
    device && (not i.dedicated_process && is_worker_scope i.credential_scope)
mode_supported Mode.subprocess device i =
    i.dedicated_process && not (is_worker_scope i.credential_scope)
mode_supported Mode.container device i = hard_isolation i && is_some i.pids_limit
mode_supported Mode.kubernetes device i =
    hard_isolation i
    && (is_some i.ephemeral_storage_limit_bytes
        && (is_some i.orchestrator_namespace
            && (is_named_account i.service_account_name
                && is_false i.service_account_token_automounted)))

unfoldable pub worker_supports_execution_isolation : Bool → Worker → Bool
unfolding mode_supported
worker_supports_execution_isolation device w = elim w.capabilities.execution_isolation [
  | none ↦ false
  | some i ↦ mode_supported i.mode device i
]

abbrev mode_rank : Mode → ℕ
mode_rank Mode.in_process = 1
mode_rank Mode.subprocess = 2
mode_rank Mode.container = 3
mode_rank Mode.kubernetes = 4

unfoldable pub worker_isolation_rank : Worker → ℕ
worker_isolation_rank w = elim w.capabilities.execution_isolation [
  | none ↦ 0
  | some i ↦ mode_rank i.mode
]
