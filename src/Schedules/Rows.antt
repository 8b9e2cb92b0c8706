-- ===== src/Schedules/Rows.antt =====
-- persistence.py: the Regression schedules and their firings, and the columns of the resources that a
-- schedule names.
use top.Base.{ℕ, String, Option, List}
use top.Contracts.{Text, CaseDefinition}
use top.Service.{ServiceError}

pub data ScheduleStatus : Type 0 where
  active paused archived : ScheduleStatus

pub data MisfirePolicy : Type 0 where
  skip fire_once : MisfirePolicy

pub data TriggerKind : Type 0 where
  scheduled misfire manual : TriggerKind

pub data FiringStatus : Type 0 where
  triggered skipped blocked : FiringStatus

-- `last_error`: MISFIRE_SKIPPED, or the text of what was raised.
pub data ScheduleError : Type 0 where
  misfire_skipped : ScheduleError
  raised : ServiceError → ScheduleError

pub record ResourceRefs : Type 0 where
  pub project_id : ℕ
  pub target_id : ℕ
  pub environment_id : ℕ
  pub baseline_id : ℕ
  pub automation_package_id : ℕ
  pub case_codes : List String

pub record Schedule : Type 0 where
  pub id : ℕ
  pub key : Text
  pub name : Text
  pub description : Option Text
  pub refs : ResourceRefs
  pub cron_expression : Text
  pub timezone : Text
  pub misfire_policy : MisfirePolicy
  pub misfire_grace_seconds : ℕ
  pub status : ScheduleStatus
  pub next_fire_at : Option ℕ
  pub last_scheduled_for : Option ℕ
  pub last_triggered_at : Option ℕ
  pub last_run_id : Option ℕ
  pub last_error : Option ScheduleError
  pub created_by : ℕ

pub record Firing : Type 0 where
  pub id : ℕ
  pub schedule_id : ℕ
  pub run_id : Option ℕ
  pub scheduled_for : ℕ
  pub triggered_at : ℕ
  pub trigger_kind : TriggerKind
  pub status : FiringStatus
  pub error_message : Option ServiceError

pub data ScheduleAction : Type 0 where
  created updated misfire_skipped trigger_blocked triggered triggered_manually : ScheduleAction

pub record ScheduleAudit : Type 0 where
  pub actor_id : ℕ
  pub action : ScheduleAction
  pub resource_id : ℕ

-- The tables of the schedules, and the others, `rest`.
pub record ScheduleStore (S : Type 0) : Type 0 where
  pub schedules : List Schedule
  pub firings : List Firing
  pub audits : List ScheduleAudit
  pub rest : S

pub record ProjectRow : Type 0 where
  pub id : ℕ
  pub status : String

pub record TargetRow : Type 0 where
  pub id : ℕ
  pub project_id : ℕ
  pub status : String

pub record EnvironmentRow : Type 0 where
  pub id : ℕ
  pub project_id : ℕ
  pub target_id : ℕ
  pub status : String

pub record BaselineRow : Type 0 where
  pub baseline_id : ℕ
  pub project_id : ℕ
  pub status : String
  pub cases : List CaseDefinition

pub record PackageRow : Type 0 where
  pub id : ℕ
  pub project_id : ℕ
  pub target_id : ℕ
  pub status : String
  pub supply_chain_status : String

pub record ResourceTables : Type 0 where
  pub projects : List ProjectRow
  pub targets : List TargetRow
  pub environments : List EnvironmentRow
  pub baselines : List BaselineRow
  pub packages : List PackageRow
