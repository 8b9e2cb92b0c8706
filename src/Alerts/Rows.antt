-- ===== src/Alerts/Rows.antt =====
-- persistence.py: the rows that the quality alerts keep. A percentage is a float, by its bit pattern,
-- since these services only copy it.
use top.Base.{ℕ, Bool, Option, List, ◌&&◌, ◌==◌}
use top.Contracts.{Text}

-- A signal's `alert_status`, in the order of `QUALITY_ALERT_RANK`.
pub data AlertStatus : Type 0 where
  no_data stable warning critical : AlertStatus

abbrev pub alert_rank : AlertStatus → ℕ
alert_rank AlertStatus.no_data = 0
alert_rank AlertStatus.stable = 1
alert_rank AlertStatus.warning = 2
alert_rank AlertStatus.critical = 3

pub data Metric : Type 0 where
  run_pass_rate case_pass_rate execution_reliability : Metric

abbrev pub metric_rank : Metric → ℕ
metric_rank Metric.run_pass_rate = 0
metric_rank Metric.case_pass_rate = 1
metric_rank Metric.execution_reliability = 2

-- `quality.alert.triggered` and so on.
pub data AlertEvent : Type 0 where
  triggered escalated deescalated recovered : AlertEvent

pub data AlertReason : Type 0 where
  insufficient_data signal_recovered severity_increased severity_decreased active_state_unchanged
        below_minimum_severity cooldown_active qualifying_signal silence_active :
      AlertReason

-- The fields of a `QualityChangeSignal` that an alert copies.
pub record Signal : Type 0 where
  pub metric : Metric
  pub alert_status : AlertStatus
  pub current_percent : Option ℕ
  pub previous_percent : Option ℕ
  pub delta_percentage_points : Option ℕ

pub record AlertState : Type 0 where
  pub id : ℕ
  pub project_id : ℕ
  pub metric : Metric
  pub current_status : AlertStatus
  pub active_notification_status : Option AlertStatus
  pub current_percent : Option ℕ
  pub previous_percent : Option ℕ
  pub delta_percentage_points : Option ℕ
  pub signal_fingerprint : Text
  pub notification_sequence : ℕ
  pub last_evaluated_at : ℕ
  pub last_transition_at : ℕ
  pub last_notified_at : Option ℕ
  pub cooldown_until : Option ℕ
  pub last_delivery_id : Option ℕ
  pub acknowledged_at : Option ℕ
  pub acknowledged_by : Option ℕ
  pub acknowledgement_note : Option Text

-- `f"quality.alert:{project}:{metric}:{sequence}:{fingerprint}"`, by its parts.
pub record AlertKey : Type 0 where
  pub project_id : ℕ
  pub metric : Metric
  pub sequence : ℕ
  pub fingerprint : Text

pub data DeliveryStatus : Type 0 where
  pending delivered failed : DeliveryStatus

-- `last_error`, by the text that is written.
pub data DeliveryError : Type 0 where
  not_https invalid_port not_allowed dns_failed no_addresses invalid_address private_address :
      DeliveryError
  secret_missing transport_failed unexpected config_missing : DeliveryError
  http_status : ℕ → DeliveryError

-- The parts of the payload that the decision determines.
pub record Delivery : Type 0 where
  pub id : ℕ
  pub project_id : ℕ
  pub webhook_config_id : ℕ
  pub event_type : AlertEvent
  pub dedupe_key : AlertKey
  pub signal : Signal
  pub previous_status : AlertStatus
  pub reason : AlertReason
  pub status : DeliveryStatus
  pub attempts : ℕ
  pub available_at : ℕ
  pub created_at : ℕ
  pub delivered_at : Option ℕ
  pub response_status : Option ℕ
  pub last_error : Option DeliveryError

pub record WebhookConfig : Type 0 where
  pub id : ℕ
  pub project_id : ℕ
  pub enabled : Bool
  pub endpoint_url : Text
  pub signing_secret_name : Option Text
  pub minimum_alert_status : AlertStatus
  pub cooldown_seconds : ℕ
  pub created_at : ℕ
  pub last_evaluated_at : Option ℕ
  pub next_evaluation_at : Option ℕ
  pub silenced_until : Option ℕ

-- `project.quality_alert_state_changed` and `project.quality_alert_queued`.
pub data AlertAction : Type 0 where
  state_changed queued : AlertAction

pub record AlertAudit : Type 0 where
  pub action : AlertAction
  pub resource_id : ℕ
  pub project_id : ℕ
  pub event_type : Option AlertEvent
  pub metric : Metric
  pub previous_status : AlertStatus
  pub status : AlertStatus
  pub reason : AlertReason
  pub signal_fingerprint : Text
  pub created_at : ℕ

-- The tables; `next_id` is the next UUID of the supply that `uuid4` draws from.
pub record AlertStore : Type 0 where
  pub configs : List WebhookConfig
  pub projects : List ℕ
  pub states : List AlertState
  pub deliveries : List Delivery
  pub audits : List AlertAudit
  pub next_id : ℕ

abbrev pub same_metric : Metric → Metric → Bool
same_metric a b = metric_rank a == metric_rank b

-- The row of a project and a metric.
abbrev pub has_metric : ℕ → Metric → AlertState → Bool
has_metric project metric state = (state.project_id == project) && same_metric state.metric metric
