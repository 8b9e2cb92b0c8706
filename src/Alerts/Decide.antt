-- ===== src/Alerts/Decide.antt =====
-- quality_alert_services.py: `decide_quality_alert_event`.
use top.Base.{ℕ, Bool, false, Option, none, some, ltb, leb, if◌then◌else◌}
use top.Alerts.Rows.{AlertStatus, AlertEvent, AlertReason, alert_rank}

pub record Decision : Type 0 where
  pub event_type : Option AlertEvent
  pub active_notification_status : Option AlertStatus
  pub reason : AlertReason

abbrev pub decision : Option AlertEvent → Option AlertStatus → AlertReason → Decision
decision event active reason = record {
  event_type = event;
  active_notification_status = active;
  reason = reason;
}

-- `until is not None and until > now`.
abbrev pub is_ahead : ℕ → Option ℕ → Bool
is_ahead now none = false
is_ahead now (some until) = ltb now until

-- An alert was notified as `active`, and the signal is a warning or critical.
unfoldable pub decide_active : AlertStatus → AlertStatus → AlertStatus → Decision
decide_active current active minimum =
    if ltb (alert_rank active) (alert_rank current)
    then decision (some AlertEvent.escalated) (some current) AlertReason.severity_increased
    else if ltb (alert_rank current) (alert_rank active)
    then decision (some AlertEvent.deescalated)
        (if leb (alert_rank minimum) (alert_rank current) then some current else none)
        AlertReason.severity_decreased
    else decision none (some active) AlertReason.active_state_unchanged

-- No alert is notified.
unfoldable pub decide_idle : AlertStatus → AlertStatus → Option ℕ → ℕ → Decision
decide_idle current minimum cooldown_until now =
    if ltb (alert_rank current) (alert_rank minimum)
    then decision none none AlertReason.below_minimum_severity
    else if is_ahead now cooldown_until
    then decision none none AlertReason.cooldown_active
    else decision (some AlertEvent.triggered) (some current) AlertReason.qualifying_signal

unfoldable pub decide_quality_alert_event :
    AlertStatus → Option AlertStatus → AlertStatus → Option ℕ → ℕ → Decision
unfolding decide_active decide_idle
decide_quality_alert_event AlertStatus.no_data active minimum cooldown now =
    decision none active AlertReason.insufficient_data
decide_quality_alert_event AlertStatus.stable (some active) minimum cooldown now =
    decision (some AlertEvent.recovered) none AlertReason.signal_recovered
decide_quality_alert_event current (some active) minimum cooldown now =
    decide_active current active minimum
decide_quality_alert_event current none minimum cooldown now =
    decide_idle current minimum cooldown now
