-- ===== src/Alerts/Samples.antt =====
-- Two polls of a project whose pass rate falls and recovers, and a silence.
use top.Base.{
  ℕ, ◌≡◌, refl, ◌+◌, ◌≤◌, Bool, true, false, none, some, [], ◌∷◌, length, map, is_some, arith,
  select, order_by, first, update_where, any,
}
use top.Contracts.{seconds}
use top.Alerts.Rows.{AlertStatus, AlertEvent, Metric, Signal, WebhookConfig, AlertStore}
use top.Alerts.Decide.{decide_quality_alert_event}
use top.Alerts.Evaluate.{Snapshot}
use top.Alerts.Batch.{AlertSummary, evaluate_due, evaluate_quality_alert_batch}
use top.Alerts.Machine.{Move, decide-Move}
use top.Alerts.Tracks.{IsTracked, Tracks}
use top.Alerts.Polls.{evaluate_quality_alert_batch-IsTracked}
use top.Alerts.Counted.{evaluate_quality_alert_batch_count}
use top.Alerts.Again.{decide_again}

abbrev webhook : WebhookConfig
webhook = record {
  id = 3;
  project_id = 7;
  enabled = true;
  endpoint_url = b'h' ∷ [];
  signing_secret_name = none;
  minimum_alert_status = AlertStatus.warning;
  cooldown_seconds = 3600;
  created_at = 1;
  last_evaluated_at = none;
  next_evaluation_at = none;
  silenced_until = none;
}

abbrev pass_rate : AlertStatus → Signal
pass_rate status = record {
  metric = Metric.run_pass_rate;
  alert_status = status;
  current_percent = some 60;
  previous_percent = some 90;
  delta_percentage_points = some 30;
}

abbrev one_signal : AlertStatus → ℕ → Snapshot
one_signal status project = record { signals = pass_rate status ∷ []; fingerprint = λ signal. [] }

abbrev before : AlertStore
before = record {
  configs = webhook ∷ [];
  projects = 7 ∷ [];
  states = [];
  deliveries = [];
  audits = [];
  next_id = 100;
}

abbrev unlocked : ℕ → Bool
unlocked id = false

abbrev poll : AlertStatus → ℕ → AlertStore → AlertStore × AlertSummary
poll status moment s = evaluate_due unlocked (one_signal status) moment 10 60 s

abbrev fallen : AlertStore × AlertSummary
fallen = poll AlertStatus.warning (seconds 10) before

abbrev worse : AlertStore × AlertSummary
worse = poll AlertStatus.critical (seconds 100) fallen.0

abbrev well : AlertStore × AlertSummary
well = poll AlertStatus.stable (seconds 200) worse.0

events :
    map (λ d. d.event_type) well.0.deliveries
    ≡ AlertEvent.triggered ∷ AlertEvent.escalated ∷ AlertEvent.recovered ∷ []
unfolding evaluate_due order_by select any update_where first
events = refl

numbers : map (λ d. d.dedupe_key.sequence) well.0.deliveries ≡ 1 ∷ 2 ∷ 3 ∷ []
unfolding evaluate_due order_by select any update_where first
numbers = refl

before-IsTracked : IsTracked before
unfolding Tracks select first
before-IsTracked project metric = refl

polled :
    evaluate_quality_alert_batch unlocked (one_signal AlertStatus.warning) (seconds 10) 10 60 before
    ≡ some fallen
unfolding evaluate_quality_alert_batch
polled = refl

evaluate_quality_alert_batch-IsTracked_example : IsTracked fallen.0
evaluate_quality_alert_batch-IsTracked_example =
    evaluate_quality_alert_batch-IsTracked unlocked (one_signal AlertStatus.warning) (seconds 10) 10
      60 before fallen.0 fallen.1 (omega arith, tt) before-IsTracked polled

evaluate_quality_alert_batch_count_example :
    (length fallen.0.deliveries ≡ length before.deliveries + fallen.1.queued)
    × (fallen.1.evaluated ≤ fallen.1.selected)
    × (fallen.1.selected ≤ 10)
evaluate_quality_alert_batch_count_example =
    evaluate_quality_alert_batch_count unlocked (one_signal AlertStatus.warning) (seconds 10) 10 60
      before fallen.0 fallen.1 polled

-- CRITICAL after WARNING, twice.
escalates_once :
    is_some
      (decide_quality_alert_event AlertStatus.critical
        (some AlertStatus.warning)
        AlertStatus.warning
        none
        5).event_type
    ≡ true
unfolding decide_quality_alert_event
escalates_once = refl

decide_again_example :
    (decide_quality_alert_event AlertStatus.critical
      (decide_quality_alert_event AlertStatus.critical
        (some AlertStatus.warning)
        AlertStatus.warning
        none
        5).active_notification_status
      AlertStatus.warning
      (some 9)
      7).event_type
    ≡ none
decide_again_example =
    decide_again AlertStatus.critical (some AlertStatus.warning) AlertStatus.warning none (some 9) 5
      7 (omega arith) escalates_once

escalation :
    (decide_quality_alert_event AlertStatus.critical
      (some AlertStatus.warning)
      AlertStatus.warning
      none
      5).event_type
    ≡ some AlertEvent.escalated
unfolding decide_quality_alert_event
escalation = refl

decide-Move_example :
    Move
      (some AlertStatus.warning)
      AlertEvent.escalated
      (decide_quality_alert_event AlertStatus.critical
        (some AlertStatus.warning)
        AlertStatus.warning
        none
        5).active_notification_status
decide-Move_example =
    decide-Move AlertStatus.critical (some AlertStatus.warning) AlertStatus.warning none 5
      AlertEvent.escalated (omega arith) escalation
