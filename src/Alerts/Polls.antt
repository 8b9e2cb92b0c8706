-- ===== src/Alerts/Polls.antt =====
-- quality_alert_services.py: the alerts over whole polls.
use top.Base.{
  ℕ, ◌≡◌, Bool, not, ◌&&◌, ◌==◌, ◌+◌, List, [], ◌∷◌, some, All, All-order_by, All-kept, All-limit,
  any, Bool-cases, inl, inr, order_by, select, leb,
}
use mathlib.Core.Path.{subst}
use top.Contracts.{seconds}
use top.Alerts.Rows.{WebhookConfig, AlertStore}
use top.Alerts.Evaluate.{Snapshot, evaluate_project}
use top.Alerts.Batch.{
  AlertSummary, due_configs, is_selected, due_order, evaluated_config, evaluate_configs,
  evaluate_due, evaluate_quality_alert_batch,
}
use top.Alerts.Machine.{IsAlarm}
use top.Alerts.Tracks.{IsTracked, Tracks}
use top.Alerts.Turns.{evaluate_signals-IsTracked}

-- Every configuration asks for WARNING or CRITICAL, as its table's check constraint says.
abbrev pub Configured : List WebhookConfig → Type 0
Configured configs = All (λ c. IsAlarm c.minimum_alert_status) configs

evaluate_configs-IsTracked :
    (comparison : ℕ → Snapshot) (moment next : ℕ) (configs : List WebhookConfig) (s : AlertStore)
    → Configured configs
    → IsTracked s
    → IsTracked (evaluate_configs comparison moment next configs s).0
unfolding evaluate_configs evaluate_project evaluated_config Tracks
evaluate_configs-IsTracked comparison moment next [] s alarms tracked = tracked
evaluate_configs-IsTracked comparison moment next (config ∷ configs) s (alarm, alarms) tracked =
    elim (Bool-cases (any (λ id. id == config.project_id) s.projects)) [
      | inl present ↦ rw present (
          evaluate_configs-IsTracked comparison moment next configs _ alarms (
            evaluate_signals-IsTracked config moment (comparison config.project_id).fingerprint
              (comparison config.project_id).signals s alarm tracked))
      | inr missing ↦
          rw missing (evaluate_configs-IsTracked comparison moment next configs s alarms tracked)
    ]

due_configs-Configured :
    (locked : ℕ → Bool) (moment n : ℕ) (s : AlertStore)
    → Configured s.configs
    → Configured (due_configs locked moment n s)
unfolding due_configs
due_configs-Configured locked moment n s alarms =
    let due = λ (c : WebhookConfig). is_selected moment c && not (locked c.id) in
    All-limit (λ c. IsAlarm c.minimum_alert_status) n (order_by due_order (select due s.configs))
      (All-order_by (λ c. IsAlarm c.minimum_alert_status) due_order (select due s.configs)
        (All-kept (λ c. IsAlarm c.minimum_alert_status) due s.configs alarms))

pub poll_returned :
    (locked : ℕ → Bool) (comparison : ℕ → Snapshot) (moment n interval : ℕ) (s t : AlertStore)
    (u : AlertSummary)
    → evaluate_quality_alert_batch locked comparison moment n interval s ≡ some (t, u)
    → evaluate_due locked comparison moment n interval s ≡ (t, u)
unfolding evaluate_quality_alert_batch
poll_returned locked comparison moment n interval s t u returned =
    elim (Bool-cases (leb 1 n && leb n 500)) [
      | inl sized ↦ elim (Bool-cases (leb 5 interval && leb interval 3600)) [
        | inl timed ↦ cc (rw (sized, timed) at returned)
        | inr other ↦ cc (rw (sized, other) at returned)
      ]
      | inr other ↦ cc (rw other at returned)
    ]

-- A poll keeps, for every project and metric, the alert where the deliveries queued for it leave it: they
-- are numbered from 1, and each is a move from the level that the ones before it notified. An alert is
-- triggered only when idle, escalates and de-escalates between levels of those severities, and recovers
-- only when active.
pub evaluate_quality_alert_batch-IsTracked :
    (locked : ℕ → Bool) (comparison : ℕ → Snapshot) (moment n interval : ℕ) (s t : AlertStore)
    (u : AlertSummary)
    → Configured s.configs
    → IsTracked s
    → evaluate_quality_alert_batch locked comparison moment n interval s ≡ some (t, u)
    → IsTracked t
unfolding evaluate_due
evaluate_quality_alert_batch-IsTracked locked comparison moment n interval s t u alarms tracked
      returned =
    subst (λ x. IsTracked x.0) (poll_returned locked comparison moment n interval s t u returned)
      (evaluate_configs-IsTracked comparison moment (moment + seconds interval)
        (due_configs locked moment n s) s (due_configs-Configured locked moment n s alarms) tracked)
