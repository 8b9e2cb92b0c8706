-- ===== src/Alerts/Evaluate.antt =====
-- quality_alert_services.py: `_evaluate_project`. The comparison that `calculate_quality_comparison`
-- computes and the fingerprints of its signals (`_signal_fingerprint`, a SHA-256) are arguments.
use top.Base.{
  ℕ, Bool, true, false, not, ◌&&◌, ◌+◌, ◌==◌, Option, none, some, List, [], ◌∷◌, ◌++◌,
  if◌then◌else◌, first, update_where, is_some,
}
use top.Contracts.{Text, seconds}
use top.Alerts.Rows.{
  AlertStatus, AlertEvent, AlertReason, Metric, Signal, AlertState, Delivery, DeliveryStatus,
  WebhookConfig, AlertAction, AlertAudit, AlertStore, alert_rank, has_metric,
}
use top.Alerts.Decide.{Decision, decide_quality_alert_event, is_ahead}

pub record Snapshot : Type 0 where
  pub signals : List Signal
  pub fingerprint : Signal → Text

pub record Counts : Type 0 where
  pub transitions : ℕ
  pub queued : ℕ
  pub cooldown_suppressed : ℕ
  pub silence_suppressed : ℕ

abbrev pub no_counts : Counts
no_counts = record { transitions = 0; queued = 0; cooldown_suppressed = 0; silence_suppressed = 0 }

abbrev pub add_counts : Counts → Counts → Counts
add_counts a b = record {
  transitions = a.transitions + b.transitions;
  queued = a.queued + b.queued;
  cooldown_suppressed = a.cooldown_suppressed + b.cooldown_suppressed;
  silence_suppressed = a.silence_suppressed + b.silence_suppressed;
}

abbrev pub int_of : Bool → ℕ
int_of b = if b then 1 else 0

abbrev pub find_state : ℕ → Metric → AlertStore → Option AlertState
find_state project metric s = first (has_metric project metric) s.states

abbrev pub status_of : Option AlertState → AlertStatus
status_of none = AlertStatus.no_data
status_of (some state) = state.current_status

abbrev pub same_alert : AlertStatus → AlertStatus → Bool
same_alert a b = alert_rank a == alert_rank b

unfoldable pub new_state : ℕ → ℕ → ℕ → Text → Signal → AlertState
new_state id project moment fingerprint signal = record {
  id = id;
  project_id = project;
  metric = signal.metric;
  current_status = signal.alert_status;
  active_notification_status = none;
  current_percent = signal.current_percent;
  previous_percent = signal.previous_percent;
  delta_percentage_points = signal.delta_percentage_points;
  signal_fingerprint = fingerprint;
  notification_sequence = 0;
  last_evaluated_at = moment;
  last_transition_at = moment;
  last_notified_at = none;
  cooldown_until = none;
  last_delivery_id = none;
  acknowledged_at = none;
  acknowledged_by = none;
  acknowledgement_note = none;
}

abbrev pub not_acknowledged : AlertState → AlertState
not_acknowledged state = record state {
  acknowledged_at = none;
  acknowledged_by = none;
  acknowledgement_note = none;
}

unfoldable pub evaluated_state : ℕ → Text → Signal → Bool → AlertState → AlertState
evaluated_state moment fingerprint signal status_changed state =
    let measured : AlertState = record state {
      current_status = signal.alert_status;
      current_percent = signal.current_percent;
      previous_percent = signal.previous_percent;
      delta_percentage_points = signal.delta_percentage_points;
      signal_fingerprint = fingerprint;
      last_evaluated_at = moment;
    } in
    if status_changed
    then record (not_acknowledged measured) { last_transition_at = moment }
    else measured

-- The objects of one turn of the loop over the signals: the row with its new measurements, and what
-- was read before.
pub record Turn : Type 0 where
  pub config : WebhookConfig
  pub moment : ℕ
  pub fingerprint : Text
  pub signal : Signal
  pub previous_status : AlertStatus
  pub status_changed : Bool
  pub state : AlertState
  pub decision : Decision
  pub silenced : Bool

-- `id` is for a new row.
unfoldable pub measured_state :
    WebhookConfig → ℕ → Text → Signal → ℕ → Option AlertState → AlertState
unfolding new_state evaluated_state
measured_state config moment fingerprint signal id none =
    new_state id config.project_id moment fingerprint signal
measured_state config moment fingerprint signal id (some state) =
    evaluated_state moment fingerprint signal
      (not (same_alert state.current_status signal.alert_status)) state

-- `config.project_id` is the project's `id`: the caller read the project by it.
unfoldable pub turn_of : WebhookConfig → ℕ → Text → Signal → AlertStore → Turn
unfolding measured_state decide_quality_alert_event
turn_of config moment fingerprint signal s =
    let found = find_state config.project_id signal.metric s in
    let state = measured_state config moment fingerprint signal s.next_id found in
    let decision =
      decide_quality_alert_event signal.alert_status state.active_notification_status
        config.minimum_alert_status state.cooldown_until moment in
    record {
      config = config;
      moment = moment;
      fingerprint = fingerprint;
      signal = signal;
      previous_status = status_of found;
      status_changed = not (same_alert (status_of found) signal.alert_status);
      state = state;
      decision = decision;
      silenced = is_some decision.event_type && is_ahead moment config.silenced_until;
    }

-- `session.add(state)` for a new row, and the row's new values else.
unfoldable pub put_state : AlertState → List AlertState → List AlertState
put_state state states =
    let has_key = has_metric state.project_id state.metric in
    if is_some (first has_key states)
    then update_where has_key (λ _. state) states
    else states ++ state ∷ []

-- The next UUID after that of a new row.
abbrev pub next_after_state : Turn → AlertStore → ℕ
next_after_state t s =
    if is_some (find_state t.config.project_id t.signal.metric s) then s.next_id else s.next_id + 1

abbrev pub changed_audit : Turn → AlertAudit
changed_audit t = record {
  action = AlertAction.state_changed;
  resource_id = t.state.id;
  project_id = t.config.project_id;
  event_type = none;
  metric = t.signal.metric;
  previous_status = t.previous_status;
  status = t.signal.alert_status;
  reason = if t.silenced then AlertReason.silence_active else t.decision.reason;
  signal_fingerprint = t.fingerprint;
  created_at = t.moment;
}

-- No event, or a silenced one.
unfoldable pub write_evaluated : Turn → AlertStore → AlertStore
unfolding put_state
write_evaluated t s = record s {
  states = put_state t.state s.states;
  audits = s.audits ++ (if t.status_changed then changed_audit t ∷ [] else []);
  next_id = next_after_state t s;
}

unfoldable pub notified_state : Turn → ℕ → AlertState
notified_state t delivery_id = record (not_acknowledged t.state) {
  notification_sequence = t.state.notification_sequence + 1;
  active_notification_status = t.decision.active_notification_status;
  last_notified_at = some t.moment;
  last_delivery_id = some delivery_id;
  cooldown_until =
      if is_some t.decision.active_notification_status
      then some (t.moment + seconds t.config.cooldown_seconds)
      else t.state.cooldown_until;
}

unfoldable pub new_delivery : Turn → AlertEvent → ℕ → Delivery
new_delivery t event delivery_id = record {
  id = delivery_id;
  project_id = t.config.project_id;
  webhook_config_id = t.config.id;
  event_type = event;
  dedupe_key = record {
    project_id = t.config.project_id;
    metric = t.signal.metric;
    sequence = t.state.notification_sequence + 1;
    fingerprint = t.fingerprint;
  };
  signal = t.signal;
  previous_status = t.previous_status;
  reason = t.decision.reason;
  status = DeliveryStatus.pending;
  attempts = 0;
  available_at = t.moment;
  created_at = t.moment;
  delivered_at = none;
  response_status = none;
  last_error = none;
}

abbrev pub queued_audit : Turn → AlertEvent → ℕ → AlertAudit
queued_audit t event delivery_id = record {
  action = AlertAction.queued;
  resource_id = delivery_id;
  project_id = t.config.project_id;
  event_type = some event;
  metric = t.signal.metric;
  previous_status = t.previous_status;
  status = t.signal.alert_status;
  reason = t.decision.reason;
  signal_fingerprint = t.fingerprint;
  created_at = t.moment;
}

unfoldable pub write_notified : Turn → AlertEvent → AlertStore → AlertStore
unfolding notified_state new_delivery put_state
write_notified t event s =
    let delivery_id = next_after_state t s in
    record s {
      states = put_state (notified_state t delivery_id) s.states;
      deliveries = s.deliveries ++ new_delivery t event delivery_id ∷ [];
      audits = s.audits ++ queued_audit t event delivery_id ∷ [];
      next_id = delivery_id + 1;
    }

abbrev pub is_cooldown : AlertReason → Bool
is_cooldown AlertReason.cooldown_active = true
is_cooldown _ = false

-- The event that is queued.
abbrev pub queued_event : Turn → Option AlertEvent
queued_event t = if t.silenced then none else t.decision.event_type

unfoldable pub write_event : Option AlertEvent → Turn → AlertStore → AlertStore
unfolding write_evaluated write_notified
write_event none t s = write_evaluated t s
write_event (some event) t s = write_notified t event s

unfoldable pub write_turn : Turn → AlertStore → AlertStore
unfolding write_event
write_turn t s = write_event (queued_event t) t s

unfoldable pub counts_of : Turn → Counts
counts_of t = record {
  transitions = int_of t.status_changed;
  queued = int_of (is_some (queued_event t));
  cooldown_suppressed = int_of (is_cooldown t.decision.reason);
  silence_suppressed = int_of t.silenced;
}

-- The loop over `snapshot.comparison.signals`.
unfoldable pub evaluate_signals :
    WebhookConfig → ℕ → (Signal → Text) → List Signal → AlertStore → AlertStore × Counts
unfolding turn_of write_turn counts_of
evaluate_signals config moment fingerprint [] s = (s, no_counts)
evaluate_signals config moment fingerprint (signal ∷ signals) s =
    let turn = turn_of config moment (fingerprint signal) signal s in
    let rest = evaluate_signals config moment fingerprint signals (write_turn turn s) in
    (rest.0, add_counts (counts_of turn) rest.1)

unfoldable pub evaluate_project : WebhookConfig → ℕ → Snapshot → AlertStore → AlertStore × Counts
unfolding evaluate_signals
evaluate_project config moment snapshot s =
    evaluate_signals config moment snapshot.fingerprint snapshot.signals s
