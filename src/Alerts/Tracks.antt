-- ===== src/Alerts/Tracks.antt =====
-- quality_alert_services.py: the row of an alert against the deliveries that were queued for it, over
-- the turns of `_evaluate_project`.
use top.Base.{
  ℕ, ◌≡◌, refl, ◌∙◌, sym, ap, Bool, true, false, List, [], Option, none, some, length, select,
  arith, first-some,
}
use mathlib.Core.Path.{subst}
use top.Contracts.{Text}
use top.Alerts.Rows.{
  AlertEvent, Metric, Signal, AlertState, Delivery, WebhookConfig, AlertStore, has_metric,
}
use top.Alerts.Evaluate.{Turn, find_state, turn_of, measured_state, new_state, evaluated_state}
use top.Alerts.Machine.{IsAlarm, Move, Trace, idle, of_metric, decide-Move}

-- The alert stands where its deliveries leave it, and they are numbered up to its sequence.
unfoldable pub Follows : List Delivery → AlertState → Type 0
Follows deliveries state =
    Trace deliveries state.active_notification_status
    × (state.notification_sequence ≡ length deliveries)

abbrev pub FollowsIf : List Delivery → Option AlertState → Type 0
FollowsIf deliveries none = deliveries ≡ []
FollowsIf deliveries (some state) = Follows deliveries state

-- What the invariant says of one project and metric.
unfoldable pub Tracks : AlertStore → ℕ → Metric → Type 0
Tracks s project metric =
    FollowsIf (select (of_metric project metric) s.deliveries) (find_state project metric s)

abbrev pub IsTracked : AlertStore → Type 0
IsTracked s = (project : ℕ) (metric : Metric) → Tracks s project metric

evaluated_state-Follows :
    (deliveries : List Delivery) (moment : ℕ) (fingerprint : Text) (signal : Signal)
    (changed : Bool) (state : AlertState)
    → Follows deliveries state
    → Follows deliveries (evaluated_state moment fingerprint signal changed state)
unfolding Follows evaluated_state
evaluated_state-Follows deliveries moment fingerprint signal true state follows = follows
evaluated_state-Follows deliveries moment fingerprint signal false state follows = follows

evaluated_state_keys :
    (project : ℕ) (metric : Metric) (moment : ℕ) (fingerprint : Text) (signal : Signal)
    (changed : Bool) (state : AlertState)
    → has_metric project metric (evaluated_state moment fingerprint signal changed state)
      ≡ has_metric project metric state
unfolding evaluated_state
evaluated_state_keys project metric moment fingerprint signal true state = refl
evaluated_state_keys project metric moment fingerprint signal false state = refl

module _ (config : WebhookConfig) (moment : ℕ) (fingerprint : Text) (signal : Signal) (id : ℕ) where
  measured-Follows :
      (deliveries : List Delivery) (found : Option AlertState)
      → FollowsIf deliveries found
      → Follows deliveries (measured_state config moment fingerprint signal id found)
  unfolding Follows measured_state new_state
  measured-Follows deliveries none empty =
      (subst (λ ds. Trace ds none) (sym empty) idle, ap length (sym empty))
  measured-Follows deliveries (some state) follows =
      evaluated_state-Follows deliveries moment fingerprint signal _ state follows

  measured_keyed :
      (found : Option AlertState)
      → ((state : AlertState)
          → found ≡ some state
          → has_metric config.project_id signal.metric state ≡ true)
      → has_metric config.project_id signal.metric
          (measured_state config moment fingerprint signal id found)
        ≡ true
  unfolding measured_state new_state
  measured_keyed none keyed = ground arith
  measured_keyed (some state) keyed =
      evaluated_state_keys config.project_id signal.metric moment fingerprint signal _ state
      ∙ keyed state refl

-- The row of a turn, which the turn writes.
pub record Ready (t : Turn) (s : AlertStore) : Type 0 where
  pub keyed : has_metric t.config.project_id t.signal.metric t.state ≡ true
  pub follows :
      Follows (select (of_metric t.config.project_id t.signal.metric) s.deliveries) t.state
  pub moves :
      (event : AlertEvent)
      → t.decision.event_type ≡ some event
      → Move t.state.active_notification_status event t.decision.active_notification_status

pub turn_of-Ready :
    (config : WebhookConfig) (moment : ℕ) (fingerprint : Text) (signal : Signal) (s : AlertStore)
    → IsAlarm config.minimum_alert_status
    → IsTracked s
    → Ready (turn_of config moment fingerprint signal s) s
unfolding turn_of Tracks
turn_of-Ready config moment fingerprint signal s alarm tracked =
    let found = find_state config.project_id signal.metric s in
    let state = measured_state config moment fingerprint signal s.next_id found in
    record {
      keyed =
          measured_keyed config moment fingerprint signal s.next_id found
            (λ x. first-some (has_metric config.project_id signal.metric) s.states);
      follows =
          measured-Follows config moment fingerprint signal s.next_id
            (select (of_metric config.project_id signal.metric) s.deliveries) found
            (tracked config.project_id signal.metric);
      moves = λ event.
          decide-Move signal.alert_status state.active_notification_status
            config.minimum_alert_status state.cooldown_until moment event alarm;
    }
