-- ===== src/Alerts/Counted.antt =====
-- quality_alert_services.py: the counts of a poll, and silences.
use top.Base.{
  ℕ, ◌≡◌, refl, ◌∙◌, ap, Bool, true, false, ◌&&◌, ◌==◌, ◌+◌, ◌≤◌, List, [], ◌∷◌, ◌++◌, Option, none,
  some, is_some, length, length-limit, any, arith, Bool-cases, inl, inr, if◌then◌else◌,
}
use mathlib.Core.Path.{subst}
use top.Contracts.{seconds, Text}
use top.Alerts.Rows.{WebhookConfig, AlertStore, Signal, Delivery, AlertEvent}
use top.Alerts.Decide.{is_ahead}
use top.Alerts.Evaluate.{
  Snapshot, evaluate_project, evaluate_signals, write_turn, write_event, write_evaluated,
  write_notified, turn_of, queued_event, Turn, counts_of, int_of,
}
use top.Alerts.Batch.{
  AlertSummary, due_configs, evaluated_config, evaluate_configs, evaluate_due,
  evaluate_quality_alert_batch,
}
use top.Alerts.Polls.{poll_returned}

length-add : (ds : List Delivery) (d : Delivery) → length (ds ++ d ∷ []) ≡ length ds + 1
length-add [] d = refl
length-add (x ∷ ds) d = let rest = length-add ds d in omega arith

add_chain : (a x y : ℕ) {b c : ℕ} → c ≡ b + y → b ≡ a + x → c ≡ a + (x + y)
add_chain a x y second first = omega arith

write_event_count :
    (queued : Option AlertEvent) (t : Turn) (s : AlertStore)
    → length (write_event queued t s).deliveries ≡ length s.deliveries + int_of (is_some queued)
unfolding write_event write_evaluated write_notified
write_event_count none t s = omega arith
write_event_count (some event) t s = length-add s.deliveries _

evaluate_signals_count :
    (config : WebhookConfig) (moment : ℕ) (fingerprint : Signal → Text) (signals : List Signal)
    (s : AlertStore)
    → length (evaluate_signals config moment fingerprint signals s).0.deliveries
      ≡ length s.deliveries + (evaluate_signals config moment fingerprint signals s).1.queued
unfolding evaluate_signals write_turn counts_of
evaluate_signals_count config moment fingerprint [] s = omega arith
evaluate_signals_count config moment fingerprint (signal ∷ signals) s =
    let t = turn_of config moment (fingerprint signal) signal s in
    let one = write_event_count (queued_event t) t s in
    let rest =
      evaluate_signals_count config moment fingerprint signals (write_event (queued_event t) t s) in
    add_chain (length s.deliveries) _ _ rest one

evaluate_configs_count :
    (comparison : ℕ → Snapshot) (moment next : ℕ) (configs : List WebhookConfig) (s : AlertStore)
    → (length (evaluate_configs comparison moment next configs s).0.deliveries
        ≡ length s.deliveries + (evaluate_configs comparison moment next configs s).2.queued)
      × ((evaluate_configs comparison moment next configs s).1 ≤ length configs)
unfolding evaluate_configs evaluate_project evaluated_config
evaluate_configs_count comparison moment next [] s = (omega arith, omega arith)
evaluate_configs_count comparison moment next (config ∷ configs) s =
    let one =
      evaluate_signals_count config moment (comparison config.project_id).fingerprint
        (comparison config.project_id).signals s in
    elim (Bool-cases (any (λ id. id == config.project_id) s.projects)) [
      | inl present ↦
          let (more, fewer) = evaluate_configs_count comparison moment next configs (
            evaluated_config moment next config
              (evaluate_project config moment (comparison config.project_id) s).0) in
          rw present (add_chain (length s.deliveries) _ _ more one, omega arith)
      | inr missing ↦
          let (more, fewer) = evaluate_configs_count comparison moment next configs s in
          rw missing (more, omega arith)
    ]

-- Each alert that a poll counts as queued is a delivery that it added, and it evaluates at most the
-- projects that it selected, which are at most the batch size.
pub evaluate_quality_alert_batch_count :
    (locked : ℕ → Bool) (comparison : ℕ → Snapshot) (moment n interval : ℕ) (s t : AlertStore)
    (u : AlertSummary)
    → evaluate_quality_alert_batch locked comparison moment n interval s ≡ some (t, u)
    → (length t.deliveries ≡ length s.deliveries + u.queued)
      × (u.evaluated ≤ u.selected)
      × (u.selected ≤ n)
unfolding evaluate_due due_configs
evaluate_quality_alert_batch_count locked comparison moment n interval s t u returned =
    let due = due_configs locked moment n s in
    let (added, fewer) =
      evaluate_configs_count comparison moment (moment + seconds interval) due s in
    subst
      (λ x.
        (length x.0.deliveries ≡ length s.deliveries + x.1.queued)
        × (x.1.evaluated ≤ x.1.selected)
        × (x.1.selected ≤ n))
      (poll_returned locked comparison moment n interval s t u returned)
      (added, fewer, length-limit n _)

quiet_event :
    (decided : Option AlertEvent) (silence : Bool)
    → silence ≡ true
    → (if is_some decided && silence then none else decided) ≡ none
quiet_event none true silent = refl
quiet_event none false silent = refl
quiet_event (some event) silence silent = rw silent refl

silenced_event :
    (config : WebhookConfig) (moment : ℕ) (fingerprint : Text) (signal : Signal) (s : AlertStore)
    → is_ahead moment config.silenced_until ≡ true
    → queued_event (turn_of config moment fingerprint signal s) ≡ none
unfolding turn_of
silenced_event config moment fingerprint signal s silence =
    quiet_event (turn_of config moment fingerprint signal s).decision.event_type _ silence

none_queued :
    (queued : Option AlertEvent) (n : ℕ) → queued ≡ none → n ≡ 0 → int_of (is_some queued) + n ≡ 0
none_queued none n quiet zero = omega arith
none_queued (some event) n quiet zero = cc

signals_silenced :
    (config : WebhookConfig) (moment : ℕ) (fingerprint : Signal → Text) (signals : List Signal)
    (s : AlertStore)
    → is_ahead moment config.silenced_until ≡ true
    → ((evaluate_signals config moment fingerprint signals s).0.deliveries ≡ s.deliveries)
      × ((evaluate_signals config moment fingerprint signals s).1.queued ≡ 0)
unfolding evaluate_signals write_turn counts_of write_event write_evaluated
signals_silenced config moment fingerprint [] s silence = (refl, refl)
signals_silenced config moment fingerprint (signal ∷ signals) s silence =
    let t = turn_of config moment (fingerprint signal) signal s in
    let quiet = silenced_event config moment (fingerprint signal) signal s silence in
    let (same, zero) =
      signals_silenced config moment fingerprint signals (write_turn t s) silence in
    (same ∙ ap (λ e. (write_event e t s).deliveries) quiet, none_queued _ _ quiet zero)

-- While the notifications of a project are silenced, an evaluation queues none: the deliveries stay as
-- they are, and none is counted.
pub evaluate_project_silenced :
    (config : WebhookConfig) (moment : ℕ) (snapshot : Snapshot) (s : AlertStore)
    → is_ahead moment config.silenced_until ≡ true
    → ((evaluate_project config moment snapshot s).0.deliveries ≡ s.deliveries)
      × ((evaluate_project config moment snapshot s).1.queued ≡ 0)
unfolding evaluate_project
evaluate_project_silenced config moment snapshot s silence =
    signals_silenced config moment snapshot.fingerprint snapshot.signals s silence
