-- ===== src/Alerts/Batch.antt =====
-- quality_alert_services.py: `evaluate_quality_alert_batch`. The comparisons of the projects at the
-- moment of the poll are an argument; `none` is its ValueError.
use top.Base.{
  ℕ, Bool, true, not, ◌&&◌, ◌||◌, ◌+◌, ◌==◌, ltb, leb, Option, none, some, List, [], ◌∷◌,
  if◌then◌else◌, length, select, order_by, limit, update_where, any, or_else,
}
use top.Contracts.{seconds}
use top.Alerts.Rows.{WebhookConfig, AlertStore}
use top.Alerts.Evaluate.{Snapshot, Counts, no_counts, add_counts, evaluate_project}

pub record AlertSummary : Type 0 where
  pub selected : ℕ
  pub evaluated : ℕ
  pub transitions : ℕ
  pub queued : ℕ
  pub cooldown_suppressed : ℕ
  pub silence_suppressed : ℕ

-- `next_evaluation_at IS NULL OR next_evaluation_at <= moment`.
abbrev pub evaluation_due : ℕ → Option ℕ → Bool
evaluation_due moment none = true
evaluation_due moment (some at) = leb at moment

abbrev pub is_selected : ℕ → WebhookConfig → Bool
is_selected moment config = config.enabled && evaluation_due moment config.next_evaluation_at

abbrev pub due_order : WebhookConfig → WebhookConfig → Bool
due_order a b =
    let at = or_else a.next_evaluation_at a.created_at in
    let bt = or_else b.next_evaluation_at b.created_at in
    ltb at bt || ((at == bt) && leb a.project_id b.project_id)

-- `locked`: another poll holds the row (`FOR UPDATE SKIP LOCKED`).
unfoldable pub due_configs : (ℕ → Bool) → ℕ → ℕ → AlertStore → List WebhookConfig
due_configs locked moment batch_size s =
    limit batch_size
      (order_by due_order (select (λ c. is_selected moment c && not (locked c.id)) s.configs))

-- The end of a silence comes first if it lies between the poll and the next one.
unfoldable pub next_evaluation : ℕ → ℕ → Option ℕ → ℕ
next_evaluation moment next none = next
next_evaluation moment next (some silenced_until) =
    if ltb moment silenced_until && ltb silenced_until next then silenced_until else next

unfoldable pub evaluated_config : ℕ → ℕ → WebhookConfig → AlertStore → AlertStore
unfolding next_evaluation
evaluated_config moment next config s = record s {
  configs =
      update_where (λ c. c.id == config.id)
        (λ c. record c {
          last_evaluated_at = some moment;
          next_evaluation_at = some (next_evaluation moment next config.silenced_until);
        })
        s.configs;
}

-- The loop over the configurations, with the number that were evaluated.
unfoldable pub evaluate_configs :
    (ℕ → Snapshot) → ℕ → ℕ → List WebhookConfig → AlertStore → AlertStore × ℕ × Counts
unfolding evaluated_config evaluate_project
evaluate_configs comparison moment next [] s = (s, 0, no_counts)
evaluate_configs comparison moment next (config ∷ configs) s =
    let present = any (λ id. id == config.project_id) s.projects in
    let one = evaluate_project config moment (comparison config.project_id) s in
    let after = if present then evaluated_config moment next config one.0 else s in
    let rest = evaluate_configs comparison moment next configs after in
    if present then (rest.0, rest.1 + 1, add_counts one.1 rest.2) else rest

-- The transaction of a poll and its summary.
unfoldable pub evaluate_due :
    (ℕ → Bool) → (ℕ → Snapshot) → ℕ → ℕ → ℕ → AlertStore → AlertStore × AlertSummary
unfolding due_configs evaluate_configs
evaluate_due locked comparison moment batch_size interval s =
    let configs = due_configs locked moment batch_size s in
    let (after, evaluated, counts) =
      evaluate_configs comparison moment (moment + seconds interval) configs s in
    (
      after,
      record {
        selected = length configs;
        evaluated = evaluated;
        transitions = counts.transitions;
        queued = counts.queued;
        cooldown_suppressed = counts.cooldown_suppressed;
        silence_suppressed = counts.silence_suppressed;
      },
    )

unfoldable pub evaluate_quality_alert_batch :
    (ℕ → Bool) → (ℕ → Snapshot) → ℕ → ℕ → ℕ → AlertStore → Option (AlertStore × AlertSummary)
unfolding evaluate_due
evaluate_quality_alert_batch locked comparison moment batch_size interval s =
    if not (leb 1 batch_size && leb batch_size 500)
    then none
    else if not (leb 5 interval && leb interval 3600)
    then none
    else some (evaluate_due locked comparison moment batch_size interval s)
