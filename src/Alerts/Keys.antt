-- ===== src/Alerts/Keys.antt =====
-- quality_alert_services.py: the rows of one project and metric, among the others.
use top.Base.{
  first-put, ℕ, ◌≡◌, refl, ap, Bool, true, false, List, [], ◌∷◌, ◌++◌, some, is_some, first,
  update_where, arith, Bool-cases, inl, inr, if◌then◌else◌,
}
use top.Alerts.Rows.{Metric, AlertState, has_metric, same_metric}
use top.Alerts.Evaluate.{put_state}

pub same_metric→eq : (a b : Metric) → same_metric a b ≡ true → a ≡ b
same_metric→eq Metric.run_pass_rate Metric.run_pass_rate same = refl
same_metric→eq Metric.run_pass_rate Metric.case_pass_rate same = cc
same_metric→eq Metric.run_pass_rate Metric.execution_reliability same = cc
same_metric→eq Metric.case_pass_rate Metric.run_pass_rate same = cc
same_metric→eq Metric.case_pass_rate Metric.case_pass_rate same = refl
same_metric→eq Metric.case_pass_rate Metric.execution_reliability same = cc
same_metric→eq Metric.execution_reliability Metric.run_pass_rate same = cc
same_metric→eq Metric.execution_reliability Metric.case_pass_rate same = cc
same_metric→eq Metric.execution_reliability Metric.execution_reliability same = refl

first-update_other :
    (p q : AlertState → Bool) (new : AlertState) (states : List AlertState)
    → q new ≡ false
    → ((x : AlertState) → p x ≡ true → q x ≡ false)
    → first q (update_where p (λ _. new) states) ≡ first q states
unfolding first update_where
first-update_other p q new [] unmet apart = refl
first-update_other p q new (x ∷ xs) unmet apart = elim (Bool-cases (p x)) [
  | inl e ↦ rw (e, unmet, apart x e) (first-update_other p q new xs unmet apart)
  | inr e ↦ rw e (ap (λ o. if q x then some x else o) (first-update_other p q new xs unmet apart))
]

first-add_self :
    (p : AlertState → Bool) (new : AlertState) (states : List AlertState)
    → p new ≡ true
    → is_some (first p states) ≡ false
    → first p (states ++ new ∷ []) ≡ some new
unfolding first
first-add_self p new [] met missing = rw met refl
first-add_self p new (x ∷ xs) met missing = elim (Bool-cases (p x)) [
  | inl e ↦ cc (rw e at missing)
  | inr e ↦ rw e (first-add_self p new xs met (rw e at missing))
]

first-add_other :
    (q : AlertState → Bool) (new : AlertState) (states : List AlertState)
    → q new ≡ false
    → first q (states ++ new ∷ []) ≡ first q states
unfolding first
first-add_other q new [] unmet = rw unmet refl
first-add_other q new (x ∷ xs) unmet =
    ap (λ o. if q x then some x else o) (first-add_other q new xs unmet)

pub put_state_self :
    (state : AlertState) (states : List AlertState)
    → first (has_metric state.project_id state.metric) (put_state state states) ≡ some state
unfolding put_state
put_state_self state states =
    let p = has_metric state.project_id state.metric in
    let met : p state ≡ true = ground (arith) in
    elim (Bool-cases (is_some (first p states))) [
      | inl found ↦ rw found (first-put p state states met found)
      | inr missing ↦ rw missing (first-add_self p state states met missing)
    ]

pub put_state_other :
    (project : ℕ) (metric : Metric) (state : AlertState) (states : List AlertState)
    → has_metric project metric state ≡ false
    → first (has_metric project metric) (put_state state states)
      ≡ first (has_metric project metric) states
unfolding put_state
put_state_other project metric state states unmet =
    let p = has_metric state.project_id state.metric in
    let q = has_metric project metric in
    elim (Bool-cases (is_some (first p states))) [
      | inl found ↦ rw found (first-update_other p q state states unmet (λ x met. ground (arith)))
      | inr missing ↦ rw missing (first-add_other q state states unmet)
    ]
