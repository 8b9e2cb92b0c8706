-- ===== src/Webhooks/Counts.antt =====
-- quality_webhooks.py: a batch of attempts, and its counts.
use top.Base.{
  ℕ, ◌≡◌, refl, Bool, true, not, ◌&&◌, ◌==◌, ◌+◌, ◌≤◌, leb, some, List, [], ◌∷◌, length, All,
  All-map, All-order_by, All-limit, All-select_of, All-update_where, length-limit, update_where,
  Bool-cases, inl, inr, arith,
}
use mathlib.Core.Path.{subst}
use top.Alerts.Rows.{Delivery, DeliveryStatus, WebhookConfig}
use top.Webhooks.Send.{Sending}
use top.Webhooks.Dispatch.{
  is_pending, attempt, WebhookSummary, count_status, is_ready, created_before, ready_deliveries,
  attempt_all, dispatch_quality_webhook_batch,
}
use top.Webhooks.Settled.{IsBounded, attempt-Attempted}

count_status_step :
    (status : DeliveryStatus) (u : WebhookSummary)
    → u.selected ≡ u.delivered + u.retrying + u.failed
    → ((count_status status u).selected
        ≡ (count_status status u).delivered
          + (count_status status u).retrying
          + (count_status status u).failed)
      × ((count_status status u).selected ≡ u.selected + 1)
unfolding count_status
count_status_step DeliveryStatus.delivered u sums = (omega arith, refl)
count_status_step DeliveryStatus.pending u sums = (omega arith, refl)
count_status_step DeliveryStatus.failed u sums = (omega arith, refl)

module _ (send : WebhookConfig → Delivery → Sending ℕ) (configs : List WebhookConfig)
    (max_attempts moment : ℕ) where
  attempted-IsBounded :
      (d : Delivery)
      → is_pending d.status ≡ true
      → IsBounded max_attempts d
      → IsBounded max_attempts (attempt send configs max_attempts moment d)
  attempted-IsBounded d pending before =
      let turn = attempt-Attempted send configs max_attempts moment d in
      let counted = turn.counted in
      let less = before.waits pending in
      record { bounded = omega arith; waits = λ again. (let more = turn.ends again in omega arith) }

  attempt_all-IsBounded :
      (ds rows : List Delivery) (u : WebhookSummary)
      → All (λ d. (is_pending d.status ≡ true) × IsBounded max_attempts d) ds
      → All (IsBounded max_attempts) rows
      → u.selected ≡ u.delivered + u.retrying + u.failed
      → All (IsBounded max_attempts) (attempt_all send configs max_attempts moment ds rows u).0
        × ((attempt_all send configs max_attempts moment ds rows u).1.selected
            ≡ (attempt_all send configs max_attempts moment ds rows u).1.delivered
              + (attempt_all send configs max_attempts moment ds rows u).1.retrying
              + (attempt_all send configs max_attempts moment ds rows u).1.failed)
        × ((attempt_all send configs max_attempts moment ds rows u).1.selected
            ≡ u.selected + length ds)
  unfolding attempt_all
  attempt_all-IsBounded [] rows u ready bounded sums = (bounded, sums, omega arith)
  attempt_all-IsBounded (d ∷ ds) rows u ((pending, before), ready) bounded sums =
      let after = attempt send configs max_attempts moment d in
      let (adds, one) = count_status_step after.status u sums in
      let (kept, total, more) =
        attempt_all-IsBounded ds (update_where (λ x. x.id == d.id) (λ _. after) rows)
          (count_status after.status u) ready
          (All-update_where (IsBounded max_attempts) (λ x. x.id == d.id) (λ _. after) rows
            (λ x was. attempted-IsBounded d pending before) bounded)
          adds in
      (kept, total, omega arith)

ready-IsBounded :
    (locked : ℕ → Bool) (moment n max_attempts : ℕ) (rows : List Delivery)
    → All (IsBounded max_attempts) rows
    → All
        (λ d. (is_pending d.status ≡ true) × IsBounded max_attempts d)
        (ready_deliveries locked moment n rows)
unfolding ready_deliveries
ready-IsBounded locked moment n max_attempts rows bounded = All-limit _ n _ (
    All-order_by (λ d. (is_pending d.status ≡ true) × IsBounded max_attempts d) created_before _
      (All-map (λ d. IsBounded max_attempts d × ((is_ready moment d && not (locked d.id)) ≡ true))
        (λ d. (is_pending d.status ≡ true) × IsBounded max_attempts d) _
        (λ d (before, ready). (ground (arith, ready), before))
        (All-select_of (IsBounded max_attempts) _ rows bounded)))

-- A batch keeps every delivery bounded: it has the maximum of attempts at most, and fewer if it is
-- PENDING. The summary's counts of delivered, retrying and failed ones are together its count of
-- selected ones, which is the number of the ready deliveries that the batch takes, at most its limit.
pub dispatch_quality_webhook_batch-IsBounded :
    (send : WebhookConfig → Delivery → Sending ℕ) (locked : ℕ → Bool) (configs : List WebhookConfig)
    (n max_attempts moment : ℕ) (rows after : List Delivery) (u : WebhookSummary)
    → All (IsBounded max_attempts) rows
    → dispatch_quality_webhook_batch send locked configs n max_attempts moment rows
      ≡ some (after, u)
    → All (IsBounded max_attempts) after
      × (u.selected ≡ u.delivered + u.retrying + u.failed)
      × (u.selected ≡ length (ready_deliveries locked moment n rows))
      × (u.selected ≤ n)
unfolding dispatch_quality_webhook_batch
dispatch_quality_webhook_batch-IsBounded send locked configs n max_attempts moment rows after u
      bounded done =
    let start : WebhookSummary = record { selected = 0; delivered = 0; retrying = 0; failed = 0 } in
    let ready = ready_deliveries locked moment n rows in
    let (kept, total, more) =
      attempt_all-IsBounded send configs max_attempts moment ready rows start
        (ready-IsBounded locked moment n max_attempts rows bounded) bounded (omega arith) in
    let short : length ready ≤ n = length-limit n _ in
    elim (Bool-cases (leb 1 n && leb n 500)) [
      | inr other ↦ cc (rw other at done)
      | inl limited ↦ elim (Bool-cases (leb 1 max_attempts && leb max_attempts 20)) [
        | inr other ↦ cc (rw (limited, other) at done)
        | inl possible ↦
            let same : attempt_all send configs max_attempts moment ready rows start ≡ (after, u) =
              cc (rw (limited, possible) at done) in
            subst
              (λ x.
                All (IsBounded max_attempts) x.0
                × (x.1.selected ≡ x.1.delivered + x.1.retrying + x.1.failed)
                × (x.1.selected ≡ length ready)
                × (x.1.selected ≤ n))
              same (kept, total, omega arith, omega arith)
      ]
    ]
