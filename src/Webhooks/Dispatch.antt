-- ===== src/Webhooks/Dispatch.antt =====
-- quality_webhooks.py: `dispatch_quality_webhook_batch`. The sender is an argument; `none` is the
-- ValueError.
use top.Base.{
  ℕ, Bool, true, false, not, ◌&&◌, ◌||◌, ◌+◌, ◌^◌, ◌==◌, ltb, leb, min, Option, none, some, List,
  [], ◌∷◌, if◌then◌else◌, select, order_by, limit, update_where, first,
}
use top.Contracts.{seconds}
use top.Alerts.Rows.{Delivery, DeliveryStatus, WebhookConfig, DeliveryError}
use top.Webhooks.Send.{Sending, sent, permanent, transient, raised}

abbrev pub is_pending : DeliveryStatus → Bool
is_pending DeliveryStatus.pending = true
is_pending _ = false

unfoldable pub is_retryable_status : ℕ → Bool
is_retryable_status status_code =
    (status_code == 408) || (status_code == 425) || (status_code == 429) || leb 500 status_code

unfoldable pub retry_at : ℕ → ℕ → ℕ
retry_at moment attempts = moment + seconds (min 300 (2 ^ min attempts 8))

abbrev pub failed_with : DeliveryError → Delivery → Delivery
failed_with e d = record d { status = DeliveryStatus.failed; last_error = some e }

-- The last attempt fails; an earlier one waits.
unfoldable pub retry_or_fail : ℕ → ℕ → DeliveryError → Delivery → Delivery
unfolding retry_at
retry_or_fail max_attempts moment e d =
    if leb max_attempts d.attempts
    then failed_with e d
    else record d { last_error = some e; available_at = retry_at moment d.attempts }

abbrev pub write_delivered : ℕ → Delivery → Delivery
write_delivered moment d = record d {
  status = DeliveryStatus.delivered;
  delivered_at = some moment;
  last_error = none;
}

unfoldable pub answer_status : ℕ → ℕ → ℕ → Delivery → Delivery
unfolding is_retryable_status retry_at
answer_status max_attempts moment response d =
    let seen : Delivery = record d { response_status = some response } in
    if leb 200 response && ltb response 300
    then write_delivered moment seen
    else if is_retryable_status response && ltb d.attempts max_attempts
    then record seen {
      last_error = some (DeliveryError.http_status response);
      available_at = retry_at moment d.attempts;
    }
    else failed_with (DeliveryError.http_status response) seen

unfoldable pub settle_reply : ℕ → ℕ → Sending ℕ → Delivery → Delivery
unfolding retry_or_fail answer_status
settle_reply max_attempts moment (permanent e) d = failed_with e d
settle_reply max_attempts moment (transient e) d = retry_or_fail max_attempts moment e d
settle_reply max_attempts moment raised d =
    retry_or_fail max_attempts moment DeliveryError.unexpected d
settle_reply max_attempts moment (sent response) d = answer_status max_attempts moment response d

-- The attempt with the configuration that `session.get` found.
unfoldable pub attempt_with :
    (WebhookConfig → Delivery → Sending ℕ) → Option WebhookConfig → ℕ → ℕ → Delivery → Delivery
unfolding settle_reply
attempt_with send none max_attempts moment d = failed_with DeliveryError.config_missing d
attempt_with send (some config) max_attempts moment d =
    if config.enabled
    then settle_reply max_attempts moment (send config d) d
    else failed_with DeliveryError.config_missing d

-- The body of the loop: `configs` are the rows that `session.get` reads.
unfoldable pub attempt :
    (WebhookConfig → Delivery → Sending ℕ) → List WebhookConfig → ℕ → ℕ → Delivery → Delivery
unfolding attempt_with
attempt send configs max_attempts moment d =
    attempt_with send (first (λ c. c.id == d.webhook_config_id) configs) max_attempts moment
      (record d { attempts = d.attempts + 1 })

pub record WebhookSummary : Type 0 where
  pub selected : ℕ
  pub delivered : ℕ
  pub retrying : ℕ
  pub failed : ℕ

-- The counter of what became of a delivery.
unfoldable pub count_status : DeliveryStatus → WebhookSummary → WebhookSummary
count_status DeliveryStatus.delivered u = record u {
  selected = u.selected + 1;
  delivered = u.delivered + 1;
}
count_status DeliveryStatus.pending u = record u {
  selected = u.selected + 1;
  retrying = u.retrying + 1;
}
count_status DeliveryStatus.failed u = record u { selected = u.selected + 1; failed = u.failed + 1 }

abbrev pub is_ready : ℕ → Delivery → Bool
is_ready moment d = is_pending d.status && leb d.available_at moment

abbrev pub created_before : Delivery → Delivery → Bool
created_before a b = leb a.created_at b.created_at

unfoldable pub ready_deliveries : (ℕ → Bool) → ℕ → ℕ → List Delivery → List Delivery
ready_deliveries locked moment n deliveries =
    limit n
      (order_by created_before (select (λ d. is_ready moment d && not (locked d.id)) deliveries))

module _ (send : WebhookConfig → Delivery → Sending ℕ) (configs : List WebhookConfig)
    (max_attempts moment : ℕ) where
  unfoldable pub attempt_all :
      List Delivery → List Delivery → WebhookSummary → List Delivery × WebhookSummary
  unfolding attempt count_status
  attempt_all [] rows u = (rows, u)
  attempt_all (d ∷ ds) rows u =
      let after = attempt send configs max_attempts moment d in
      attempt_all ds (update_where (λ x. x.id == d.id) (λ _. after) rows)
        (count_status after.status u)

unfoldable pub dispatch_quality_webhook_batch :
    (WebhookConfig → Delivery → Sending ℕ)
    → (ℕ → Bool)
    → List WebhookConfig
    → ℕ
    → ℕ
    → ℕ
    → List Delivery
    → Option (List Delivery × WebhookSummary)
unfolding ready_deliveries attempt_all
dispatch_quality_webhook_batch send locked configs n max_attempts moment deliveries =
    let start : WebhookSummary = record { selected = 0; delivered = 0; retrying = 0; failed = 0 } in
    if not (leb 1 n && leb n 500)
    then none
    else if not (leb 1 max_attempts && leb max_attempts 20)
    then none
    else some (
        attempt_all send configs max_attempts moment (ready_deliveries locked moment n deliveries)
          deliveries start)
