-- ===== src/Webhooks/Samples.antt =====
-- A delivery to an endpoint that fails twice, and one that is signed and answered.
use top.Base.{
  ℕ, length, ◌≡◌, refl, ◌+◌, ◌≤◌, Bool, true, false, Option, none, some, List, [], ◌∷◌, All, arith,
  select, order_by, first, update_where,
}
use top.Contracts.{lower, text_eq, seconds}
use top.Alerts.Rows.{
  Delivery, DeliveryStatus, DeliveryError, WebhookConfig, AlertEvent, AlertStatus, AlertReason,
  Metric, Signal,
}
use top.Webhooks.Send.{response, Sending, address, Environment, permanent, transient, send}
use top.Webhooks.Dispatch.{
  is_pending, dispatch_quality_webhook_batch, ready_deliveries, WebhookSummary,
}
use top.Webhooks.Settled.{IsBounded, Poll, polled, polled-settled}
use top.Webhooks.Counts.{dispatch_quality_webhook_batch-IsBounded}
use top.Webhooks.Safe.{Posted, send-Posted}

abbrev signal : Signal
signal = record {
  metric = Metric.run_pass_rate;
  alert_status = AlertStatus.critical;
  current_percent = some 60;
  previous_percent = some 90;
  delta_percentage_points = some 30;
}

abbrev delivery : ℕ → Delivery
delivery id = record {
  id = id;
  project_id = 7;
  webhook_config_id = 3;
  event_type = AlertEvent.triggered;
  dedupe_key = record {
    project_id = 7;
    metric = Metric.run_pass_rate;
    sequence = 1;
    fingerprint = [];
  };
  signal = signal;
  previous_status = AlertStatus.stable;
  reason = AlertReason.qualifying_signal;
  status = DeliveryStatus.pending;
  attempts = 0;
  available_at = seconds 10;
  created_at = id;
  delivered_at = none;
  response_status = none;
  last_error = none;
}

-- An endpoint with one global address, whose secret is "k".
abbrev env : ℕ → Environment
env status = record {
  allow_private_networks = false;
  urlsplit = λ url. some record {
    scheme = b'H' ∷ b't' ∷ b't' ∷ b'p' ∷ b's' ∷ [];
    hostname = url;
    port = some none;
    username = [];
    password = [];
    fragment = [];
  };
  getaddrinfo = λ host. some (address true ∷ []);
  environ = λ name. b'k' ∷ [];
  json_body = λ d. b'{' ∷ b'}' ∷ [];
  hmac_sha256 = λ secret input. secret;
  timestamp = b'7' ∷ [];
  post = λ request. response status;
}

abbrev signed : WebhookConfig
signed = record {
  id = 3;
  project_id = 7;
  enabled = true;
  endpoint_url = b'h' ∷ [];
  signing_secret_name = some (b's' ∷ []);
  minimum_alert_status = AlertStatus.warning;
  cooldown_seconds = 3600;
  created_at = 1;
  last_evaluated_at = none;
  next_evaluation_at = none;
  silenced_until = none;
}

abbrev sender : ℕ → WebhookConfig → Delivery → Sending ℕ
sender status = send (env status)

abbrev unlocked : ℕ → Bool
unlocked id = false

abbrev batch : ℕ → ℕ → List Delivery → Option (List Delivery × WebhookSummary)
batch status moment rows =
    dispatch_quality_webhook_batch (sender status) unlocked (signed ∷ []) 1 2 moment rows

abbrev rows : List Delivery
rows = delivery 2 ∷ delivery 1 ∷ []

-- The private network is refused for good, and the missing name later again.
private_address :
    send
      (record (env 204) { getaddrinfo = λ host. some (address true ∷ address false ∷ []) })
      signed
      (delivery 1)
    ≡ permanent DeliveryError.private_address
unfolding send lower text_eq
private_address = refl

no_name :
    send (record (env 204) { getaddrinfo = λ host. none }) signed (delivery 1)
    ≡ transient DeliveryError.dns_failed
unfolding send lower text_eq
no_name = refl

abbrev retried : Delivery
retried = record (delivery 1) {
  attempts = 1;
  response_status = some 503;
  last_error = some (DeliveryError.http_status 503);
  available_at = seconds 22;
}

abbrev one_retry : WebhookSummary
one_retry = record { selected = 1; delivered = 0; retrying = 1; failed = 0 }

first_503 : batch 503 (seconds 20) rows ≡ some (delivery 2 ∷ retried ∷ [], one_retry)
unfolding dispatch_quality_webhook_batch order_by select first update_where send lower text_eq
first_503 = refl

-- The attempt with the last of the numbers fails it.
second_503 :
    batch 503 (seconds 30) (retried ∷ [])
    ≡ some (
      record retried { attempts = 2; status = DeliveryStatus.failed } ∷ [],
      record { selected = 1; delivered = 0; retrying = 0; failed = 1 },
    )
unfolding dispatch_quality_webhook_batch order_by select first update_where send lower text_eq
second_503 = refl

send-Posted_example : Posted (env 204) signed (delivery 1) 204
unfolding send lower text_eq
send-Posted_example = send-Posted (env 204) signed (delivery 1) 204 refl

abbrev poll : ℕ → Poll
poll status = record { sender = sender status; configs = signed ∷ []; moment = seconds 20 }

polled-settled_example :
    is_pending (polled 2 (poll 503 ∷ poll 429 ∷ []) (delivery 1)).status ≡ false
polled-settled_example =
    polled-settled 2 (poll 503 ∷ poll 429 ∷ []) (delivery 1) (omega arith) (omega arith)

rows-IsBounded : All (IsBounded 2) rows
rows-IsBounded = (
  record { bounded = omega arith; waits = λ pending. omega arith },
  (record { bounded = omega arith; waits = λ pending. omega arith }, tt),
)

dispatch_quality_webhook_batch-IsBounded_example :
    All (IsBounded 2) (delivery 2 ∷ retried ∷ [])
    × (one_retry.selected ≡ one_retry.delivered + one_retry.retrying + one_retry.failed)
    × (one_retry.selected ≡ length (ready_deliveries unlocked (seconds 20) 1 rows))
    × (one_retry.selected ≤ 1)
dispatch_quality_webhook_batch-IsBounded_example =
    dispatch_quality_webhook_batch-IsBounded (sender 503) unlocked (signed ∷ []) 1 2 (seconds 20)
      rows (delivery 2 ∷ retried ∷ []) one_retry rows-IsBounded first_503
