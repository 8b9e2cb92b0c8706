-- ===== src/Webhooks/Settled.antt =====
-- quality_webhooks.py: the attempts of a delivery are bounded.
use top.Base.{
  ℕ, ◌≡◌, refl, ◌∙◌, ap, Bool, true, false, ◌&&◌, ◌==◌, ◌+◌, ◌≤◌, ◌<◌, ltb, leb, Option, none, some,
  List, [], ◌∷◌, length, first, Bool-cases, inl, inr, arith, if◌then◌else◌,
}
use top.Alerts.Rows.{Delivery, WebhookConfig, DeliveryError}
use top.Webhooks.Send.{Sending, sent, permanent, transient, raised}
use top.Webhooks.Dispatch.{
  is_pending, is_retryable_status, retry_or_fail, answer_status, settle_reply, attempt,
  attempt_with,
}

-- A delivery was attempted the bound's times at most, and less often if it is PENDING.
pub record IsBounded (max_attempts : ℕ) (d : Delivery) : Type 0 where
  pub bounded : d.attempts ≤ max_attempts
  pub waits : is_pending d.status ≡ true → d.attempts < max_attempts

-- One attempt more, and an end if it is the last.
pub record Attempted (max_attempts : ℕ) (before after : Delivery) : Type 0 where
  pub counted : after.attempts ≡ before.attempts + 1
  pub ends : is_pending after.status ≡ true → before.attempts + 1 < max_attempts

retry_or_fail-ends :
    (max_attempts moment : ℕ) (e : DeliveryError) (d : Delivery)
    → ((retry_or_fail max_attempts moment e d).attempts ≡ d.attempts)
      × (is_pending (retry_or_fail max_attempts moment e d).status ≡ true
          → d.attempts < max_attempts)
unfolding retry_or_fail
retry_or_fail-ends max_attempts moment e d = elim (Bool-cases (leb max_attempts d.attempts)) [
  | inl last ↦ rw last (refl, λ pending. cc)
  | inr earlier ↦ rw earlier (refl, λ pending. ground (arith, earlier))
]

answer_status-ends :
    (max_attempts moment response : ℕ) (d : Delivery)
    → ((answer_status max_attempts moment response d).attempts ≡ d.attempts)
      × (is_pending (answer_status max_attempts moment response d).status ≡ true
          → d.attempts < max_attempts)
unfolding answer_status
answer_status-ends max_attempts moment response d =
    elim (Bool-cases (leb 200 response && ltb response 300)) [
      | inl success ↦ rw success (refl, λ pending. cc)
      | inr other ↦
          elim (Bool-cases (is_retryable_status response && ltb d.attempts max_attempts)) [
            | inl retried ↦ rw (other, retried) (refl, λ pending. ground (arith, retried))
            | inr refused ↦ rw (other, refused) (refl, λ pending. cc)
          ]
    ]

settle_reply-Attempted :
    (max_attempts moment : ℕ) (reply : Sending ℕ) (d : Delivery)
    → ((settle_reply max_attempts moment reply d).attempts ≡ d.attempts)
      × (is_pending (settle_reply max_attempts moment reply d).status ≡ true
          → d.attempts < max_attempts)
unfolding settle_reply
settle_reply-Attempted max_attempts moment (permanent e) d = (refl, λ pending. cc)
settle_reply-Attempted max_attempts moment (transient e) d =
    retry_or_fail-ends max_attempts moment e d
settle_reply-Attempted max_attempts moment raised d = retry_or_fail-ends max_attempts moment _ d
settle_reply-Attempted max_attempts moment (sent response) d =
    answer_status-ends max_attempts moment response d

if-Attempted :
    (max_attempts : ℕ) (test : Bool) (before x y : Delivery)
    → Attempted max_attempts before x
    → Attempted max_attempts before y
    → Attempted max_attempts before (if test then x else y)
if-Attempted max_attempts true before x y left right = left
if-Attempted max_attempts false before x y left right = right

attempt_with-Attempted :
    (send : WebhookConfig → Delivery → Sending ℕ) (found : Option WebhookConfig)
    (max_attempts moment : ℕ) (before d : Delivery)
    → d.attempts ≡ before.attempts + 1
    → Attempted max_attempts before (attempt_with send found max_attempts moment d)
unfolding attempt_with
attempt_with-Attempted send none max_attempts moment before d counted = record {
  counted = counted;
  ends = λ pending. cc;
}
attempt_with-Attempted send (some config) max_attempts moment before d counted =
    let (same, ends) = settle_reply-Attempted max_attempts moment (send config d) d in
    if-Attempted max_attempts config.enabled before _ _
      (record {
        counted = same ∙ counted;
        ends = λ pending. (let more = ends pending in omega arith);
      })
      (record { counted = counted; ends = λ pending. cc })

pub attempt-Attempted :
    (send : WebhookConfig → Delivery → Sending ℕ) (configs : List WebhookConfig)
    (max_attempts moment : ℕ) (d : Delivery)
    → Attempted max_attempts d (attempt send configs max_attempts moment d)
unfolding attempt
attempt-Attempted send configs max_attempts moment d =
    attempt_with-Attempted send (first (λ c. c.id == d.webhook_config_id) configs) max_attempts
      moment d (record d { attempts = d.attempts + 1 }) refl

-- A poll that finds a delivery: the sender, the configurations and the moment of it.
pub record Poll : Type 0 where
  pub sender : WebhookConfig → Delivery → Sending ℕ
  pub configs : List WebhookConfig
  pub moment : ℕ

-- Polls one after the other, each of which attempts the delivery while it is PENDING.
pub polled : ℕ → List Poll → Delivery → Delivery
polled max_attempts [] d = d
polled max_attempts (p ∷ ps) d =
    polled max_attempts ps
      (if is_pending d.status then attempt p.sender p.configs max_attempts p.moment d else d)

-- A poll attempts a delivery that is PENDING and leaves another as it is.
polled_next :
    (max_attempts : ℕ) (p : Poll) (ps : List Poll) (d : Delivery) (waits : Bool)
    → is_pending d.status ≡ waits
    → polled max_attempts (p ∷ ps) d
      ≡ polled max_attempts ps
          (if waits then attempt p.sender p.configs max_attempts p.moment d else d)
unfolding polled
polled_next max_attempts p ps d waits same =
    ap
      (λ b.
        polled max_attempts ps
          (if b then attempt p.sender p.configs max_attempts p.moment d else d))
      same

abbrev pending_after : ℕ → List Poll → Delivery → Bool
pending_after max_attempts polls d = is_pending (polled max_attempts polls d).status

polled-ended :
    (max_attempts : ℕ) (polls : List Poll) (d : Delivery)
    → is_pending d.status ≡ false
    → pending_after max_attempts polls d ≡ false
unfolding polled
polled-ended max_attempts [] d ended = ended
polled-ended max_attempts (p ∷ ps) d ended =
    ap (λ x. is_pending x.status) (polled_next max_attempts p ps d false ended)
    ∙ polled-ended max_attempts ps d ended

-- A delivery ends as DELIVERED or FAILED: after polls that complete the maximum of attempts, and one at
-- least, it is not PENDING, whatever the sender and the configurations are at each.
pub polled-settled :
    (max_attempts : ℕ) (polls : List Poll) (d : Delivery)
    → max_attempts ≤ d.attempts + length polls
    → 1 ≤ length polls
    → is_pending (polled max_attempts polls d).status ≡ false
polled-settled max_attempts [] d enough some_poll = absurd (ground arith)
polled-settled max_attempts (p ∷ ps) d enough some_poll =
    let after = attempt p.sender p.configs max_attempts p.moment d in
    let turn = attempt-Attempted p.sender p.configs max_attempts p.moment d in
    elim (Bool-cases (is_pending d.status)) [
      | inr ended ↦ polled-ended max_attempts (p ∷ ps) d ended
      | inl pending ↦
          ap (λ x. is_pending x.status) (polled_next max_attempts p ps d true pending)
          ∙ elim (Bool-cases (is_pending after.status)) [
            | inr ended ↦ polled-ended max_attempts ps after ended
            | inl again ↦
                let more = turn.ends again in
                let counted = turn.counted in
                polled-settled max_attempts ps after (omega arith) (omega arith)
          ]
    ]
