-- ===== src/Webhooks/Send.antt =====
-- quality_webhooks.py: `HttpxQualityWebhookSender`, with the default validator of destinations. The
-- libraries that it calls are the fields of `Environment`: urllib, the resolver, the process
-- environment, json, hmac, the clock and httpx. Its `environ` takes a name without the prefix
-- TESTOPS_SECRET_, and gives the empty text for a missing one.
use top.Base.{
  ℕ, Bool, true, false, not, ◌&&◌, ◌||◌, ◌==◌, Option, none, some, List, [], ◌∷◌, ◌++◌,
  if◌then◌else◌,
}
use top.Contracts.{Text, lower, text_eq}
use top.Alerts.Rows.{Delivery, WebhookConfig, DeliveryError, AlertEvent}

-- What `urlsplit` gives; `port` is none where reading it raises ValueError.
pub record Url : Type 0 where
  pub scheme : Text
  pub hostname : Text
  pub port : Option (Option ℕ)
  pub username : Text
  pub password : Text
  pub fragment : Text

-- What a POST gives: the status of the response, a TransportError or another exception.
pub data PostResult : Type 0 where
  response : ℕ → PostResult
  transport_error other_error : PostResult

-- A row of `getaddrinfo`: not an address for `ip_address`, or one with its `is_global`.
pub data Address : Type 0 where
  no_address : Address
  address : Bool → Address

pub record Request : Type 0 where
  pub url : Text
  pub delivery : ℕ
  pub event : AlertEvent
  pub timestamp : Text
  pub body : Text
  pub signature : Option Text

pub record Environment : Type 0 where
  pub allow_private_networks : Bool
  pub urlsplit : Text → Option Url
  pub getaddrinfo : Text → Option (List Address)
  pub environ : Text → Text
  pub json_body : Delivery → Text
  pub hmac_sha256 : Text → Text → Text
  pub timestamp : Text
  pub post : Request → PostResult

-- A call of the sender: it returned, or raised a PermanentWebhookDeliveryError, another
-- WebhookDeliveryError or an exception of another kind.
pub data Sending (A : Type 0) : Type 0 where
  sent : A → Sending A
  permanent transient : DeliveryError → Sending A
  raised : Sending A

infixl 5 ◌>>=◌
abbrev pub ◌>>=◌ : {A B : Type 0} → Sending A → (A → Sending B) → Sending B
sent a >>= rest = rest a
permanent e >>= rest = permanent e
transient e >>= rest = transient e
raised >>= rest = raised

infixl 5 ◌>>◌
abbrev pub ◌>>◌ : {B : Type 0} → Sending (Unit {0}) → Sending B → Sending B
call >> rest = call >>= λ u. rest

abbrev pub is_given : Text → Bool
is_given [] = false
is_given (c ∷ s) = true

-- `port in {None, 443}`.
abbrev pub default_port : Option ℕ → Bool
default_port none = true
default_port (some port) = port == 443

-- "https".
abbrev pub https : Text
https = b'h' ∷ b't' ∷ b't' ∷ b'p' ∷ b's' ∷ []

abbrev pub require : Bool → DeliveryError → Sending (Unit {0})
require test e = if test then sent tt else permanent e

unfoldable pub all_global : List Address → Sending (Unit {0})
all_global [] = sent tt
all_global (no_address ∷ rows) = permanent DeliveryError.invalid_address
all_global (address is_global ∷ rows) =
    require is_global DeliveryError.private_address >> all_global rows

-- `address_rows`, and its test.
unfoldable pub resolved : Option (List Address) → Sending (List Address)
resolved none = transient DeliveryError.dns_failed
resolved (some []) = transient DeliveryError.no_addresses
resolved (some (row ∷ rows)) = sent (row ∷ rows)

abbrev pub port_of : Url → Sending (Option ℕ)
port_of url = elim url.port [ none ↦ permanent DeliveryError.invalid_port | some port ↦ sent port ]

abbrev pub is_plain : Url → Option ℕ → Bool
is_plain url port = not (
    is_given url.username
    || is_given url.password
    || is_given url.fragment
    || not (default_port port))

-- What `urlsplit` gives, none where it raises.
abbrev pub parts_of : Option Url → Sending Url
parts_of none = raised
parts_of (some url) = sent url

module _ (env : Environment) where
  -- The look-up of the host, unless private networks are allowed.
  unfoldable pub validate_addresses : Text → Sending (Unit {0})
  unfolding resolved all_global
  validate_addresses hostname =
      if env.allow_private_networks
      then sent tt
      else resolved (env.getaddrinfo hostname) >>= all_global

  -- The tests of the URL, and then of the addresses of its host.
  unfoldable pub validate_url : Url → Sending (Unit {0})
  unfolding validate_addresses
  validate_url url =
      require (text_eq (lower url.scheme) https && is_given url.hostname) DeliveryError.not_https
      >> (port_of url >>= λ port.
          require (is_plain url port) DeliveryError.not_allowed >> validate_addresses url.hostname)

  unfoldable pub validate_destination : Text → Sending (Unit {0})
  unfolding validate_url
  validate_destination endpoint_url = parts_of (env.urlsplit endpoint_url) >>= validate_url

  unfoldable pub signing_secret : Option Text → Sending (Option Text)
  signing_secret none = sent none
  signing_secret (some name) =
      let value = env.environ name in
      if is_given value then sent (some value) else transient DeliveryError.secret_missing

  -- `timestamp.body` under the secret.
  abbrev pub signature_of : Option Text → Text → Option Text
  signature_of none body = none
  signature_of (some secret) body = some (env.hmac_sha256 secret (env.timestamp ++ b'.' ∷ body))

  unfoldable pub request_for : WebhookConfig → Delivery → Option Text → Request
  request_for config delivery secret = record {
    url = config.endpoint_url;
    delivery = delivery.id;
    event = delivery.event_type;
    timestamp = env.timestamp;
    body = env.json_body delivery;
    signature = signature_of secret (env.json_body delivery);
  }

  abbrev pub response_of : PostResult → Sending ℕ
  response_of transport_error = transient DeliveryError.transport_failed
  response_of other_error = raised
  response_of (response status) = sent status

  unfoldable pub send : WebhookConfig → Delivery → Sending ℕ
  unfolding validate_destination signing_secret request_for
  send config delivery =
      validate_destination config.endpoint_url
      >> (signing_secret config.signing_secret_name >>= λ secret.
          response_of (env.post (request_for config delivery secret)))
