-- ===== src/Webhooks/Safe.antt =====
-- quality_webhooks.py: what `HttpxQualityWebhookSender.send` makes sure of before it posts.
use top.Base.{
  ℕ, ◌≡◌, ◌≢◌, refl, ◌∙◌, sym, ap, Bool, true, false, ◌&&◌, Option, none, some, List, [], ◌∷◌, ◌++◌,
  All, Bool-cases, Option-cases, inl, inr, arith,
}
use mathlib.Core.Path.{subst}
use top.Contracts.{Text, lower, text_eq}
use top.Alerts.Rows.{Delivery, WebhookConfig, DeliveryError}
use top.Webhooks.Send.{
  Url, Address, no_address, address, Request, Environment, Sending, sent, permanent, transient,
  raised, PostResult, response, transport_error, other_error, validate_url, parts_of, ◌>>=◌,
  is_given, default_port, https, require, all_global, resolved, port_of, is_plain,
  validate_addresses, validate_destination, signing_secret, signature_of, request_for, response_of,
  send,
}

-- Every address that the look-up gives is a global one.
pub record IsPublic (env : Environment) (hostname : Text) : Type 0 where
  pub rows : List Address
  pub found : env.getaddrinfo hostname ≡ some rows
  pub some_row : rows ≢ []
  pub global : All (λ row. row ≡ address true) rows

-- A destination that may be posted to.
pub record IsAllowed (env : Environment) (url : Url) : Type 0 where
  pub secure : text_eq (lower url.scheme) https ≡ true
  pub named : is_given url.hostname ≡ true
  pub port : Option ℕ
  pub parsed : url.port ≡ some port
  pub default : default_port port ≡ true
  pub no_user : is_given url.username ≡ false
  pub no_password : is_given url.password ≡ false
  pub no_fragment : is_given url.fragment ≡ false
  pub public : env.allow_private_networks ≡ false → IsPublic env url.hostname

-- A signature under the secret of the configuration, if it names one.
pub record IsSigned (env : Environment) (config : WebhookConfig) (request : Request) : Type 0 where
  pub signed :
      (name : Text)
      → config.signing_secret_name ≡ some name
      → (is_given (env.environ name) ≡ true)
        × (request.signature
            ≡ some (env.hmac_sha256 (env.environ name) (request.timestamp ++ b'.' ∷ request.body)))
  pub unsigned : config.signing_secret_name ≡ none → request.signature ≡ none

-- A request that was posted, and its answer.
pub record Posted (env : Environment) (config : WebhookConfig) (d : Delivery) (status : ℕ)
    : Type 0 where
  pub url : Url
  pub split : env.urlsplit config.endpoint_url ≡ some url
  pub allowed : IsAllowed env url
  pub request : Request
  pub same_url : request.url ≡ config.endpoint_url
  pub same_delivery : request.delivery ≡ d.id
  pub same_body : request.body ≡ env.json_body d
  pub signature : IsSigned env config request
  pub answer : env.post request ≡ response status

sent-injective : {A : Type 0} {a b : A} → sent a ≡ sent b → a ≡ b
sent-injective same = cc

-- A call that was followed by a return had returned.
record Returned {A B : Type 0} (call : Sending A) (rest : A → Sending B) (b : B) : Type 0 where
  value : A
  returned : call ≡ sent value
  follows : rest value ≡ sent b

bind-sent :
    {A B : Type 0} (call : Sending A) (rest : A → Sending B) {b : B}
    → (call >>= rest) ≡ sent b
    → Returned call rest b
bind-sent (sent a) rest done = record { value = a; returned = refl; follows = done }
bind-sent (permanent e) rest done = cc
bind-sent (transient e) rest done = cc
bind-sent raised rest done = cc

require-sent :
    (test : Bool) (e : DeliveryError) {u : Unit {0}} → require test e ≡ sent u → test ≡ true
require-sent true e done = refl
require-sent false e done = cc

all_global-sent :
    (rows : List Address) {u : Unit {0}}
    → all_global rows ≡ sent u
    → All (λ row. row ≡ address true) rows
unfolding all_global
all_global-sent [] done = tt
all_global-sent (no_address ∷ rows) done = cc
all_global-sent (address is_global ∷ rows) done =
    let test = bind-sent (require is_global DeliveryError.private_address) _ done in
    (ap address (require-sent is_global _ test.returned), all_global-sent rows test.follows)

resolved-sent :
    (found : Option (List Address)) {rows : List Address}
    → resolved found ≡ sent rows
    → (found ≡ some rows) × (rows ≢ [])
unfolding resolved
resolved-sent none done = cc
resolved-sent (some []) done = cc
resolved-sent (some (row ∷ rows)) done =
    (ap some (sent-injective done), λ empty. cc (sent-injective done ∙ empty))

validate_addresses-IsPublic :
    (env : Environment) (hostname : Text) {u : Unit {0}}
    → validate_addresses env hostname ≡ sent u
    → env.allow_private_networks ≡ false
    → IsPublic env hostname
unfolding validate_addresses
validate_addresses-IsPublic env hostname done strict =
    let look = bind-sent (resolved (env.getaddrinfo hostname)) all_global (rw strict at done) in
    let (found, some_row) = resolved-sent (env.getaddrinfo hostname) look.returned in
    record {
      rows = look.value;
      found = found;
      some_row = some_row;
      global = all_global-sent look.value look.follows;
    }

port_of-sent : (url : Url) {port : Option ℕ} → port_of url ≡ sent port → url.port ≡ some port
port_of-sent url done = elim (Option-cases url.port) [
  | inl missing ↦ cc (rw missing at done)
  | inr (port, given) ↦ given ∙ ap some (sent-injective (rw given at done))
]

validate_url-IsAllowed :
    (env : Environment) (url : Url) {u : Unit {0}}
    → validate_url env url ≡ sent u
    → IsAllowed env url
unfolding validate_url
validate_url-IsAllowed env url done =
    let scheme =
      bind-sent (require (text_eq (lower url.scheme) https && is_given url.hostname) _) _ done in
    let https_host = require-sent _ _ scheme.returned in
    let read = bind-sent (port_of url) _ scheme.follows in
    let plain = bind-sent (require (is_plain url read.value) _) _ read.follows in
    let allowed = require-sent (is_plain url read.value) _ plain.returned in
    record {
      secure = ground (arith, https_host);
      named = ground (arith, https_host);
      port = read.value;
      parsed = port_of-sent url read.returned;
      default = ground (arith, allowed);
      no_user = ground (arith, allowed);
      no_password = ground (arith, allowed);
      no_fragment = ground (arith, allowed);
      public = validate_addresses-IsPublic env url.hostname plain.follows;
    }

parts_of-sent : (found : Option Url) {url : Url} → parts_of found ≡ sent url → found ≡ some url
parts_of-sent none done = cc
parts_of-sent (some url) done = ap some (sent-injective done)

module _ (env : Environment) where
  response_of-sent :
      (answer : PostResult) {status : ℕ}
      → response_of env answer ≡ sent status
      → answer ≡ response status
  response_of-sent transport_error done = cc
  response_of-sent other_error done = cc
  response_of-sent (response status) done = ap response (sent-injective done)

  -- The secret is the value in the process environment, and not empty.
  signing_secret-named :
      (name : Text) {secret : Option Text}
      → signing_secret env (some name) ≡ sent secret
      → (is_given (env.environ name) ≡ true) × (some (env.environ name) ≡ secret)
  unfolding signing_secret
  signing_secret-named name done = elim (Bool-cases (is_given (env.environ name))) [
    | inl given ↦ (given, sent-injective (rw given at done))
    | inr missing ↦ cc (rw missing at done)
  ]

  signing_secret-unnamed :
      {secret : Option Text} → signing_secret env none ≡ sent secret → none ≡ secret
  unfolding signing_secret
  signing_secret-unnamed done = sent-injective done

request_for-IsSigned :
    (env : Environment) (config : WebhookConfig) (d : Delivery) (secret : Option Text)
    → signing_secret env config.signing_secret_name ≡ sent secret
    → IsSigned env config (request_for env config d secret)
unfolding request_for
request_for-IsSigned env config d secret done = record {
  signed = λ name named.
      (let (given, same) =
          signing_secret-named env name
            (subst (λ n. signing_secret env n ≡ sent secret) named done) in
        (given, ap (λ k. signature_of env k (env.json_body d)) (sym same)));
  unsigned = λ unnamed.
      ap (λ k. signature_of env k (env.json_body d))
        (sym (
          signing_secret-unnamed env
            (subst (λ n. signing_secret env n ≡ sent secret) unnamed done)));
}

-- A delivery that the sender reports as sent was posted to the URL of its configuration, with the
-- signature that the configuration asks for. Its scheme is https, on the default port, without
-- credentials or a fragment; and unless private networks are allowed its host resolved, to global
-- addresses only.
pub send-Posted :
    (env : Environment) (config : WebhookConfig) (d : Delivery) (status : ℕ)
    → send env config d ≡ sent status
    → Posted env config d status
unfolding send validate_destination
send-Posted env config d status done =
    let valid = bind-sent (validate_destination env config.endpoint_url) _ done in
    let parts =
      bind-sent (parts_of (env.urlsplit config.endpoint_url)) (validate_url env) valid.returned in
    let key = bind-sent (signing_secret env config.signing_secret_name) _ valid.follows in
    record {
      url = parts.value;
      split = parts_of-sent (env.urlsplit config.endpoint_url) parts.returned;
      allowed = validate_url-IsAllowed env parts.value parts.follows;
      request = request_for env config d key.value;
      same_url = refl;
      same_delivery = refl;
      same_body = refl;
      signature = request_for-IsSigned env config d key.value key.returned;
      answer = response_of-sent env _ key.follows;
    }
