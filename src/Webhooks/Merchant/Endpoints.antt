-- ===== src/Webhooks/Merchant/Endpoints.antt =====
-- modules/webhooks/webhooks.service.ts: create, update, remove, rotateSecret and retryFailedDelivery. A
-- new secret is given.
use facilpay_api.Common.{ℕ, Bool, true, false, not, Option, none, List, ◌==◌, or_else, ⊤}
use facilpay_api.Common.Action.{
  Result, not_found, forbidden, failure, ◌>>=◌, ◌>>◌, pure, or_throw, throw_if,
}
use facilpay_api.Webhooks.Merchant.Entities.{
  WebhookEndpoint, WebhookDelivery, WebhookDeliveryStatus,
}
use facilpay_api.Webhooks.Merchant.State.{
  Hooks, State, write, save_endpoint, save_delivery, add_job,
}
use facilpay_api.Webhooks.Merchant.Failures.{find_owned}

pub record CreateWebhookEndpointDto : Type 0 where
  pub url : ℕ
  pub events : List ℕ

pub record UpdateWebhookEndpointDto : Type 0 where
  pub url : Option ℕ
  pub events : Option (List ℕ)
  pub is_active : Option Bool

pub new_endpoint : ℕ → ℕ → ℕ → CreateWebhookEndpointDto → WebhookEndpoint
new_endpoint new secret merchant_id dto = record {
  id = new;
  merchant_id = merchant_id;
  url = dto.url;
  events = dto.events;
  is_active = true;
  secret = secret;
  consecutive_failures = 0;
  last_failure_at = none;
  disabled_reason = none;
}

-- `Object.assign(endpoint, dto)`: the failures and the reason stay.
pub assigned : UpdateWebhookEndpointDto → WebhookEndpoint → WebhookEndpoint
assigned dto endpoint = record endpoint {
  url = or_else dto.url endpoint.url;
  events = or_else dto.events endpoint.events;
  is_active = or_else dto.is_active endpoint.is_active;
}

pub is_retriable : WebhookDeliveryStatus → Bool
is_retriable WebhookDeliveryStatus.failed = true
is_retriable WebhookDeliveryStatus.dead_letter = true
is_retriable WebhookDeliveryStatus.pending = false
is_retriable WebhookDeliveryStatus.success = false

abbrev pub waiting : WebhookDelivery → WebhookDelivery
waiting delivery = record delivery { status = WebhookDeliveryStatus.pending }

module _ {db : Hooks} where
  unfoldable pub create :
      ℕ → ℕ → ℕ → CreateWebhookEndpointDto → State db → Result WebhookEndpoint × State db
  create new secret merchant_id dto = do
    save_endpoint (new_endpoint new secret merchant_id dto)
    pure (new_endpoint new secret merchant_id dto)

  unfoldable pub update :
      ℕ → UpdateWebhookEndpointDto → ℕ → State db → Result WebhookEndpoint × State db
  update id dto merchant_id = do
    endpoint ← find_owned id merchant_id
    save_endpoint (assigned dto endpoint)
    pure (assigned dto endpoint)

  -- The deliveries of the endpoint are deleted with it, by the foreign key.
  unfoldable pub remove : ℕ → ℕ → State db → Result ⊤ × State db
  remove id merchant_id = do
    endpoint ← find_owned id merchant_id
    write (λ t. record t {
      endpoints = db.endpoints.delete (λ e. e.id == endpoint.id) t.endpoints;
      deliveries = db.deliveries.delete (λ d. d.endpoint_id == endpoint.id) t.deliveries;
    })

  unfoldable pub rotate_secret : ℕ → ℕ → ℕ → State db → Result WebhookEndpoint × State db
  rotate_secret secret id merchant_id = do
    endpoint ← find_owned id merchant_id
    save_endpoint (record endpoint { secret = secret })
    pure (record endpoint { secret = secret })

  -- A delivery whose endpoint is not joined makes the code throw a TypeError.
  unfoldable pub retry_failed_delivery : ℕ → ℕ → State db → Result ⊤ × State db
  retry_failed_delivery delivery_id merchant_id = do
    delivery ← λ s. or_throw (db.deliveries.find_one delivery_id s.tables.deliveries) not_found s
    endpoint ←
        λ s. or_throw (db.endpoints.find_one delivery.endpoint_id s.tables.endpoints) failure s
    throw_if (not (endpoint.merchant_id == merchant_id)) forbidden
    throw_if (not (is_retriable delivery.status)) forbidden
    save_delivery (waiting delivery)
    add_job delivery.id delivery.endpoint_id delivery.payload
