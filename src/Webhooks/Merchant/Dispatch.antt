-- ===== src/Webhooks/Merchant/Dispatch.antt =====
-- modules/webhooks/webhooks.service.ts: dispatchEventToMerchant, dispatchEventToEndpoint and sendTest.
-- The identifiers of new rows are consecutive from the one that is given.
use facilpay_api.Common.{ℕ, ◌+◌, Bool, ◌&&◌, Option, none, List, [], ◌∷◌, ◌==◌, filter, includes, ⊤}
use facilpay_api.Common.Action.{Result, ◌>>=◌, ◌>>◌, pure, gets}
use facilpay_api.Webhooks.Merchant.Entities.{
  Payload, WebhookEndpoint, WebhookDelivery, WebhookDeliveryStatus,
}
use facilpay_api.Webhooks.Merchant.State.{Hooks, State, save_delivery, add_job}
use facilpay_api.Webhooks.Merchant.Failures.{find_owned}

pub new_delivery : ℕ → ℕ → Option ℕ → ℕ → Payload → WebhookDelivery
new_delivery new now replay_id endpoint_id payload = record {
  id = new;
  endpoint_id = endpoint_id;
  replay_id = replay_id;
  payload = payload;
  status = WebhookDeliveryStatus.pending;
  attempts = 0;
  last_attempt_at = none;
  last_response_code = none;
  last_error = none;
  created_at = now;
}

abbrev pub is_subscribed : ℕ → WebhookEndpoint → Bool
is_subscribed event endpoint = includes event endpoint.events

module _ {db : Hooks} where
  unfoldable pub dispatch_event_to_endpoint :
      ℕ → ℕ → WebhookEndpoint → Payload → State db → Result ⊤ × State db
  dispatch_event_to_endpoint new now endpoint payload = do
    save_delivery (new_delivery new now none endpoint.id payload)
    add_job new endpoint.id payload

  unfoldable pub dispatch_all :
      ℕ → ℕ → Payload → List WebhookEndpoint → State db → Result ⊤ × State db
  dispatch_all new now payload [] = pure tt
  dispatch_all new now payload (endpoint ∷ endpoints) = do
    dispatch_event_to_endpoint new now endpoint payload
    dispatch_all (new + 1) now payload endpoints

  unfoldable pub dispatch_event_to_merchant : ℕ → ℕ → ℕ → Payload → State db → Result ⊤ × State db
  dispatch_event_to_merchant new now merchant_id payload = do
    endpoints ← gets (λ s.
        db.endpoints.find (λ e. (e.merchant_id == merchant_id) && e.is_active) s.tables.endpoints)
    dispatch_all new now payload (filter (is_subscribed payload.event) endpoints)

  -- Whether the endpoint is active is not asked. What is returned is always "queued".
  unfoldable pub send_test : ℕ → ℕ → Payload → ℕ → ℕ → State db → Result ⊤ × State db
  send_test new now payload id merchant_id = do
    endpoint ← find_owned id merchant_id
    dispatch_event_to_endpoint new now endpoint payload
