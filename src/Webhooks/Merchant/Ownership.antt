-- ===== src/Webhooks/Merchant/Ownership.antt =====
-- Whose endpoints and deliveries a merchant can change.
use facilpay_api.Common.{ℕ, ◌≡◌, ◌≢◌, some, arith}
use facilpay_api.Common.Action.{err, forbidden}
use facilpay_api.Webhooks.Merchant.Entities.{Payload, WebhookEndpoint, WebhookDelivery}
use facilpay_api.Webhooks.Merchant.State.{Hooks, State}
use facilpay_api.Webhooks.Merchant.Failures.{find_owned, reenable_endpoint}
use facilpay_api.Webhooks.Merchant.Dispatch.{send_test}
use facilpay_api.Webhooks.Merchant.Endpoints.{
  UpdateWebhookEndpointDto, update, remove, rotate_secret, retry_failed_delivery,
}
use facilpay_api.Webhooks.Merchant.Replay.{ReplayWebhooksDto, replay_events}

module _ {db : Hooks} where
  find_owned_foreign :
      (id merchant : ℕ) (endpoint : WebhookEndpoint) (s : State db)
      → db.endpoints.find_one id s.tables.endpoints ≡ some endpoint
      → endpoint.merchant_id ≢ merchant
      → find_owned id merchant s ≡ (err forbidden, s)
  unfolding find_owned
  find_owned_foreign id merchant endpoint s found other = ground (arith, found, other)

  -- A merchant who does not own an endpoint is refused whatever it asks for that endpoint, and nothing
  -- changes: an update, its removal, a new secret, its re-enabling, a test, a replay of its deliveries.
  pub foreign_refused :
      (id merchant : ℕ) (endpoint : WebhookEndpoint) (s : State db)
      → db.endpoints.find_one id s.tables.endpoints ≡ some endpoint
      → endpoint.merchant_id ≢ merchant
      → (dto : UpdateWebhookEndpointDto) (secret new new_job now : ℕ) (payload : Payload)
        (window : ReplayWebhooksDto)
      → (update id dto merchant s ≡ (err forbidden, s))
        × (remove id merchant s ≡ (err forbidden, s))
        × (rotate_secret secret id merchant s ≡ (err forbidden, s))
        × (reenable_endpoint id merchant s ≡ (err forbidden, s))
        × (send_test new now payload id merchant s ≡ (err forbidden, s))
        × (replay_events new_job new now id merchant window s ≡ (err forbidden, s))
  unfolding update remove rotate_secret reenable_endpoint send_test replay_events
  foreign_refused id merchant endpoint s found other dto secret new new_job now payload window =
      let refused = find_owned_foreign id merchant endpoint s found other in
      (
        ground (arith, refused),
        ground (arith, refused),
        ground (arith, refused),
        ground (arith, refused),
        ground (arith, refused),
        ground (arith, refused),
      )

  -- The same for the retry of a delivery to such an endpoint, and for the progress of a replay.
  retry_refused :
      (id merchant : ℕ) (d : WebhookDelivery) (endpoint : WebhookEndpoint) (s : State db)
      → db.deliveries.find_one id s.tables.deliveries ≡ some d
      → db.endpoints.find_one d.endpoint_id s.tables.endpoints ≡ some endpoint
      → endpoint.merchant_id ≢ merchant
      → retry_failed_delivery id merchant s ≡ (err forbidden, s)
  unfolding retry_failed_delivery
  retry_refused id merchant d endpoint s found joined other = ground (arith, found, joined, other)
