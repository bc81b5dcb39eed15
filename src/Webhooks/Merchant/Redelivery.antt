-- ===== src/Webhooks/Merchant/Redelivery.antt =====
-- A delivery that succeeded and is made again.
use facilpay_api.Common.{ℕ, ◌≡◌, refl, true, some, [], ◌∷◌, arith, if◌then◌else◌}
use facilpay_api.Common.Action.{err, failure}
use facilpay_api.Webhooks.Merchant.Entities.{
  WebhookEndpoint, WebhookDelivery, WebhookDeliveryStatus,
}
use facilpay_api.Webhooks.Merchant.State.{Hooks, State}
use facilpay_api.Webhooks.Merchant.Failures.{
  Policy, failed_endpoint, count_failure, record_delivery_failure, notify_endpoint_disabled,
}
use facilpay_api.Webhooks.Merchant.Processor.{
  Job, accepted, Outside, is_last, undelivered, accept, retry_later, post, process,
}

module _ {db : Hooks} where
  -- When the endpoint accepts a request, but the write that stores this fails and no other one does, the
  -- attempt throws, so that the queue makes it again: the delivery is stored as failed, or dead on
  -- the last attempt, and the active endpoint is charged with a failure.
  process_unsaved :
      (policy : Policy) (outside : Outside) (job : Job) (code : ℕ) (d : WebhookDelivery)
      (endpoint : WebhookEndpoint) (s : State db)
      → outside.answer ≡ accepted code
      → s.faults ≡ true ∷ []
      → db.deliveries.find_one job.delivery_id s.tables.deliveries ≡ some d
      → db.endpoints.find_one job.endpoint_id s.tables.endpoints ≡ some endpoint
      → endpoint.is_active ≡ true
      → let after = process policy outside job s in
        (after.0 ≡ err failure)
        × (after.1.tables.deliveries
            ≡ db.deliveries.save (undelivered outside job d) s.tables.deliveries)
        × ((undelivered outside job d).status ≡ (
            if is_last job
            then WebhookDeliveryStatus.dead_letter
            else WebhookDeliveryStatus.failed))
        × (after.1.tables.endpoints
            ≡ db.endpoints.save (failed_endpoint policy outside.now endpoint) s.tables.endpoints)
  unfolding process post accept retry_later record_delivery_failure count_failure
      notify_endpoint_disabled undelivered
  process_unsaved policy outside job code d endpoint s accepts fault here there on = (
    ground (arith, accepts, fault, here, there, on),
    ground (arith, accepts, fault, here, there, on),
    refl,
    ground (arith, accepts, fault, here, there, on),
  )
