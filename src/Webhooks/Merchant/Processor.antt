-- ===== src/Webhooks/Merchant/Processor.antt =====
-- modules/webhooks/webhooks.processor.ts: one attempt of a job. The answer of the HTTP call, the HMAC, and
-- the text of the exception that a write throws are given.
use facilpay_api.Common.{ℕ, ◌+◌, Bool, Option, none, some, [], ◌∷◌, leb, if◌then◌else◌, or_else}
use facilpay_api.Common.Action.{Result, ok, err, failure, ◌>>◌, pure, throw}
use facilpay_api.Webhooks.Merchant.Entities.{
  Payload, WebhookEndpoint, WebhookDelivery, WebhookDeliveryStatus,
}
use facilpay_api.Webhooks.Merchant.State.{Hooks, State, Sent, save_delivery, emit}
use facilpay_api.Webhooks.Merchant.Failures.{
  Policy, record_delivery_failure, record_delivery_success,
}

pub record Job : Type 0 where
  pub delivery_id : ℕ
  pub endpoint_id : ℕ
  pub payload : Payload
  pub attempts_made : ℕ
  -- `job.opts.attempts`
  pub attempts : Option ℕ

pub data Answer : Type 0 where
  -- the status code
  accepted : ℕ → Answer
  -- the status code of a response, if there is one, and the message
  refused : Option ℕ → ℕ → Answer

pub record Outside : Type 0 where
  pub now : ℕ
  pub answer : Answer
  pub hmac : ℕ → Payload → ℕ
  -- the text 'Endpoint not found', and the message of a write that throws
  pub endpoint_not_found : ℕ
  pub message : ℕ

abbrev pub attempt_of : Job → ℕ
attempt_of job = job.attempts_made + 1

unfoldable pub is_last : Job → Bool
is_last job = leb (or_else job.attempts 6) (attempt_of job)

unfoldable pub attempted : Outside → Job → WebhookDelivery → WebhookDelivery
attempted outside job d = record d { attempts = attempt_of job; last_attempt_at = some outside.now }

pub orphaned : Outside → Job → WebhookDelivery → WebhookDelivery
orphaned outside job d = record (attempted outside job d) {
  status = WebhookDeliveryStatus.failed;
  last_error = some outside.endpoint_not_found;
}

unfoldable pub delivered : Outside → Job → ℕ → WebhookDelivery → WebhookDelivery
delivered outside job code d = record (attempted outside job d) {
  status = WebhookDeliveryStatus.success;
  last_response_code = some code;
  last_error = none;
}

-- What the catch block reads of the exception: that of the call, or that of a write after it.
unfoldable pub error_code : Answer → Option ℕ
error_code (accepted code) = none
error_code (refused code message) = code

unfoldable pub error_message : Outside → ℕ
error_message outside = elim outside.answer [
  | accepted code ↦ outside.message
  | refused code message ↦ message
]

unfoldable pub undelivered : Outside → Job → WebhookDelivery → WebhookDelivery
undelivered outside job d = record (attempted outside job d) {
  status =
      (if is_last job then WebhookDeliveryStatus.dead_letter else WebhookDeliveryStatus.failed);
  last_response_code = error_code outside.answer;
  last_error = some (error_message outside);
}

module _ {db : Hooks} where
  -- The body of `try`, from the answer on.
  unfoldable pub accept : Outside → Job → WebhookDelivery → State db → Result (Option ℕ) × State db
  accept outside job d = elim outside.answer [
    | refused code message ↦ throw failure
    | accepted code ↦
        save_delivery (delivered outside job code d)
        >> record_delivery_success job.endpoint_id
        >> pure (some code)
  ]

  -- The body of `catch`: it throws in the end, so that the queue tries again.
  unfoldable pub retry_later :
      Policy → Outside → Job → WebhookDelivery → State db → Result (Option ℕ) × State db
  retry_later policy outside job d = do
    record_delivery_failure policy outside.now job.endpoint_id
    save_delivery (undelivered outside job d)
    throw failure

  unfoldable pub post :
      Policy
      → Outside
      → Job
      → WebhookDelivery
      → WebhookEndpoint
      → State db
      → Result (Option ℕ) × State db
  post policy outside job d endpoint s =
      let (_, sent) =
        emit (Sent.request endpoint.url job.payload (outside.hmac endpoint.secret job.payload) ∷ [])
          s in
      let (r, s') = accept outside job d sent in
      elim r [ ok code ↦ (ok code, s') | err e ↦ retry_later policy outside job d s' ]

  -- Whether the endpoint is active is not asked.
  unfoldable pub process : Policy → Outside → Job → State db → Result (Option ℕ) × State db
  process policy outside job s = elim (db.deliveries.find_one job.delivery_id s.tables.deliveries) [
    | none ↦ (ok none, s)
    | some d ↦ elim (db.endpoints.find_one job.endpoint_id s.tables.endpoints) [
      | none ↦ (save_delivery (orphaned outside job d) >> pure none) s
      | some endpoint ↦ post policy outside job d endpoint s
    ]
  ]
