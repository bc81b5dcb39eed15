-- ===== src/Webhooks/Merchant/State.antt =====
-- The tables of the merchant webhooks, and what is sent: jobs to the queue, requests and mails.
use facilpay_api.Common.{ℕ, [], ◌∷◌, ⊤}
use facilpay_api.Common.Action.{Result, ◌>>◌}
pub use facilpay_api.Common.Store.{Store, write, send, emit}
use facilpay_api.Repository.{Repository}
use facilpay_api.Webhooks.Merchant.Entities.{
  Payload, WebhookEndpoint, WebhookDelivery, WebhookReplay,
}

pub data Sent : Type 0 where
  -- a job 'deliver': delivery, endpoint, payload
  job : ℕ → ℕ → Payload → Sent
  -- a POST: address, payload, signature
  request : ℕ → Payload → ℕ → Sent
  -- the mail on a disabled endpoint: merchant, endpoint, failures
  disabled_mail : ℕ → ℕ → ℕ → Sent

pub record Hooks : Type 1 where
  pub endpoints : Repository WebhookEndpoint (λ r. r.id)
  pub deliveries : Repository WebhookDelivery (λ r. r.id)
  pub replays : Repository WebhookReplay (λ r. r.id)

module _ (db : Hooks) where
  pub record Tables : Type 0 where
    pub endpoints : db.endpoints.Table
    pub deliveries : db.deliveries.Table
    pub replays : db.replays.Table

abbrev pub State : Hooks → Type 0
State db = Store (Tables db) Sent

module _ {db : Hooks} where
  abbrev pub save_endpoint : WebhookEndpoint → State db → Result ⊤ × State db
  save_endpoint endpoint =
      write (λ t. record t { endpoints = db.endpoints.save endpoint t.endpoints })

  abbrev pub save_delivery : WebhookDelivery → State db → Result ⊤ × State db
  save_delivery delivery =
      write (λ t. record t { deliveries = db.deliveries.save delivery t.deliveries })

  -- `queue.add`, which throws like a write; the options are those of every job: six attempts, with an
  -- exponential backoff from one second.
  abbrev pub add_job : ℕ → ℕ → Payload → State db → Result ⊤ × State db
  add_job delivery endpoint payload =
      write (λ t. t) >> emit (Sent.job delivery endpoint payload ∷ [])
