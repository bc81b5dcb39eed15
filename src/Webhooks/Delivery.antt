-- ===== src/Webhooks/Delivery.antt =====
-- modules/payments/webhook-delivery.service.ts and webhook-delivery.entity.ts: the delivery of a
-- payment's state to its callback address, with retries. The answer of the HTTP call is an argument,
-- and so is whether the write that ends an attempt throws.
use facilpay_api.Common.{
  ℕ, zero, suc, ◌+◌, ◌-◌, Bool, true, false, ◌&&◌, ◌||◌, Option, none, some, List, [], ◌∷◌, leb,
  if◌then◌else◌, take, ⊤,
}
use facilpay_api.Common.Action.{Result, ok, err, failure}
use facilpay_api.Common.Int.{ℤ}
use facilpay_api.Repository.{Repository}
use facilpay_api.Model.Entities.{PaymentStatus, Payment}
pub mod Laws
pub mod Attempts

pub data WebhookDeliveryStatus : Type 0 where
  pending delivered failed dead : WebhookDeliveryStatus

pub record Payload : Type 0 where
  pub payment_id : ℕ
  pub status : PaymentStatus
  pub amount : ℤ
  pub currency : ℕ
  pub external_reference : Option ℕ
  pub updated_at : ℕ

pub record WebhookDelivery : Type 0 where
  pub id : ℕ
  pub payment_id : ℕ
  pub callback_url : ℕ
  pub payload : Payload
  pub status : WebhookDeliveryStatus
  pub attempt_count : ℕ
  pub last_attempt_at : Option ℕ
  pub next_retry_at : Option ℕ
  pub last_status_code : Option ℕ
  pub last_error : Option (List ℕ)

abbrev pub max_attempts : ℕ
max_attempts = 5

abbrev pub backoff_delays_ms : List ℕ
backoff_delays_ms = 60000 ∷ 300000 ∷ 1800000 ∷ 7200000 ∷ []

-- `list[i]`: undefined where there is none
abbrev pub get_elem? : List ℕ → ℕ → Option ℕ
get_elem? [] i = none
get_elem? (x ∷ xs) zero = some x
get_elem? (x ∷ xs) (suc i) = get_elem? xs i

-- What the call of `httpService.post` gives: a status, or an error with a status, if the server
-- answered, and a message.
pub data Answer : Type 0 where
  responded : ℕ → Answer
  rejected : Option ℕ → List ℕ → Answer

abbrev pub is_open : WebhookDeliveryStatus → Bool
is_open WebhookDeliveryStatus.pending = true
is_open WebhookDeliveryStatus.failed = true
is_open _ = false

-- `new Date(now.getTime() + undefined)` is no date, which the column takes for none.
abbrev pub retry_at : ℕ → Option ℕ → Option ℕ
retry_at now none = none
retry_at now (some delay) = some (now + delay)

-- The entity after each of the three branches.
pub delivered_by : ℕ → ℕ → WebhookDelivery → WebhookDelivery
delivered_by now code delivery = record delivery {
  last_attempt_at = some now;
  attempt_count = delivery.attempt_count + 1;
  status = WebhookDeliveryStatus.delivered;
  last_status_code = some code;
  next_retry_at = none;
}

pub given_up : ℕ → Option ℕ → List ℕ → WebhookDelivery → WebhookDelivery
given_up now code message delivery = record delivery {
  last_attempt_at = some now;
  attempt_count = delivery.attempt_count + 1;
  last_status_code = code;
  last_error = some (take 500 message);
  status = WebhookDeliveryStatus.dead;
  next_retry_at = none;
}

-- The index is `attemptCount - 1`, after the count went up.
pub rescheduled : ℕ → Option ℕ → List ℕ → WebhookDelivery → WebhookDelivery
rescheduled now code message delivery = record delivery {
  last_attempt_at = some now;
  attempt_count = delivery.attempt_count + 1;
  last_status_code = code;
  last_error = some (take 500 message);
  status = WebhookDeliveryStatus.failed;
  next_retry_at = retry_at now (get_elem? backoff_delays_ms (delivery.attempt_count + 1 - 1));
}

-- The entity after an attempt.
pub attempted : ℕ → Answer → WebhookDelivery → WebhookDelivery
attempted now (responded code) delivery = delivered_by now code delivery
attempted now (rejected code message) delivery =
    if leb max_attempts (delivery.attempt_count + 1)
    then given_up now code message delivery
    else rescheduled now code message delivery

pub new_delivery : ℕ → ℕ → ℕ → Payment → WebhookDelivery
new_delivery new now url payment = record {
  id = new;
  payment_id = payment.id;
  callback_url = url;
  payload = record {
    payment_id = payment.id;
    status = payment.status;
    amount = payment.amount;
    currency = payment.currency;
    external_reference = payment.external_reference;
    updated_at = payment.updated_at;
  };
  status = WebhookDeliveryStatus.pending;
  attempt_count = 0;
  last_attempt_at = none;
  next_retry_at = some now;
  last_status_code = none;
  last_error = none;
}

abbrev pub is_due : ℕ → WebhookDelivery → Bool
is_due now delivery =
    is_open delivery.status && elim delivery.next_retry_at [ none ↦ false | some at ↦ leb at now ]

module _ (repo : Repository WebhookDelivery (λ r. r.id)) where
  -- `new` is the identifier that the database gives the row.
  pub enqueue : ℕ → ℕ → Payment → repo.Table → repo.Table
  enqueue new now payment t = elim payment.callback_url [
    | none ↦ t
    | some url ↦ repo.save (new_delivery new now url payment) t
  ]

  unfoldable pub attempt : ℕ → Answer → Bool → WebhookDelivery → repo.Table → Result ⊤ × repo.Table
  attempt now answer fails delivery t =
      if fails then (err failure, t) else (ok tt, repo.save (attempted now answer delivery) t)

  unfoldable pub find_due : ℕ → repo.Table → List WebhookDelivery
  find_due now t = repo.find (is_due now) t
