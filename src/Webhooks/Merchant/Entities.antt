-- ===== src/Webhooks/Merchant/Entities.antt =====
-- modules/webhooks/entities. Texts, and the types of events, are numbers.
use facilpay_api.Common.{ℕ, Bool, Option, List}

pub data WebhookDeliveryStatus : Type 0 where
  pending success failed dead_letter : WebhookDeliveryStatus

-- A payload: its event, its time, its data, and the identifier of the event, if it has one.
pub record Payload : Type 0 where
  pub event : ℕ
  pub timestamp : ℕ
  pub content : ℕ
  pub event_id : Option ℕ

pub record WebhookEndpoint : Type 0 where
  pub id : ℕ
  pub merchant_id : ℕ
  pub url : ℕ
  pub events : List ℕ
  pub is_active : Bool
  pub secret : ℕ
  pub consecutive_failures : ℕ
  pub last_failure_at : Option ℕ
  pub disabled_reason : Option ℕ

pub record WebhookDelivery : Type 0 where
  pub id : ℕ
  pub endpoint_id : ℕ
  pub replay_id : Option ℕ
  pub payload : Payload
  pub status : WebhookDeliveryStatus
  pub attempts : ℕ
  pub last_attempt_at : Option ℕ
  pub last_response_code : Option ℕ
  pub last_error : Option ℕ
  pub created_at : ℕ

pub data WebhookReplayStatus : Type 0 where
  processing failed : WebhookReplayStatus

pub record WebhookReplay : Type 0 where
  pub id : ℕ
  pub endpoint_id : ℕ
  pub merchant_id : ℕ
  pub total_events : ℕ
  pub status : WebhookReplayStatus
  pub failure_reason : Option ℕ
