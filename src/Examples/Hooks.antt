-- ===== src/Examples/Hooks.antt =====
-- The theorems on merchant webhooks at concrete tables.
use facilpay_api.Common.{
  ℕ, ◌≡◌, refl, Bool, true, false, none, some, List, [], ◌∷◌, length, ltb, arith,
}
use facilpay_api.Common.Action.{ok, err, forbidden}
use facilpay_api.Repository.Rows.{rows}
use facilpay_api.Webhooks.Merchant.Entities.{
  Payload, WebhookEndpoint, WebhookDelivery, WebhookDeliveryStatus, WebhookReplay,
  WebhookReplayStatus,
}
use facilpay_api.Webhooks.Merchant.State.{Hooks, State}
use facilpay_api.Webhooks.Merchant.Failures.{Policy, reenable_endpoint}
use facilpay_api.Webhooks.Merchant.Dispatch.{send_test}
use facilpay_api.Webhooks.Merchant.Endpoints.{
  UpdateWebhookEndpointDto, update, remove, rotate_secret,
}
use facilpay_api.Webhooks.Merchant.Replay.{
  ReplayWebhooksDto, ReplayProgress, of_row, replay_events, progress, count_status,
  get_replay_progress,
}
use facilpay_api.Webhooks.Merchant.Processor.{Job, accepted, Outside}
use facilpay_api.Webhooks.Merchant.Ownership.{foreign_refused}
use facilpay_api.Webhooks.Merchant.Disabled.{failures, failures-is_active}

abbrev hooks : Hooks
hooks = record {
  endpoints = rows (λ r. r.id);
  deliveries = rows (λ r. r.id);
  replays = rows (λ r. r.id);
}

abbrev endpoint : WebhookEndpoint
endpoint = record {
  id = 1;
  merchant_id = 5;
  url = 30;
  events = 7 ∷ [];
  is_active = true;
  secret = 31;
  consecutive_failures = 0;
  last_failure_at = none;
  disabled_reason = none;
}

abbrev payload : Payload
payload = record { event = 7; timestamp = 10; content = 0; event_id = none }

abbrev delivery : WebhookDelivery
delivery = record {
  id = 2;
  endpoint_id = 1;
  replay_id = some 4;
  payload = payload;
  status = WebhookDeliveryStatus.failed;
  attempts = 0;
  last_attempt_at = none;
  last_response_code = none;
  last_error = none;
  created_at = 10;
}

abbrev replay : WebhookReplay
replay = record {
  id = 4;
  endpoint_id = 1;
  merchant_id = 5;
  total_events = 1;
  status = WebhookReplayStatus.processing;
  failure_reason = none;
}

abbrev state : List Bool → State hooks
state faults = record {
  tables = record { endpoints = endpoint ∷ []; deliveries = delivery ∷ []; replays = replay ∷ [] };
  outbox = [];
  faults = faults;
}

abbrev policy : Policy
policy = record {
  disable_failure_threshold = 3;
  disable_time_window_hours = 24;
  too_many_failures = 0;
}

abbrev disable : UpdateWebhookEndpointDto
disable = record { url = none; events = none; is_active = some false }

abbrev window : ReplayWebhooksDto
window = record { from = 0; to = 50; event_types = none }

foreign_refused_example :
    (update {db = hooks} 1 disable 6 (state []) ≡ (err forbidden, state []))
    × (remove {db = hooks} 1 6 (state []) ≡ (err forbidden, state []))
    × (rotate_secret {db = hooks} 9 1 6 (state []) ≡ (err forbidden, state []))
    × (reenable_endpoint {db = hooks} 1 6 (state []) ≡ (err forbidden, state []))
    × (send_test {db = hooks} 8 60 payload 1 6 (state []) ≡ (err forbidden, state []))
    × (replay_events {db = hooks} 11 8 60 1 6 window (state []) ≡ (err forbidden, state []))
foreign_refused_example =
    foreign_refused {db = hooks} 1 6 endpoint (state []) refl (omega arith) disable 9 8 11 60
      payload window

abbrev later : List ℕ
later = 3601000 ∷ 7201000 ∷ []

-- Three failures, an hour apart.
failures-is_active_example :
    (after : WebhookEndpoint) × (hooks.endpoints.find_one 1
        (failures {db = hooks} policy 1 (1000 ∷ later) (state [])).tables.endpoints
      ≡ some after)
    × (after.is_active ≡ ltb (length (1000 ∷ later)) 3)
failures-is_active_example =
    failures-is_active {db = hooks} policy 1 1000 later endpoint (state []) refl (omega arith) refl
      refl refl (omega arith)

abbrev job : Job
job = record {
  delivery_id = 2;
  endpoint_id = 1;
  payload = payload;
  attempts_made = 0;
  attempts = some 6;
}

abbrev outside : Outside
outside = record {
  now = 100;
  answer = accepted 200;
  hmac = λ secret content. secret;
  endpoint_not_found = 0;
  message = 1;
}

-- The only delivery failed, and the replay is still called processing.
abbrev shown : ReplayProgress
shown = record {
  job_id = 4;
  status = of_row WebhookReplayStatus.processing;
  total = 1;
  pending = 0;
  succeeded = 0;
  failed = 1;
}

shows : (get_replay_progress {db = hooks} 4 5 (state [])).0 ≡ ok shown
unfolding get_replay_progress progress count_status
shows = refl
