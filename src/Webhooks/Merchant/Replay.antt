-- ===== src/Webhooks/Merchant/Replay.antt =====
-- modules/webhooks/webhooks.service.ts: replayEvents and getReplayProgress. The two ends of the window
-- are times, if the texts are; the order of the rows is whatever `find` gives.
use facilpay_api.Common.{
  ℕ, ◌+◌, ◌-◌, ◌*◌, Bool, true, false, not, ◌&&◌, ◌||◌, Option, none, some, List, [], ◌∷◌, ltb, leb,
  ◌==◌, if◌then◌else◌, is_empty, is_some, includes, length, take, some_eq, ⊤,
}
use facilpay_api.Common.Action.{
  Result, not_found, bad_request, forbidden, ◌>>=◌, ◌>>◌, pure, or_throw, throw_if, gets,
}
use facilpay_api.Webhooks.Merchant.Entities.{
  WebhookDelivery, WebhookDeliveryStatus, WebhookReplay, WebhookReplayStatus,
}
use facilpay_api.Webhooks.Merchant.State.{Hooks, Tables, State, write, save_delivery, add_job}
use facilpay_api.Webhooks.Merchant.Failures.{find_owned}
use facilpay_api.Webhooks.Merchant.Dispatch.{new_delivery}

pub record ReplayWebhooksDto : Type 0 where
  pub from : ℕ
  pub to : ℕ
  pub event_types : Option (List ℕ)

abbrev pub seven_days : ℕ
seven_days = 7 * 24 * 60 * 60 * 1000

abbrev pub max_events : ℕ
max_events = 10000

-- `eventTypes?.length` and the condition that it adds.
pub is_wanted : Option (List ℕ) → ℕ → Bool
is_wanted none event = true
is_wanted (some types) event = is_empty types || includes event types

-- Deliveries that are replays themselves are left out.
pub is_source : ℕ → ReplayWebhooksDto → WebhookDelivery → Bool
is_source endpoint_id dto d =
    (d.endpoint_id == endpoint_id)
    && leb dto.from d.created_at
    && leb d.created_at dto.to
    && not (is_some d.replay_id)
    && is_wanted dto.event_types d.payload.event

pub new_replay : ℕ → ℕ → ℕ → ℕ → WebhookReplay
new_replay new endpoint_id merchant_id total = record {
  id = new;
  endpoint_id = endpoint_id;
  merchant_id = merchant_id;
  total_events = total;
  status = WebhookReplayStatus.processing;
  failure_reason = none;
}

pub data ReplayState : Type 0 where
  completed : ReplayState
  -- the status of the row
  of_row : WebhookReplayStatus → ReplayState

pub record ReplayProgress : Type 0 where
  pub job_id : ℕ
  pub status : ReplayState
  pub total : ℕ
  pub pending : ℕ
  pub succeeded : ℕ
  pub failed : ℕ

abbrev pub is_status : WebhookDeliveryStatus → WebhookDeliveryStatus → Bool
is_status WebhookDeliveryStatus.pending WebhookDeliveryStatus.pending = true
is_status WebhookDeliveryStatus.success WebhookDeliveryStatus.success = true
is_status WebhookDeliveryStatus.failed WebhookDeliveryStatus.failed = true
is_status WebhookDeliveryStatus.dead_letter WebhookDeliveryStatus.dead_letter = true
is_status _ _ = false

-- `countByStatus.get(status) ?? 0`
unfoldable pub count_status : WebhookDeliveryStatus → List WebhookDelivery → ℕ
count_status status [] = 0
count_status status (d ∷ ds) = (if is_status d.status status then 1 else 0) + count_status status ds

unfoldable pub progress : WebhookReplay → List WebhookDelivery → ReplayProgress
progress replay deliveries =
    let succeeded = count_status WebhookDeliveryStatus.success deliveries in
    let dead_letter = count_status WebhookDeliveryStatus.dead_letter deliveries in
    record {
      job_id = replay.id;
      status =
          (if leb replay.total_events (succeeded + dead_letter)
            then completed
            else of_row replay.status);
      total = replay.total_events;
      pending = count_status WebhookDeliveryStatus.pending deliveries;
      succeeded = succeeded;
      failed = count_status WebhookDeliveryStatus.failed deliveries + dead_letter;
    }

module _ {db : Hooks} where
  -- One delivery for each source, with identifiers from the one that is given.
  unfoldable pub replay_all : ℕ → ℕ → ℕ → ℕ → List WebhookDelivery → State db → Result ⊤ × State db
  replay_all new now replay_id endpoint_id [] = pure tt
  replay_all new now replay_id endpoint_id (source ∷ sources) = do
    save_delivery (new_delivery new now (some replay_id) endpoint_id source.payload)
    add_job new endpoint_id source.payload
    replay_all (new + 1) now replay_id endpoint_id sources

  abbrev pub sources_of : ℕ → ReplayWebhooksDto → Tables db → List WebhookDelivery
  sources_of endpoint_id dto t =
      take (max_events + 1) (db.deliveries.find (is_source endpoint_id dto) t.deliveries)

  unfoldable pub replay_events :
      ℕ → ℕ → ℕ → ℕ → ℕ → ReplayWebhooksDto → State db → Result (ℕ × ℕ) × State db
  replay_events new_job new now endpoint_id merchant_id dto = do
    find_owned endpoint_id merchant_id
    throw_if (ltb dto.to dto.from) bad_request
    throw_if (ltb seven_days (dto.to - dto.from)) bad_request
    sources ← gets (λ s. sources_of endpoint_id dto s.tables)
    throw_if (ltb max_events (length sources)) bad_request
    write (λ t. record t {
      replays =
          db.replays.save (new_replay new_job endpoint_id merchant_id (length sources)) t.replays;
    })
    replay_all new now new_job endpoint_id sources
    pure (new_job, length sources)

  unfoldable pub get_replay_progress : ℕ → ℕ → State db → Result ReplayProgress × State db
  get_replay_progress job_id merchant_id = do
    replay ← λ s. or_throw (db.replays.find_one job_id s.tables.replays) not_found s
    throw_if (not (replay.merchant_id == merchant_id)) forbidden
    gets (λ s.
        progress replay (db.deliveries.find (λ d. some_eq d.replay_id job_id) s.tables.deliveries))
