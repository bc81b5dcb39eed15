-- ===== src/Webhooks/Merchant/Failures.antt =====
-- modules/webhooks/webhooks.service.ts: recordDeliveryFailure, recordDeliverySuccess,
-- notifyEndpointDisabled and reenableEndpoint. The threshold and the window in hours are those of the
-- configuration.
use facilpay_api.Common.{
  ℕ, ◌+◌, ◌*◌, Bool, true, false, not, ◌&&◌, Option, none, some, [], ◌∷◌, ltb, leb, ◌==◌,
  if◌then◌else◌, is_some, ⊤,
}
use facilpay_api.Common.Action.{
  Result, ok, not_found, forbidden, ◌>>=◌, ◌>>◌, pure, or_throw, throw_if,
}
use facilpay_api.Webhooks.Merchant.Entities.{WebhookEndpoint}
use facilpay_api.Webhooks.Merchant.State.{Hooks, State, Sent, save_endpoint, emit}

pub record Policy : Type 0 where
  pub disable_failure_threshold : ℕ
  pub disable_time_window_hours : ℕ
  -- the text 'too_many_failures'
  pub too_many_failures : ℕ

-- `hoursSinceLastFailure > disableTimeWindowHours`; a first failure counts as late.
unfoldable pub is_late : Policy → ℕ → Option ℕ → Bool
is_late policy now none = true
is_late policy now (some at) = ltb (at + policy.disable_time_window_hours * 60 * 60 * 1000) now

-- The endpoint with one more failure.
unfoldable pub counted : Policy → ℕ → WebhookEndpoint → WebhookEndpoint
counted policy now endpoint = record endpoint {
  consecutive_failures =
      (if is_late policy now endpoint.last_failure_at then 0 else endpoint.consecutive_failures)
      + 1;
  last_failure_at = some now;
}

unfoldable pub is_disabling : Policy → ℕ → WebhookEndpoint → Bool
is_disabling policy now endpoint =
    leb policy.disable_failure_threshold (counted policy now endpoint).consecutive_failures
    && not (is_late policy now endpoint.last_failure_at)

unfoldable pub failed_endpoint : Policy → ℕ → WebhookEndpoint → WebhookEndpoint
failed_endpoint policy now endpoint =
    if is_disabling policy now endpoint
    then record (counted policy now endpoint) {
      is_active = false;
      disabled_reason = some policy.too_many_failures;
    }
    else counted policy now endpoint

abbrev pub recovered : WebhookEndpoint → WebhookEndpoint
recovered endpoint = record endpoint { consecutive_failures = 0; last_failure_at = none }

unfoldable pub reenabled : WebhookEndpoint → WebhookEndpoint
reenabled endpoint = record endpoint {
  is_active = true;
  disabled_reason = none;
  consecutive_failures = 0;
  last_failure_at = none;
}

module _ {db : Hooks} where
  -- The mail goes out if the user is found and has an address; what is thrown there is logged.
  unfoldable pub notify_endpoint_disabled : WebhookEndpoint → State db → Result ⊤ × State db
  notify_endpoint_disabled endpoint =
      emit (Sent.disabled_mail endpoint.merchant_id endpoint.id endpoint.consecutive_failures ∷ [])

  unfoldable pub count_failure : Policy → ℕ → WebhookEndpoint → State db → Result ⊤ × State db
  count_failure policy now endpoint = do
    if is_disabling policy now endpoint
        then notify_endpoint_disabled (failed_endpoint policy now endpoint)
        else pure tt
    save_endpoint (failed_endpoint policy now endpoint)

  unfoldable pub record_delivery_failure : Policy → ℕ → ℕ → State db → Result ⊤ × State db
  record_delivery_failure policy now id s = elim (db.endpoints.find_one id s.tables.endpoints) [
    | none ↦ (ok tt, s)
    | some endpoint ↦ if endpoint.is_active then count_failure policy now endpoint s else (ok tt, s)
  ]

  unfoldable pub record_delivery_success : ℕ → State db → Result ⊤ × State db
  record_delivery_success id s = elim (db.endpoints.find_one id s.tables.endpoints) [
    | none ↦ (ok tt, s)
    | some endpoint ↦ save_endpoint (recovered endpoint) s
  ]

  unfoldable pub find_owned : ℕ → ℕ → State db → Result WebhookEndpoint × State db
  find_owned id merchant_id = do
    endpoint ← λ s. or_throw (db.endpoints.find_one id s.tables.endpoints) not_found s
    throw_if (not (endpoint.merchant_id == merchant_id)) forbidden
    pure endpoint

  unfoldable pub reenable : WebhookEndpoint → State db → Result WebhookEndpoint × State db
  reenable endpoint =
      if endpoint.is_active && not (is_some endpoint.disabled_reason)
      then pure endpoint
      else save_endpoint (reenabled endpoint) >> pure (reenabled endpoint)

  unfoldable pub reenable_endpoint : ℕ → ℕ → State db → Result WebhookEndpoint × State db
  reenable_endpoint id merchant_id = find_owned id merchant_id >>= reenable
