-- ===== src/Webhooks/Merchant/Disabled.antt =====
-- When an endpoint is disabled for its failures.
use facilpay_api.Common.{
  ℕ, ◌+◌, ◌*◌, ◌≤◌, ◌<◌, ◌≡◌, refl, ◌∙◌, ap, inl, inr, true, false, none, some, List, [], ◌∷◌, ltb,
  length, arith, Bool-cases,
}
use mathlib.Core.Path.{subst}
use facilpay_api.Repository.{find_one-saved}
use facilpay_api.Webhooks.Merchant.Entities.{WebhookEndpoint}
use facilpay_api.Webhooks.Merchant.State.{Hooks, State}
use facilpay_api.Webhooks.Merchant.Failures.{
  Policy, is_late, counted, is_disabling, failed_endpoint, notify_endpoint_disabled, count_failure,
  record_delivery_failure,
}

-- Each failure comes within the window after the one before it.
abbrev pub IsDense : Policy → ℕ → List ℕ → Type 0
IsDense policy last [] = Unit
IsDense policy last (t ∷ ts) =
    (t ≤ last + policy.disable_time_window_hours * 60 * 60 * 1000) × IsDense policy t ts

-- One more failure within the window.
failed_endpoint_dense :
    (policy : Policy) (t last : ℕ) (endpoint : WebhookEndpoint)
    → endpoint.last_failure_at ≡ some last
    → t ≤ last + policy.disable_time_window_hours * 60 * 60 * 1000
    → endpoint.is_active ≡ true
    → let after = failed_endpoint policy t endpoint in
      (after.id ≡ endpoint.id)
      × (after.consecutive_failures ≡ endpoint.consecutive_failures + 1)
      × (after.last_failure_at ≡ some t)
      × (after.is_active ≡ ltb (endpoint.consecutive_failures + 1) policy.disable_failure_threshold)
unfolding failed_endpoint is_disabling counted is_late
failed_endpoint_dense policy t last endpoint has dense on =
    (ground (arith, has), ground (arith, has), ground (arith, has), ground (arith, has, on))

-- The first failure of a series.
failed_endpoint_first :
    (policy : Policy) (t : ℕ) (endpoint : WebhookEndpoint)
    → endpoint.last_failure_at ≡ none
    → endpoint.is_active ≡ true
    → let after = failed_endpoint policy t endpoint in
      (after.id ≡ endpoint.id)
      × (after.consecutive_failures ≡ 1)
      × (after.last_failure_at ≡ some t)
      × (after.is_active ≡ true)
unfolding failed_endpoint is_disabling counted is_late
failed_endpoint_first policy t endpoint has on =
    (ground (arith, has), ground (arith, has), ground (arith, has), ground (arith, has, on))

module _ {db : Hooks} (policy : Policy) (id : ℕ) where
  -- Failures of deliveries to the endpoint, at these times.
  pub failures : List ℕ → State db → State db
  failures [] s = s
  failures (t ∷ ts) s = failures ts (record_delivery_failure policy t id s).1

  failures_inactive :
      (ts : List ℕ) (endpoint : WebhookEndpoint) (s : State db)
      → db.endpoints.find_one id s.tables.endpoints ≡ some endpoint
      → endpoint.is_active ≡ false
      → failures ts s ≡ s
  unfolding failures record_delivery_failure
  failures_inactive [] endpoint s found off = refl
  failures_inactive (t ∷ ts) endpoint s found off =
      ground (arith, found, off, failures_inactive ts endpoint s found off)

  record_delivery_failure_saved :
      (now : ℕ) (endpoint : WebhookEndpoint) (s : State db)
      → s.faults ≡ []
      → db.endpoints.find_one id s.tables.endpoints ≡ some endpoint
      → endpoint.is_active ≡ true
      → ((record_delivery_failure policy now id s).1.tables.endpoints
          ≡ db.endpoints.save (failed_endpoint policy now endpoint) s.tables.endpoints)
        × ((record_delivery_failure policy now id s).1.faults ≡ [])
  unfolding record_delivery_failure count_failure notify_endpoint_disabled
  record_delivery_failure_saved now endpoint s calm found on = ground (arith, calm, found, on)

  stored_failure :
      (t : ℕ) (endpoint : WebhookEndpoint) (s : State db)
      → s.faults ≡ []
      → db.endpoints.find_one id s.tables.endpoints ≡ some endpoint
      → endpoint.is_active ≡ true
      → (failed_endpoint policy t endpoint).id ≡ endpoint.id
      → db.endpoints.find_one id (record_delivery_failure policy t id s).1.tables.endpoints
        ≡ some (failed_endpoint policy t endpoint)
  stored_failure t endpoint s calm found on same =
      let key = db.endpoints.key-find_one id s.tables.endpoints endpoint found in
      let after = failed_endpoint policy t endpoint in
      let saved = find_one-saved db.endpoints after s.tables.endpoints in
      ap (db.endpoints.find_one id) (record_delivery_failure_saved t endpoint s calm found on).0
      ∙ subst
          (λ k. db.endpoints.find_one k (db.endpoints.save after s.tables.endpoints) ≡ some after)
          (same ∙ key) saved

  failures-active :
      (ts : List ℕ) (last : ℕ) (endpoint : WebhookEndpoint) (s : State db)
      → s.faults ≡ []
      → db.endpoints.find_one id s.tables.endpoints ≡ some endpoint
      → endpoint.is_active ≡ true
      → endpoint.last_failure_at ≡ some last
      → endpoint.consecutive_failures < policy.disable_failure_threshold
      → IsDense policy last ts
      → (after : WebhookEndpoint) × (db.endpoints.find_one id (failures ts s).tables.endpoints
          ≡ some after)
        × (after.is_active
            ≡ ltb (endpoint.consecutive_failures + length ts) policy.disable_failure_threshold)
  unfolding failures
  failures-active [] last endpoint s calm found on has few dense =
      (endpoint, found, ground (arith, on, few))
  failures-active (t ∷ ts) last endpoint s calm found on has few dense =
      let after = failed_endpoint policy t endpoint in
      let (same, count, at, active) = failed_endpoint_dense policy t last endpoint has dense.0 on in
      let s' = (record_delivery_failure policy t id s).1 in
      let found' = stored_failure t endpoint s calm found on same in
      elim (Bool-cases (ltb (endpoint.consecutive_failures + 1) policy.disable_failure_threshold)) [
        | inl below ↦
            let (e, there, on') =
              failures-active ts t after s'
                (record_delivery_failure_saved t endpoint s calm found on).1 found' (active ∙ below)
                at (ground (arith, count, below)) dense.1 in
            (e, there, ground (arith, count, on'))
        | inr reached ↦ (
          after,
          rw (failures_inactive ts after s' found' (active ∙ reached)) found',
          ground (arith, active, reached),
        )
      ]

  -- An active endpoint whose failures are cleared, as after its re-enabling or a success, is still active
  -- after a series of failures, each within the window after the one before it, exactly when the series
  -- is shorter than the threshold; the threshold is at least two, and no write fails.
  pub failures-is_active :
      (t : ℕ) (ts : List ℕ) (endpoint : WebhookEndpoint) (s : State db)
      → s.faults ≡ []
      → 2 ≤ policy.disable_failure_threshold
      → db.endpoints.find_one id s.tables.endpoints ≡ some endpoint
      → endpoint.is_active ≡ true
      → endpoint.last_failure_at ≡ none
      → IsDense policy t ts
      → (after : WebhookEndpoint) × (db.endpoints.find_one id (failures (t ∷ ts) s).tables.endpoints
          ≡ some after)
        × (after.is_active ≡ ltb (length (t ∷ ts)) policy.disable_failure_threshold)
  unfolding failures
  failures-is_active t ts endpoint s calm two found on cleared dense =
      let (same, count, at, active) = failed_endpoint_first policy t endpoint cleared on in
      let found' = stored_failure t endpoint s calm found on same in
      let (e, there, on') =
        failures-active ts t (failed_endpoint policy t endpoint)
          (record_delivery_failure policy t id s).1
          (record_delivery_failure_saved t endpoint s calm found on).1 found' active at
          (ground (arith, count, two)) dense in
      (e, there, ground (arith, count, on'))
