-- ===== src/Webhooks/Merchant/Progress.antt =====
-- What a replay takes on, and what its progress counts.
use facilpay_api.Common.{
  ℕ, ◌+◌, ◌≤◌, ◌≡◌, refl, ◌⊎◌, inl, inr, List, [], ◌∷◌, length, arith, Bool-cases, Option-cases,
  some_eq, leb, ◌==◌,
}
use facilpay_api.Common.Action.{ok}
use facilpay_api.Webhooks.Merchant.Entities.{
  WebhookDelivery, WebhookDeliveryStatus, WebhookReplayStatus,
}
use facilpay_api.Webhooks.Merchant.State.{Hooks, State}
use facilpay_api.Webhooks.Merchant.Replay.{
  ReplayProgress, of_row, count_status, progress, get_replay_progress,
}

count_status-sum :
    (ds : List WebhookDelivery)
    → count_status WebhookDeliveryStatus.pending ds
        + count_status WebhookDeliveryStatus.success ds
        + (count_status WebhookDeliveryStatus.failed ds
            + count_status WebhookDeliveryStatus.dead_letter ds)
      ≡ length ds
unfolding count_status
count_status-sum [] = refl
count_status-sum (d ∷ ds) = ground (arith, count_status-sum ds)

module _ {db : Hooks} where
  -- The progress that is returned for a replay counts each of its deliveries once, as pending, succeeded
  -- or failed; and at least as many succeeded or failed as the replay has events, unless the status
  -- that it shows is that of the row.
  get_replay_progress-sum :
      (job_id merchant_id : ℕ) (p : ReplayProgress) (s : State db)
      → (get_replay_progress job_id merchant_id s).0 ≡ ok p
      → (p.pending + p.succeeded + p.failed
          ≡ length (db.deliveries.find (λ d. some_eq d.replay_id job_id) s.tables.deliveries))
        × ((p.total ≤ p.succeeded + p.failed)
            ⊎ ((status : WebhookReplayStatus) × (p.status ≡ of_row status)))
  unfolding get_replay_progress progress
  get_replay_progress-sum job_id merchant_id p s h =
      let ds = db.deliveries.find (λ d. some_eq d.replay_id job_id) s.tables.deliveries in
      elim (Option-cases (db.replays.find_one job_id s.tables.replays)) [
        | inl e ↦ absurd (ground (arith, e, h))
        | inr (replay, e) ↦ elim (Bool-cases (replay.merchant_id == merchant_id)) [
          | inr other ↦ absurd (ground (arith, e, other, h))
          | inl own ↦
              let is_progress : p ≡ progress replay ds = ground (arith, e, own, h) in
              let settled =
                count_status WebhookDeliveryStatus.success ds
                + count_status WebhookDeliveryStatus.dead_letter ds in
              (
                ground (arith, is_progress, count_status-sum ds),
                elim (Bool-cases (leb replay.total_events settled)) [
                  | inl done ↦ inl (ground (arith, is_progress, done))
                  | inr open_ ↦ inr (replay.status, ground (arith, is_progress, open_))
                ],
              )
        ]
      ]
