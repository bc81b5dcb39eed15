-- ===== src/Payments/Lifecycle/Webhook/Laws.antt =====
-- What a report of the payment provider does.
use facilpay_api.Common.{ℕ, ◌≡◌, false, none, some, [], ◌∷◌, ◌==◌, if◌then◌else◌, arith}
use facilpay_api.Common.Action.{ok, err, not_found}
use facilpay_api.Model.Entities.{PaymentStatus, is_status, Payment, PaymentSplit}
use facilpay_api.Model.State.{Database, State, send, sse}
use facilpay_api.Payments.Splits.{Sent, is_due_split, process_splits}
use facilpay_api.Payments.Splits.Laws.{process_splits_drained, process_splits_returns}
use facilpay_api.Payments.Lifecycle.Links.{increment_completions, completed_link}
use facilpay_api.Payments.Lifecycle.Webhook.{
  PaymentWebhookDto, reported_payment, apply_webhook, settle_payment, when, count_completion,
  handle_webhook, confirmed_notifications,
}

module _ {db : Database} (send_payment : PaymentSplit → Sent) (dto : PaymentWebhookDto)
    (s : State db) where
  pub handle_webhook-not_found :
      db.payments.find_one dto.payment_id s.tables.payments ≡ none
      → (handle_webhook send_payment dto s).0 ≡ err not_found
  unfolding handle_webhook apply_webhook
  handle_webhook-not_found h = ground arith

  module _ {p : Payment} (found : db.payments.find_one dto.payment_id s.tables.payments ≡ some p)
      (f : s.faults ≡ []) where
    -- When no write fails, a report other than a completion overwrites the status of a known
    -- payment, whatever it was: every other payment, the splits and the links stay.
    handle_webhook_other :
        is_status dto.status PaymentStatus.completed ≡ false
        → ((handle_webhook send_payment dto s).0 ≡ ok (reported_payment dto p))
          × ((k : ℕ)
              → db.payments.find_one k (handle_webhook send_payment dto s).1.tables.payments ≡ (
                  if dto.payment_id == k
                  then some (reported_payment dto p)
                  else db.payments.find_one k s.tables.payments))
          × ((handle_webhook send_payment dto s).1.tables.splits ≡ s.tables.splits)
          × ((handle_webhook send_payment dto s).1.tables.links ≡ s.tables.links)
    unfolding handle_webhook apply_webhook count_completion when reported_payment
    handle_webhook_other h = (
      ground arith,
      λ k. ground (
        arith,
        db.payments.find_one-save (reported_payment dto p) k s.tables.payments,
        db.payments.key-find_one dto.payment_id s.tables.payments p,
      ),
      ground arith,
      ground arith,
    )

    -- When no write fails and no split is pending, a report of completion of a known payment
    -- returns it as completed, whatever its status was, and counts for its link exactly when the
    -- payment was not completed before.
    handle_webhook-completed :
        dto.status ≡ PaymentStatus.completed
        → db.splits.find (is_due_split dto.payment_id) s.tables.splits ≡ []
        → ((handle_webhook send_payment dto s).0 ≡ ok (reported_payment dto p))
          × ((handle_webhook send_payment dto s).1.tables.links
              ≡ elim p.payment_link_id as (λ _. db.links.Table) [
                | none ↦ s.tables.links
                | some link ↦
                    if is_status p.status PaymentStatus.completed
                    then s.tables.links
                    else db.links.update (λ l. l.id == link) completed_link s.tables.links
              ])
    unfolding handle_webhook apply_webhook count_completion when reported_payment settle_payment
        process_splits increment_completions
    handle_webhook-completed h no_splits =
        let is_key = db.payments.key-find_one dto.payment_id s.tables.payments p found in
        (ground (arith, is_key), ground (arith, is_key))

    -- The state in which the splits of a completed payment are processed.
    abbrev reported : Payment
    reported = reported_payment dto p

    abbrev before_splits : State db
    before_splits =
        let payments = db.payments.save reported s.tables.payments in
        let tables = record s.tables { payments = payments } in
        send (confirmed_notifications reported)
          (send (sse reported.id reported.status ∷ []) (record s { tables = tables }))

    handle_webhook-splits :
        dto.status ≡ PaymentStatus.completed
        → (handle_webhook send_payment dto s).1.tables.splits
          ≡ (process_splits send_payment reported before_splits).1.tables.splits
    unfolding handle_webhook apply_webhook count_completion when settle_payment
        increment_completions
    handle_webhook-splits h =
        let done : reported.status ≡ PaymentStatus.completed = unfold reported_payment in h in
        ground (arith, done, process_splits_returns send_payment reported before_splits f)

    reported-id : reported.id ≡ dto.payment_id
    unfolding reported_payment
    reported-id = db.payments.key-find_one dto.payment_id s.tables.payments p found

    -- When no write fails, no split of a known payment is pending after a report of its
    -- completion.
    pub handle_webhook_drained :
        dto.status ≡ PaymentStatus.completed
        → db.splits.find
            (is_due_split dto.payment_id)
            (handle_webhook send_payment dto s).1.tables.splits
          ≡ []
    unfolding reported_payment
    handle_webhook_drained h =
        rw (handle_webhook-splits h, ← reported-id)
          (process_splits_drained send_payment reported before_splits f)
