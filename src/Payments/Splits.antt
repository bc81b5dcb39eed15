-- ===== src/Payments/Splits.antt =====
-- The splits of a payment: `processSplitsForPayment` of modules/payments/payments.service.ts.
pub mod Laws
use facilpay_api.Common.{
  ℕ, ◌+◌, Bool, true, false, Option, none, some, List, [], ◌∷◌, ◌++◌, ◌&&◌, ◌==◌, if◌then◌else◌,
  length, is_empty, ⊤, ltb,
}
use facilpay_api.Common.Action.{Result, ok, err, ◌>>=◌, ◌>>◌, pure, gets}
use facilpay_api.Model.Entities.{
  PaymentStatus, Payment, PaymentSplit, PaymentSplitStatus, is_pending_split,
}
use facilpay_api.Model.State.{Database, State, sse, webhook, WebhookEvent, write, emit}

-- What `stellarService.sendPayment` does for a split: it returns a transaction hash, if the network
-- gave one, or it throws with a reason.
pub data Sent : Type 0 where
  hash : Option ℕ → Sent
  thrown : ℕ → Sent

pub executed : Sent → PaymentSplit → PaymentSplit
executed (hash h) split = record split {
  status = PaymentSplitStatus.completed;
  stellar_transaction_hash = h;
}
executed (thrown reason) split = record split {
  status = PaymentSplitStatus.failed;
  failure_reason = some reason;
}

abbrev pub failures : Sent → ℕ → ℕ
failures (hash _) failed = failed
failures (thrown _) failed = failed + 1

-- The condition of the query: the pending splits of a payment.
abbrev pub is_due_split : ℕ → PaymentSplit → Bool
is_due_split payment split = split.payment_id == payment && is_pending_split split.status

module _ {db : Database} where
  -- The loop over the splits; it returns the number of those that failed.
  pub execute_splits :
      (PaymentSplit → Sent) → List PaymentSplit → ℕ → State db → Result ℕ × State db
  unfolding executed
  execute_splits send_payment [] failed s = (ok failed, s)
  execute_splits send_payment (split ∷ rest) failed s =
      let sent = send_payment split in
      let written =
        write (λ t. record t { splits = db.splits.save (executed sent split) t.splits }) s in
      elim written.0 [
        | ok _ ↦ execute_splits send_payment rest (failures sent failed) written.1
        | err e ↦ (err e, written.1)
      ]

  -- The payment object is changed in place, so the caller sees the status that is returned here.
  pub mark_partial : ℕ → Payment → State db → Result Payment × State db
  mark_partial failed payment =
      if ltb 0 failed
      then (do
        let updated = record payment { status = PaymentStatus.partially_completed }
        write (λ t. record t { payments = db.payments.save updated t.payments })
        emit (sse updated.id updated.status ∷ [])
        pure updated)
      else pure payment

  pub notify_splits : ℕ → ℕ → Payment → State db → Result ⊤ × State db
  notify_splits total failed payment = elim payment.merchant_id [
    | none ↦ pure tt
    | some merchant ↦
        emit (webhook merchant (WebhookEvent.payment_split_processed total failed) payment.id ∷ [])
  ]

  pub run_splits :
      (PaymentSplit → Sent) → List PaymentSplit → Payment → State db → Result Payment × State db
  run_splits send_payment splits payment = do
    failed ← execute_splits send_payment splits 0
    updated ← mark_partial failed payment
    notify_splits (length splits) failed updated
    pure updated

  unfoldable pub process_splits :
      (PaymentSplit → Sent) → Payment → State db → Result Payment × State db
  process_splits send_payment payment s =
      let splits = db.splits.find (is_due_split payment.id) s.tables.splits in
      if is_empty splits then (ok payment, s) else run_splits send_payment splits payment s
