-- ===== src/Payments/Lifecycle/Cancel.antt =====
-- `PaymentsService.cancel` of modules/payments/payments.service.ts.
use facilpay_api.Common.{
  ℕ, ◌≡◌, Bool, true, false, none, some, List, [], ◌∷◌, ◌&&◌, not, ◌==◌, if◌then◌else◌, arith,
}
use facilpay_api.Common.Action.{
  Result, ok, err, not_found, conflict, ◌>>=◌, ◌>>◌, pure, gets, or_throw, throw_if,
}
use facilpay_api.Model.Entities.{PaymentStatus, Payment}
use facilpay_api.Model.State.{Database, State, Effect, sse, webhook, WebhookEvent, write, emit}

-- `terminalStates.includes(status)` of `cancel`
abbrev pub is_terminal : PaymentStatus → Bool
is_terminal PaymentStatus.completed = true
is_terminal PaymentStatus.failed = true
is_terminal PaymentStatus.cancelled = true
is_terminal PaymentStatus.refunded = true
is_terminal PaymentStatus.partially_refunded = true
is_terminal _ = false

abbrev pub notify_merchant : WebhookEvent → Payment → List Effect
notify_merchant event payment = elim payment.merchant_id [
  | none ↦ []
  | some merchant ↦ webhook merchant event payment.id ∷ []
]

pub cancelled_payment : ℕ → Payment → Payment
cancelled_payment now payment = record payment {
  status = PaymentStatus.cancelled;
  cancelled_at = some now;
  updated_at = now;
}

module _ {db : Database} where
  pub cancel : ℕ → ℕ → State db → Result Payment × State db
  cancel now id = do
    found ← gets (λ s. db.payments.find_one id s.tables.payments)
    payment ← or_throw found not_found
    throw_if (is_terminal payment.status) conflict
    let updated = cancelled_payment now payment
    write (λ t. record t { payments = db.payments.save updated t.payments })
    emit (sse updated.id updated.status ∷ notify_merchant WebhookEvent.payment_cancelled updated)
    pure updated

  module _ (now id : ℕ) (s : State db) {p : Payment}
      (found : db.payments.find_one id s.tables.payments ≡ some p) where
    -- When no write fails, cancelling a known payment that is completed, failed, cancelled or
    -- refunded, in whole or in part, is a conflict and the payment stays; one of any other status
    -- is cancelled at the given time; and no other payment changes.
    cancel-outcome :
        s.faults ≡ []
        → ((cancel now id s).0
            ≡ (if is_terminal p.status then err conflict else ok (cancelled_payment now p)))
          × ((k : ℕ)
              → db.payments.find_one k (cancel now id s).1.tables.payments ≡ (
                  if not (is_terminal p.status) && id == k
                  then some (cancelled_payment now p)
                  else db.payments.find_one k s.tables.payments))
    unfolding cancel cancelled_payment
    cancel-outcome f = (
      ground arith,
      λ k. ground (
        arith,
        db.payments.find_one-save (cancelled_payment now p) k s.tables.payments,
        db.payments.key-find_one id s.tables.payments p,
      ),
    )
