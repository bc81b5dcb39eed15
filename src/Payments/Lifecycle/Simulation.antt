-- ===== src/Payments/Lifecycle/Simulation.antt =====
-- `simulate`: a sandbox call that forces an open payment into an outcome, with the side effects of the
-- real transition.
pub mod Laws
use facilpay_api.Common.{
  ℕ, ◌≡◌, ◌≢◌, refl, Bool, true, false, not, Option, none, some, List, [], ◌∷◌, ◌&&◌, ◌||◌, ◌==◌,
  if◌then◌else◌, arith,
}
use facilpay_api.Common.Int.{pos}
use facilpay_api.Common.Action.{
  Error, Result, ok, err, not_found, conflict, ◌>>=◌, ◌>>◌, pure, gets, or_throw, throw_if,
}
use facilpay_api.Model.Entities.{PaymentStatus, is_status, Payment, PaymentSplit}
use facilpay_api.Model.State.{Database, Tables, State, sse, WebhookEvent, write, emit}
use facilpay_api.Payments.Fee.{Fee, calculate_fee}
use facilpay_api.Payments.Splits.{Sent}
use facilpay_api.Payments.Lifecycle.Cancel.{notify_merchant}
use facilpay_api.Payments.Lifecycle.Webhook.{settle_payment, count_completion}

-- simulate-payment.dto.ts
pub data SimulateOutcome : Type 0 where
  completed failed expired partially_completed : SimulateOutcome

-- `terminalStates.includes(status)` of `simulate`
abbrev pub is_final : PaymentStatus → Bool
is_final PaymentStatus.pending = false
is_final PaymentStatus.overdue = false
is_final _ = true

-- The amount of a partial completion, with its fee.
pub partially_paid : ℕ → Fee → Payment → Payment
partially_paid amount fee payment = record payment {
  amount = pos amount;
  fee_amount = pos fee.fee_amount;
  net_amount = pos fee.net_amount;
}

abbrev pub with_partial_amount : Option ℕ → (ℕ → Fee) → Payment → Payment
with_partial_amount none fee payment = payment
with_partial_amount (some amount) fee payment = partially_paid amount (fee amount) payment

-- The `switch` on the outcome; the payment is marked as simulated.
pub simulated_payment : ℕ → SimulateOutcome → Option ℕ → (ℕ → Fee) → Payment → Payment
simulated_payment now SimulateOutcome.completed partial fee payment = record payment {
  simulated = true;
  status = PaymentStatus.completed;
}
simulated_payment now SimulateOutcome.failed partial fee payment = record payment {
  simulated = true;
  status = PaymentStatus.failed;
}
simulated_payment now SimulateOutcome.expired partial fee payment = record payment {
  simulated = true;
  status = PaymentStatus.expired;
  expired_at = some now;
}
simulated_payment now SimulateOutcome.partially_completed partial fee payment =
    with_partial_amount partial fee
      (record payment { simulated = true; status = PaymentStatus.partially_completed })

abbrev pub outcome_event : PaymentStatus → WebhookEvent
outcome_event PaymentStatus.completed = WebhookEvent.payment_completed
outcome_event PaymentStatus.failed = WebhookEvent.payment_failed
outcome_event PaymentStatus.expired = WebhookEvent.payment_expired
outcome_event _ = WebhookEvent.payment_partially_completed

module _ {db : Database} where
  -- The side effects, after the payment is saved.
  pub announce :
      (PaymentSplit → Sent) → PaymentStatus → Payment → State db → Result Payment × State db
  announce send_payment previous updated = do
    emit (sse updated.id updated.status ∷ [])
    settled ←
        (if is_status updated.status PaymentStatus.completed
            || is_status updated.status PaymentStatus.partially_completed
          then settle_payment send_payment updated
          else pure updated)
    count_completion previous settled
    emit (notify_merchant (outcome_event settled.status) settled)
    pure settled

  pub simulate :
      (ℕ → ℕ)
      → (PaymentSplit → Sent)
      → ℕ
      → ℕ
      → SimulateOutcome
      → Option ℕ
      → State db
      → Result Payment × State db
  simulate to_fixed send_payment now id outcome partial = do
    found ← gets (λ s. db.payments.find_one id s.tables.payments)
    payment ← or_throw found not_found
    throw_if (is_final payment.status) conflict
    tables ← gets (λ s. s.tables)
    let updated =
        simulated_payment now outcome partial
          (λ a. calculate_fee to_fixed payment.merchant_id a tables) payment
    write (λ t. record t { payments = db.payments.save updated t.payments })
    announce send_payment payment.status updated
