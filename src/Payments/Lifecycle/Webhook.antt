-- ===== src/Payments/Lifecycle/Webhook.antt =====
-- `handleWebhook`: the payment provider reports a status.
pub mod Laws
use facilpay_api.Common.{
  ℕ, ◌≡◌, ◌≢◌, refl, Bool, true, false, not, Option, none, some, List, [], ◌∷◌, ◌++◌, ◌&&◌, ◌==◌,
  if◌then◌else◌, arith, or_other, ⊤,
}
use facilpay_api.Common.Action.{Result, ok, err, not_found, ◌>>=◌, ◌>>◌, pure, gets, or_throw}
use facilpay_api.Model.Entities.{PaymentStatus, is_status, Payment, PaymentSplit}
use facilpay_api.Model.State.{
  Database, State, Effect, sse, email, Template, write, emit, transaction,
}
use facilpay_api.Payments.Splits.{Sent, process_splits}
use facilpay_api.Payments.Lifecycle.Links.{increment_completions}

-- payment-webhook.dto.ts
pub record PaymentWebhookDto : Type 0 where
  pub payment_id : ℕ
  pub status : PaymentStatus
  pub external_reference : Option ℕ

-- `sendPaymentConfirmedNotifications`
pub confirmed_notifications : Payment → List Effect
confirmed_notifications payment =
    elim payment.merchant_email [
      | none ↦ []
      | some to ↦ email Template.merchant_payment_received to payment.id ∷ []
    ]
    ++ elim payment.payer_email [
      | none ↦ []
      | some to ↦ email Template.payer_payment_confirmed to payment.id ∷ []
    ]

pub reported_payment : PaymentWebhookDto → Payment → Payment
reported_payment dto payment = record payment {
  status = dto.status;
  external_reference = or_other dto.external_reference payment.external_reference;
}

module _ {db : Database} where
  -- The transaction: the payment as it was, and as it is saved.
  pub apply_webhook : PaymentWebhookDto → State db → Result (Payment × Payment) × State db
  apply_webhook dto = do
    found ← gets (λ s. db.payments.find_one dto.payment_id s.tables.payments)
    payment ← or_throw found not_found
    let updated = reported_payment dto payment
    write (λ t. record t { payments = db.payments.save updated t.payments })
    pure (payment, updated)

  -- What follows a completed payment: the notifications and the splits. The splits may change the
  -- payment's status, which the caller then sees.
  unfoldable pub settle_payment :
      (PaymentSplit → Sent) → Payment → State db → Result Payment × State db
  settle_payment send_payment payment =
      emit (confirmed_notifications payment) >> process_splits send_payment payment

  unfoldable pub when : Bool → (State db → Result ⊤ × State db) → State db → Result ⊤ × State db
  when c m s = if c then m s else (ok tt, s)

  -- A payment that became completed counts for its link.
  unfoldable pub count_completion : PaymentStatus → Payment → State db → Result ⊤ × State db
  count_completion previous payment = elim payment.payment_link_id [
    | none ↦ pure tt
    | some link ↦
        when
          (is_status payment.status PaymentStatus.completed
            && not (is_status previous PaymentStatus.completed))
          (increment_completions link)
  ]

  pub handle_webhook :
      (PaymentSplit → Sent) → PaymentWebhookDto → State db → Result Payment × State db
  handle_webhook send_payment dto = do
    (payment, updated) ← transaction (apply_webhook dto)
    emit (sse updated.id updated.status ∷ [])
    settled ←
        (if is_status updated.status PaymentStatus.completed
          then settle_payment send_payment updated
          else pure updated)
    count_completion payment.status settled
    pure settled
