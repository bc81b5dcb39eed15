-- ===== src/Payments/Refund.antt =====
-- `PaymentsService.refund` of modules/payments/payments.service.ts.
pub mod Laws
pub mod Bounds
use facilpay_api.Common.{
  ℕ, Bool, Option, none, some, List, [], ◌∷◌, ◌++◌, ◌&&◌, ◌==◌, ltb, leb, if◌then◌else◌, is_some,
  or_else, length, ⊤,
}
use facilpay_api.Common.Int.{ℤ, ◌+ℤ◌, ◌-ℤ◌, neg, ltb_ℤ, leb_ℤ}
use facilpay_api.Common.Action.{
  Result, ok, err, not_found, conflict, ◌>>=◌, ◌>>◌, pure, gets, or_throw, throw_if,
}
use facilpay_api.Model.Entities.{PaymentStatus, is_status, Payment, Refund, SettlementAdjustment}
use facilpay_api.Model.State.{
  Database, State, Effect, sse, email, webhook, Template, WebhookEvent, write, send, transaction,
}

-- refund-payment.dto.ts
pub record RefundPaymentDto : Type 0 where
  pub amount : Option ℤ
  pub reason_code : ℕ
  pub reason : Option ℕ

-- The identifiers that the database gives to the rows of one call.
pub record NewIds : Type 0 where
  pub refund : ℕ
  pub adjustment : ℕ

abbrev pub remaining_amount : Payment → ℤ
remaining_amount payment = payment.amount -ℤ payment.refunded_amount

-- The payment after a refund of the amount.
pub refunded_payment : Payment → ℤ → Payment
refunded_payment payment amount =
    let refunded = payment.refunded_amount +ℤ amount in
    record payment {
      refunded_amount = refunded;
      status =
          if leb_ℤ payment.amount refunded
          then PaymentStatus.refunded
          else PaymentStatus.partially_refunded;
    }

pub new_refund : NewIds → Payment → RefundPaymentDto → Option ℕ → ℤ → Refund
new_refund new payment dto initiated_by amount = record {
  id = new.refund;
  payment_id = payment.id;
  amount = amount;
  reason_code = dto.reason_code;
  reason = dto.reason;
  initiated_by = initiated_by;
}

pub new_adjustment : NewIds → Payment → ℕ → ℤ → SettlementAdjustment
new_adjustment new payment settlement amount = record {
  id = new.adjustment;
  settlement_id = settlement;
  refund_id = new.refund;
  payment_id = payment.id;
  merchant_id = payment.merchant_id;
  amount = neg amount;
  currency = payment.currency;
}

-- `sendRefundNotifications`
pub send_refund_notifications : Payment → Refund → List Effect
send_refund_notifications payment refund =
    elim payment.merchant_email [
      | none ↦ []
      | some to ↦ email Template.merchant_refund_issued to refund.id ∷ []
    ]
    ++ elim payment.payer_email [
      | none ↦ []
      | some to ↦ email Template.payer_refund_processed to refund.id ∷ []
    ]

-- `dispatchRefundWebhook`
pub dispatch_refund_webhook : Payment → Refund → WebhookEvent → List Effect
dispatch_refund_webhook payment refund event = elim payment.merchant_id [
  | none ↦ []
  | some merchant ↦ webhook merchant event refund.id ∷ []
]

-- What is sent after the commit, or after the rollback of a refund that was attempted.
pub refund_effects : Payment → Refund → Result Payment → List Effect
unfolding send_refund_notifications dispatch_refund_webhook
refund_effects payment refund (ok updated) =
    sse updated.id updated.status
    ∷ (send_refund_notifications updated refund
        ++ dispatch_refund_webhook updated refund WebhookEvent.refund_issued)
refund_effects payment refund (err e) =
    dispatch_refund_webhook payment refund WebhookEvent.refund_failed

module _ {db : Database} where
  -- The reads and the guards of `refund`: the payment, and the amount to pay back.
  unfoldable pub refund_checks :
      ℕ → ℕ → RefundPaymentDto → State db → Result (Payment × ℤ) × State db
  refund_checks max_refunds id dto = do
    found ← gets (λ s. db.payments.find_one id s.tables.payments)
    payment ← or_throw found not_found
    throw_if (is_status payment.status PaymentStatus.pending) conflict
    throw_if (is_status payment.status PaymentStatus.refunded) conflict
    throw_if (is_status payment.status PaymentStatus.failed) conflict
    count ← gets (λ s. length (db.refunds.find (λ r. r.payment_id == id) s.tables.refunds))
    throw_if (ltb 0 max_refunds && leb max_refunds count) conflict
    let amount = or_else dto.amount (remaining_amount payment)
    throw_if (ltb_ℤ (remaining_amount payment) amount) conflict
    pure (payment, amount)

  -- The adjustment of a payment that is already settled.
  pub record_adjustment : NewIds → Payment → ℤ → State db → Result ⊤ × State db
  unfolding new_adjustment
  record_adjustment new payment amount = elim payment.settlement_id [
    | none ↦ pure tt
    | some settlement ↦ write (λ t. record t {
      adjustments =
          db.adjustments.save (new_adjustment new payment settlement amount) t.adjustments;
    })
  ]

  -- The writes of `refund`: the refund, the payment and, after a settlement, the adjustment.
  unfoldable pub refund_writes : NewIds → Payment → Refund → State db → Result Payment × State db
  unfolding refunded_payment record_adjustment
  refund_writes new payment refund = do
    write (λ t. record t { refunds = db.refunds.save refund t.refunds })
    let updated = refunded_payment payment refund.amount
    write (λ t. record t { payments = db.payments.save updated t.payments })
    record_adjustment new payment refund.amount
    pure updated

  unfoldable pub refund :
      ℕ → NewIds → ℕ → RefundPaymentDto → Option ℕ → State db → Result (Payment × Refund) × State db
  refund max_refunds new id dto initiated_by = do
    (payment, amount) ← refund_checks max_refunds id dto
    let refund = new_refund new payment dto initiated_by amount
    λ s.
        (let (r, s') = transaction (refund_writes new payment refund) s in
          let sent = send (refund_effects payment refund r) s' in
          elim r [ ok updated ↦ (ok (updated, refund), sent) | err e ↦ (err e, sent) ])
