-- ===== src/Disputes.antt =====
-- modules/payments/disputes.service.ts
pub mod Transitions
pub mod Laws
pub mod Opening
use facilpay_api.Common.{
  ℕ, ◌≡◌, ◌≢◌, Bool, true, false, not, Option, none, some, List, [], ◌∷◌, ◌++◌, ◌&&◌, ◌||◌, ◌==◌,
  if◌then◌else◌, or_else, or_other, first, ⊤,
}
use facilpay_api.Common.Int.{ℤ, ◌-ℤ◌}
use facilpay_api.Common.Action.{
  Result, ok, err, not_found, conflict, ◌>>=◌, ◌>>◌, pure, gets, or_throw, throw_if,
}
use facilpay_api.Model.Entities.{PaymentStatus, is_status, Payment, Dispute, DisputeStatus}
use facilpay_api.Model.State.{
  Database, State, Effect, email, webhook, Template, WebhookEvent, write, emit, send, transaction,
}
use facilpay_api.Disputes.Transitions.{can_move, is_dispute_status, is_terminal_dispute}

-- create-dispute.dto.ts
pub record CreateDisputeDto : Type 0 where
  pub reason : ℕ
  pub description : Option ℕ
  pub opened_by : Option ℕ

-- update-dispute.dto.ts
pub record UpdateDisputeDto : Type 0 where
  pub status : Option DisputeStatus
  pub resolution_notes : Option ℕ
  pub resolved_by : Option ℕ

-- The amount in dispute is recorded only with a description.
abbrev pub disputed_amount : CreateDisputeDto → Payment → Option ℤ
disputed_amount dto payment = elim dto.description [
  | none ↦ none
  | some _ ↦ some (payment.amount -ℤ payment.refunded_amount)
]

pub new_dispute : ℕ → Payment → CreateDisputeDto → Option ℕ → Dispute
new_dispute new payment dto opened_by = record {
  id = new;
  payment_id = payment.id;
  status = DisputeStatus.open_;
  reason = dto.reason;
  description = dto.description;
  disputed_amount = disputed_amount dto payment;
  opened_by = or_other opened_by dto.opened_by;
  resolution_notes = none;
  resolved_by = none;
  merchant_email = payment.merchant_email;
  payer_email = payment.payer_email;
  resolved_at = none;
  closed_at = none;
}

-- A dispute of the payment that is not at its end.
abbrev pub is_active_dispute : Option Dispute → Bool
is_active_dispute none = false
is_active_dispute (some d) = not (is_terminal_dispute d.status)

-- `sendDisputeNotifications` and the mails of `sendDisputeStatusNotification`
abbrev pub dispute_emails : Template → Template → Dispute → List Effect
dispute_emails to_merchant to_payer dispute =
    elim dispute.merchant_email [ none ↦ [] | some to ↦ email to_merchant to dispute.id ∷ [] ]
    ++ elim dispute.payer_email [ none ↦ [] | some to ↦ email to_payer to dispute.id ∷ [] ]

-- The dispute after a move to a status, with its timestamp.
pub moved : ℕ → Option ℕ → DisputeStatus → Dispute → Dispute
moved now by DisputeStatus.resolved d = record d {
  status = DisputeStatus.resolved;
  resolved_at = some now;
  resolved_by = by;
}
moved now by DisputeStatus.closed d = record d {
  status = DisputeStatus.closed;
  closed_at = some now;
}
moved now by status d = record d { status = status }

-- The other fields of the DTO.
pub annotated : UpdateDisputeDto → Dispute → Dispute
annotated dto d = record d {
  resolution_notes = or_other dto.resolution_notes d.resolution_notes;
  resolved_by =
      if is_dispute_status d.status DisputeStatus.resolved
      then or_other dto.resolved_by d.resolved_by
      else d.resolved_by;
}

abbrev pub end_events : DisputeStatus → List WebhookEvent
end_events DisputeStatus.resolved = WebhookEvent.dispute_resolved ∷ []
end_events DisputeStatus.closed = WebhookEvent.dispute_closed ∷ []
end_events _ = []

module _ {db : Database} where
  -- `dispatchDisputeWebhook`, for each of the events
  pub dispute_webhooks : List WebhookEvent → Dispute → State db → List Effect
  dispute_webhooks [] dispute s = []
  dispute_webhooks (event ∷ events) dispute s =
      elim (db.payments.find_one dispute.payment_id s.tables.payments) [
        | none ↦ []
        | some payment ↦ elim payment.merchant_id [
          | none ↦ []
          | some merchant ↦ webhook merchant event dispute.id ∷ []
        ]
      ]
      ++ dispute_webhooks events dispute s

  pub open_dispute : ℕ → ℕ → CreateDisputeDto → Option ℕ → State db → Result Dispute × State db
  open_dispute new payment_id dto opened_by = do
    found ← gets (λ s. db.payments.find_one payment_id s.tables.payments)
    payment ← or_throw found not_found
    throw_if
        (not (
          is_status payment.status PaymentStatus.completed
          || is_status payment.status PaymentStatus.partially_refunded))
        conflict
    existing ← gets (λ s. db.disputes.find (λ d. d.payment_id == payment_id) s.tables.disputes)
    throw_if (is_active_dispute (first existing)) conflict
    let dispute = new_dispute new payment dto opened_by
    write (λ t. record t { disputes = db.disputes.save dispute t.disputes })
    pure dispute

  unfoldable pub create : ℕ → ℕ → CreateDisputeDto → Option ℕ → State db → Result Dispute × State db
  create new payment_id dto opened_by = do
    dispute ← transaction (open_dispute new payment_id dto opened_by)
    emit (dispute_emails Template.merchant_dispute_opened Template.payer_dispute_opened dispute)
    webhooks ← gets (dispute_webhooks (WebhookEvent.dispute_opened ∷ []) dispute)
    emit webhooks
    pure dispute

  -- `validateStatusTransition` and the changes of the dispute
  pub move : ℕ → Option ℕ → UpdateDisputeDto → Dispute → State db → Result Dispute × State db
  move now resolved_by dto dispute s = elim dto.status [
    | none ↦ (ok dispute, s)
    | some status ↦
        if can_move dispute.status status
        then (ok (moved now (or_other resolved_by dto.resolved_by) status dispute), s)
        else (err conflict, s)
  ]

  -- The transaction of `update`: the status before, and the dispute that is saved.
  pub apply_update :
      ℕ → ℕ → UpdateDisputeDto → Option ℕ → State db → Result (DisputeStatus × Dispute) × State db
  apply_update now id dto resolved_by = do
    found ← gets (λ s. db.disputes.find_one id s.tables.disputes)
    dispute ← or_throw found not_found
    changed ← move now resolved_by dto dispute
    let updated = annotated dto changed
    write (λ t. record t { disputes = db.disputes.save updated t.disputes })
    pure (dispute.status, updated)

  -- The mails and webhooks of a change of status.
  pub status_effects : Option DisputeStatus → DisputeStatus → Dispute → State db → List Effect
  status_effects none previous dispute s = []
  status_effects (some status) previous dispute s =
      if is_dispute_status previous status
      then []
      else (elim (db.payments.find_one dispute.payment_id s.tables.payments) [
        | none ↦ []
        | some _ ↦
            dispute_emails Template.merchant_dispute_status_changed
              Template.payer_dispute_status_changed dispute
      ]
          ++ dispute_webhooks (WebhookEvent.dispute_updated ∷ end_events dispute.status) dispute s)

  unfoldable pub update : ℕ → ℕ → UpdateDisputeDto → Option ℕ → State db → Result Dispute × State db
  update now id dto resolved_by = do
    (previous, updated) ← transaction (apply_update now id dto resolved_by)
    effects ← gets (status_effects dto.status previous updated)
    emit effects
    pure updated
