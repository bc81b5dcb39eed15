-- ===== src/Payments/Refund/Laws.antt =====
-- The behaviour of a refund on every branch.
use facilpay_api.Common.{
  ℕ, ◌≡◌, refl, ◌≢◌, ◌<◌, ◌⊎◌, inl, inr, Option, none, some, [], arith, or_else, length, ◌==◌,
  if◌then◌else◌,
}
use facilpay_api.Common.Int.{ℤ, ◌≤ℤ◌, ◌+ℤ◌}
use facilpay_api.Common.Action.{Error, Result-cases, err, ok, not_found, conflict}
use facilpay_api.Model.Entities.{PaymentStatus, Payment, Refund}
use facilpay_api.Model.State.{Database, State}
use facilpay_api.Payments.Refund.{
  RefundPaymentDto, NewIds, refund, refund_checks, refund_writes, remaining_amount,
  refunded_payment, new_refund,
}

-- When the service lets a refund through, with the amount asked for or all that remains.
pub record IsRefundable (max_refunds count : ℕ) (dto : RefundPaymentDto) (p : Payment)
    : Type 0 where
  pub not_pending : p.status ≢ PaymentStatus.pending
  pub not_refunded : p.status ≢ PaymentStatus.refunded
  pub not_failed : p.status ≢ PaymentStatus.failed
  pub below_max : (max_refunds ≡ 0) ⊎ (count < max_refunds)
  pub covered : or_else dto.amount (remaining_amount p) ≤ℤ remaining_amount p

-- What paying back an amount makes of a payment.
pub record IsPaidBack (amount : ℤ) (p q : Payment) : Type 0 where
  pub sum : q.refunded_amount ≡ p.refunded_amount +ℤ amount
  pub full : p.amount ≤ℤ q.refunded_amount → q.status ≡ PaymentStatus.refunded
  pub partial : ¬ (p.amount ≤ℤ q.refunded_amount) → q.status ≡ PaymentStatus.partially_refunded
  pub rest : q ≡ record p { refunded_amount = q.refunded_amount; status = q.status }

pub record IsRefundOf (new : NewIds) (asked : ℤ) (p : Payment) (dto : RefundPaymentDto)
    (initiator : Option ℕ) (r : Refund) : Type 0 where
  pub id : r.id ≡ new.refund
  pub payment_id : r.payment_id ≡ p.id
  pub amount : r.amount ≡ asked
  pub reason_code : r.reason_code ≡ dto.reason_code
  pub reason : r.reason ≡ dto.reason
  pub initiated_by : r.initiated_by ≡ initiator

module _ {db : Database} where
  abbrev pub count_refunds : ℕ → State db → ℕ
  count_refunds id s = length (db.refunds.find (λ r. r.payment_id == id) s.tables.refunds)

  module _ (max_refunds : ℕ) (new : NewIds) (id : ℕ) (dto : RefundPaymentDto)
      (initiated_by : Option ℕ) (s : State db) where
    -- A refund that throws leaves every table as it was, whichever guard or write failed.
    pub refund-atomic :
        {e : Error}
        → (refund max_refunds new id dto initiated_by s).0 ≡ err e
        → (refund max_refunds new id dto initiated_by s).1.tables ≡ s.tables
    unfolding refund refund_checks refund_writes
    refund-atomic h = ground arith

    -- An unknown payment is `not_found`, and nothing is written or sent.
    pub refund-not_found :
        db.payments.find_one id s.tables.payments ≡ none
        → refund max_refunds new id dto initiated_by s ≡ (err not_found, s)
    unfolding refund refund_checks
    refund-not_found h = ground arith

    module _ {p : Payment} (found : db.payments.find_one id s.tables.payments ≡ some p) where
      abbrev asked : ℤ
      asked = or_else dto.amount (remaining_amount p)

      refund_checks-IsRefundable :
          IsRefundable max_refunds (count_refunds id s) dto p
          → refund_checks max_refunds id dto s ≡ (ok (p, asked), s)
      unfolding refund_checks
      refund_checks-IsRefundable h = ground arith

      refund_checks_conflict :
          ¬ (IsRefundable max_refunds (count_refunds id s) dto p)
          → refund_checks max_refunds id dto s ≡ (err conflict, s)
      unfolding refund_checks
      refund_checks_conflict h = elim (Result-cases (refund_checks max_refunds id dto s).0) [
        | inl (a, e) ↦ absurd (h (ground arith))
        | inr (e, f) ↦ ground arith
      ]

      -- A refund of a known payment that the guards do not allow is a conflict, and nothing is
      -- written or sent.
      pub refund_refused :
          ¬ (IsRefundable max_refunds (count_refunds id s) dto p)
          → refund max_refunds new id dto initiated_by s ≡ (err conflict, s)
      unfolding refund
      refund_refused h = ground (arith, refund_checks_conflict h)

      refund_stores :
          IsRefundable max_refunds (count_refunds id s) dto p
          → s.faults ≡ []
          → let s' = (refund max_refunds new id dto initiated_by s).1 in
            ((refund max_refunds new id dto initiated_by s).0
              ≡ ok (refunded_payment p asked, new_refund new p dto initiated_by asked))
            × ((k : ℕ)
                → db.payments.find_one k s'.tables.payments ≡ (
                    if id == k
                    then some (refunded_payment p asked)
                    else db.payments.find_one k s.tables.payments))
            × ((k : ℕ)
                → db.refunds.find_one k s'.tables.refunds ≡ (
                    if new.refund == k
                    then some (new_refund new p dto initiated_by asked)
                    else db.refunds.find_one k s.tables.refunds))
      unfolding refund refund_writes refunded_payment new_refund
      refund_stores h f = (
        ground (arith, refund_checks-IsRefundable h),
        λ k. ground (
          arith,
          refund_checks-IsRefundable h,
          db.payments.find_one-save (refunded_payment p asked) k s.tables.payments,
          db.payments.key-find_one id s.tables.payments p,
        ),
        λ k. ground (
          arith,
          refund_checks-IsRefundable h,
          db.refunds.find_one-save (new_refund new p dto initiated_by asked) k s.tables.refunds,
        ),
      )

      refunded_payment-IsPaidBack : IsPaidBack asked p (refunded_payment p asked)
      unfolding refunded_payment
      refunded_payment-IsPaidBack = record {
        sum = refl;
        full = λ all. ground (arith, all);
        partial = λ some_left. ground (arith, some_left);
        rest = refl;
      }

      new_refund-IsRefundOf :
          IsRefundOf new asked p dto initiated_by (new_refund new p dto initiated_by asked)
      unfolding new_refund
      new_refund-IsRefundOf = record {
        id = refl;
        payment_id = refl;
        amount = refl;
        reason_code = refl;
        reason = refl;
        initiated_by = refl;
      }

      -- When no write fails, a refund of a known payment that the guards allow returns two rows and stores
      -- them, and no other payment or refund changes. The payment is refunded by the amount asked for, or
      -- all that remains; it has the status refunded exactly when nothing remains, and partially refunded
      -- otherwise, and is unchanged in the rest. The refund is of that payment and amount, with the reason
      -- of the request and the one who asked.
      pub refund_accepted :
          IsRefundable max_refunds (count_refunds id s) dto p
          → s.faults ≡ []
          → let s' = (refund max_refunds new id dto initiated_by s).1 in
            (q : Payment) × (r : Refund) × ((refund max_refunds new id dto initiated_by s).0
              ≡ ok (q, r))
            × IsPaidBack asked p q
            × IsRefundOf new asked p dto initiated_by r
            × ((k : ℕ)
                → db.payments.find_one k s'.tables.payments
                  ≡ (if id == k then some q else db.payments.find_one k s.tables.payments))
            × ((k : ℕ)
                → db.refunds.find_one k s'.tables.refunds
                  ≡ (if new.refund == k then some r else db.refunds.find_one k s.tables.refunds))
      refund_accepted h f =
          let (answer, payments, refunds) = refund_stores h f in
          (
            refunded_payment p asked,
            new_refund new p dto initiated_by asked,
            answer,
            refunded_payment-IsPaidBack,
            new_refund-IsRefundOf,
            payments,
            refunds,
          )
