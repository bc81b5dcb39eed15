-- ===== src/Payments/Refund/Bounds.antt =====
-- The amounts of payments under `refund`.
use facilpay_api.Common.{ℕ, ◌≡◌, ◌⊎◌, inl, inr, Option, none, some, arith, or_else}
use facilpay_api.Common.Int.{ℤ, pos, ◌≤ℤ◌, ◌<ℤ◌, int_laws, -ℤ_parts}
use facilpay_api.Common.Action.{Result, Result-cases, ok}
use facilpay_api.Model.Entities.{Payment}
use facilpay_api.Model.State.{Database, State, transaction}
use facilpay_api.Payments.Refund.{
  RefundPaymentDto, NewIds, refund, refund_checks, refund_writes, remaining_amount,
  refunded_payment, new_refund, record_adjustment,
}

-- No more is paid back than was paid.
pub record IsWithin (p : Payment) : Type 0 where
  pub refunded_nonneg : pos 0 ≤ℤ p.refunded_amount
  pub refunded-le : p.refunded_amount ≤ℤ p.amount

-- The validation of the DTO: an amount that is given is positive.
abbrev pub IsPositive : Option ℤ → Type 0
IsPositive none = Unit
IsPositive (some a) = pos 0 <ℤ a

refunded_payment-IsWithin :
    (p : Payment) (a : ℤ)
    → IsWithin p
    → pos 0 ≤ℤ a
    → a ≤ℤ remaining_amount p
    → IsWithin (refunded_payment p a)
unfolding refunded_payment
refunded_payment-IsWithin p a w h k = omega int_laws

abbrev pub AllWithin : {db : Database} → State db → Type 0
AllWithin {db} s =
    (k : ℕ) (p : Payment) → db.payments.find_one k s.tables.payments ≡ some p → IsWithin p

module _ {db : Database} where
  module _ (max_refunds : ℕ) (new : NewIds) (id : ℕ) (dto : RefundPaymentDto)
      (initiated_by : Option ℕ) (s : State db) where
    refund_checks_reads : (refund_checks max_refunds id dto s).1 ≡ s
    unfolding refund_checks
    refund_checks_reads = ground arith

    refund_checks_sound :
        (p : Payment) (a : ℤ)
        → (refund_checks max_refunds id dto s).0 ≡ ok (p, a)
        → (db.payments.find_one id s.tables.payments ≡ some p)
          × (a ≡ or_else dto.amount (remaining_amount p))
          × (a ≤ℤ remaining_amount p)
    unfolding refund_checks
    refund_checks_sound p a h = ground arith

    abbrev written : Payment → ℤ → Result Payment × State db
    written p a = transaction (refund_writes new p (new_refund new p dto initiated_by a)) s

    -- A call leaves the payments alone, or saves the payment with the amount that the guards passed.
    refund_payments :
        ((refund max_refunds new id dto initiated_by s).1.tables.payments ≡ s.tables.payments)
        ⊎ ((p : Payment) × (a : ℤ) × ((refund_checks max_refunds id dto s).0 ≡ ok (p, a))
            × ((refund max_refunds new id dto initiated_by s).1.tables.payments
                ≡ db.payments.save (refunded_payment p a) s.tables.payments))
    unfolding refund refund_writes record_adjustment new_refund
    refund_payments = elim (Result-cases (refund_checks max_refunds id dto s).0) [
      | inl ((p, a), h) ↦ elim (Result-cases (written p a).0) [
        | inl (u, done) ↦ inr (p, a, h, ground (arith, refund_checks_reads))
        | inr (e, undone) ↦ inl (ground (arith, refund_checks_reads))
      ]
      | inr (e, h) ↦ inl (ground (arith, refund_checks_reads))
    ]

    asked_nonneg :
        (p : Payment)
        → IsWithin p
        → IsPositive dto.amount
        → pos 0 ≤ℤ or_else dto.amount (remaining_amount p)
    asked_nonneg p w h = ground (arith, -ℤ_parts p.amount p.refunded_amount)

    -- If no payment has more paid back than was paid, and the amount asked for is positive or left
    -- out, that holds after the call, whatever it does and whichever write fails.
    pub refund-AllWithin :
        AllWithin s
        → IsPositive dto.amount
        → AllWithin (refund max_refunds new id dto initiated_by s).1
    refund-AllWithin w h k p e = elim refund_payments [
      | inl same ↦ w k p (rw same at e)
      | inr (q, a, passed, saved) ↦
          let (found, asked, covered) = refund_checks_sound q a passed in
          let within =
            refunded_payment-IsWithin q a (w id q found)
              (rw (← asked) at (asked_nonneg q (w id q found) h)) covered in
          ground
            (arith, db.payments.find_one-save (refunded_payment q a) k s.tables.payments, w k p)
    ]
