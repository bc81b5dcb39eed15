-- ===== src/Disputes/Opening.antt =====
-- `DisputesService.create`: which disputes are opened.
use facilpay_api.Common.{
  ℕ, ◌≡◌, ◌⊎◌, true, false, Option, some, [], ◌==◌, if◌then◌else◌, arith, first,
}
use facilpay_api.Common.Action.{Error, ok, err, conflict}
use facilpay_api.Model.Entities.{PaymentStatus, Payment, Dispute}
use facilpay_api.Model.State.{Database, State}
use facilpay_api.Disputes.{CreateDisputeDto, new_dispute, is_active_dispute, create, open_dispute}

-- The statuses in which a payment can be disputed.
abbrev pub IsDisputable : Payment → Type 0
IsDisputable p =
    (p.status ≡ PaymentStatus.completed) ⊎ (p.status ≡ PaymentStatus.partially_refunded)

module _ {db : Database} where
  module _ (new payment_id : ℕ) (dto : CreateDisputeDto) (by : Option ℕ) (s : State db) where
    -- A call to open a dispute that throws changes no table.
    pub create-atomic :
        {e : Error}
        → (create new payment_id dto by s).0 ≡ err e
        → (create new payment_id dto by s).1.tables ≡ s.tables
    unfolding create open_dispute
    create-atomic h = ground arith

    -- The one dispute of the payment that the code looks at.
    abbrev pub seen : Option Dispute
    seen = first (db.disputes.find (λ d. d.payment_id == payment_id) s.tables.disputes)

    module _ {p : Payment}
        (found : db.payments.find_one payment_id s.tables.payments ≡ some p) where
      pub create_not_disputable :
          ¬ (IsDisputable p) → create new payment_id dto by s ≡ (err conflict, s)
      unfolding create open_dispute
      create_not_disputable h = ground arith

      pub create_again :
          is_active_dispute seen ≡ true → create new payment_id dto by s ≡ (err conflict, s)
      unfolding create open_dispute
      create_again h = ground arith

      -- When no write fails, a dispute is opened for a known payment that is completed or
      -- partially refunded if the one dispute of the payment that is looked at is not active; it
      -- is returned and stored, and no other dispute changes.
      create_opened :
          IsDisputable p
          → is_active_dispute seen ≡ false
          → s.faults ≡ []
          → ((create new payment_id dto by s).0 ≡ ok (new_dispute new p dto by))
            × ((k : ℕ)
                → db.disputes.find_one k (create new payment_id dto by s).1.tables.disputes ≡ (
                    if new == k
                    then some (new_dispute new p dto by)
                    else db.disputes.find_one k s.tables.disputes))
      unfolding create open_dispute new_dispute
      create_opened h a f = (
        ground arith,
        λ k.
            ground
              (arith, db.disputes.find_one-save (new_dispute new p dto by) k s.tables.disputes),
      )
