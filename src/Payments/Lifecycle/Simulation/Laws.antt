-- ===== src/Payments/Lifecycle/Simulation/Laws.antt =====
-- What a simulated outcome does.
use facilpay_api.Common.{ℕ, ◌≡◌, refl, true, false, Option, none, some, [], ◌∷◌, ◌||◌, arith}
use facilpay_api.Model.Entities.{PaymentStatus, is_status, Payment, PaymentSplit}
use facilpay_api.Model.State.{Database, State, sse, send}
use facilpay_api.Payments.Fee.{Fee, calculate_fee}
use facilpay_api.Payments.Splits.{Sent, is_due_split, process_splits}
use facilpay_api.Payments.Splits.Laws.{process_splits_drained, process_splits_returns}
use facilpay_api.Payments.Lifecycle.Links.{increment_completions}
use facilpay_api.Payments.Lifecycle.Webhook.{
  settle_payment, count_completion, when, confirmed_notifications,
}
use facilpay_api.Payments.Lifecycle.Simulation.{
  SimulateOutcome, is_final, simulate, announce, simulated_payment, partially_paid,
}

abbrev pub IsPaid : SimulateOutcome → Type 0
IsPaid SimulateOutcome.completed = Unit
IsPaid SimulateOutcome.partially_completed = Unit
IsPaid _ = ⊥

simulated_payment-paid :
    (now : ℕ) (outcome : SimulateOutcome) (partial : Option ℕ) (fee : ℕ → Fee) (p : Payment)
    → IsPaid outcome
    → let status = (simulated_payment now outcome partial fee p).status in
      (is_status status PaymentStatus.completed
        || is_status status PaymentStatus.partially_completed)
      ≡ true
unfolding simulated_payment partially_paid
simulated_payment-paid now SimulateOutcome.completed partial fee p paid = refl
simulated_payment-paid now SimulateOutcome.failed partial fee p paid = absurd paid
simulated_payment-paid now SimulateOutcome.expired partial fee p paid = absurd paid
simulated_payment-paid now SimulateOutcome.partially_completed none fee p paid = refl
simulated_payment-paid now SimulateOutcome.partially_completed (some a) fee p paid = refl

module _ {db : Database} where
  -- The state in which the splits of a paid outcome are processed.
  abbrev before_splits : Payment → State db → State db
  before_splits forced s =
      send (confirmed_notifications forced) (send (sse forced.id forced.status ∷ []) s)

  announce-splits :
      (send_payment : PaymentSplit → Sent) (previous : PaymentStatus) (forced : Payment)
      (s : State db)
      → s.faults ≡ []
      → (is_status forced.status PaymentStatus.completed
          || is_status forced.status PaymentStatus.partially_completed)
        ≡ true
      → (announce send_payment previous forced s).1.tables.splits
        ≡ (process_splits send_payment forced (before_splits forced s)).1.tables.splits
  unfolding announce count_completion when settle_payment increment_completions
  announce-splits send_payment previous forced s f paid =
      ground (arith, process_splits_returns send_payment forced (before_splits forced s) f)

  module _ (to_fixed : ℕ → ℕ) (send_payment : PaymentSplit → Sent) (now id : ℕ)
      (outcome : SimulateOutcome) (partial : Option ℕ) (s : State db) {p : Payment}
      (found : db.payments.find_one id s.tables.payments ≡ some p) (f : s.faults ≡ []) where
    abbrev forced : Payment
    forced =
        simulated_payment now outcome partial (λ a. calculate_fee to_fixed p.merchant_id a s.tables)
          p

    abbrev saved : State db
    saved = record s {
      tables = record s.tables { payments = db.payments.save forced s.tables.payments };
    }

    forced-id : forced.id ≡ id
    unfolding simulated_payment partially_paid
    forced-id = ground (arith, db.payments.key-find_one id s.tables.payments p found)

    simulate_announces :
        is_final p.status ≡ false
        → simulate to_fixed send_payment now id outcome partial s
          ≡ announce send_payment p.status forced saved
    unfolding simulate
    simulate_announces open_ = ground arith

    -- When no write fails, no split of a known payment that was pending or overdue is pending
    -- after a simulated completion, whole or in part.
    pub simulate_drained :
        is_final p.status ≡ false
        → IsPaid outcome
        → db.splits.find
            (is_due_split id)
            (simulate to_fixed send_payment now id outcome partial s).1.tables.splits
          ≡ []
    simulate_drained open_ paid =
        rw
          (
            simulate_announces open_,
            announce-splits send_payment p.status forced saved f
                (simulated_payment-paid now outcome partial _ p paid),
            ← forced-id,
          )
          (process_splits_drained send_payment forced (before_splits forced saved) f)
