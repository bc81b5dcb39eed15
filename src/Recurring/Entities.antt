-- ===== src/Recurring/Entities.antt =====
-- recurring-payment.entity.ts and recurring-payment-charge.entity.ts, and the tables that the service
-- writes. Times are milliseconds; identifiers and texts are numbers. The text of
-- `failureReason` is left out.
use facilpay_api.Common.{ℕ, Bool, true, false, Option, List, [], ◌∷◌, ⊤}
use facilpay_api.Common.Action.{Result, ok, err, failure}
use facilpay_api.Repository.{Repository}
use facilpay_api.Idempotency.{IdempotencyKey}

pub data RecurringPaymentInterval : Type 0 where
  daily weekly monthly : RecurringPaymentInterval

pub data RecurringPaymentStatus : Type 0 where
  active trialing paused cancelled : RecurringPaymentStatus

abbrev pub is_active : RecurringPaymentStatus → Bool
is_active RecurringPaymentStatus.active = true
is_active _ = false

abbrev pub is_trialing : RecurringPaymentStatus → Bool
is_trialing RecurringPaymentStatus.trialing = true
is_trialing _ = false

abbrev pub is_paused : RecurringPaymentStatus → Bool
is_paused RecurringPaymentStatus.paused = true
is_paused _ = false

abbrev pub is_cancelled : RecurringPaymentStatus → Bool
is_cancelled RecurringPaymentStatus.cancelled = true
is_cancelled _ = false

pub record RecurringPayment : Type 0 where
  pub id : ℕ
  pub amount : ℕ
  pub currency : ℕ
  pub interval : RecurringPaymentInterval
  pub status : RecurringPaymentStatus
  pub description : Option ℕ
  pub merchant_id : Option ℕ
  pub merchant_email : Option ℕ
  pub payer_email : Option ℕ
  pub callback_url : Option ℕ
  pub metadata : Option ℕ
  pub created_by : ℕ
  pub next_run_at : ℕ
  pub trial_days : ℕ
  pub trial_ends_at : Option ℕ
  pub trial_ending_notified_at : Option ℕ
  pub last_run_at : Option ℕ
  pub end_at : Option ℕ
  pub max_occurrences : Option ℕ
  pub occurrences : ℕ
  pub consecutive_failures : ℕ
  pub notify_days_before : ℕ
  pub last_notified_cycle : Option ℕ
  pub cancelled_at : Option ℕ

pub data ChargeStatus : Type 0 where
  pending succeeded failed : ChargeStatus

abbrev pub is_pending_charge : ChargeStatus → Bool
is_pending_charge ChargeStatus.pending = true
is_pending_charge _ = false

pub record RecurringPaymentCharge : Type 0 where
  pub id : ℕ
  pub recurring_payment_id : ℕ
  pub cycle_number : ℕ
  pub payment_id : Option ℕ
  pub amount : ℕ
  pub status : ChargeStatus

pub record Repositories : Type 1 where
  pub plans : Repository RecurringPayment (λ r. r.id)
  pub charges : Repository RecurringPaymentCharge (λ r. r.id)
  pub keys : Repository IdempotencyKey (λ r. r.key)

-- What is sent about a plan: to its merchant, and to its payer about a cycle.
pub data Notice : Type 0 where
  trial_ending : ℕ → Notice
  upcoming_charge : ℕ → ℕ → Notice

-- The tables, the payments that `PaymentsService.create` made for plans, in order, what was sent,
-- and the coming faults of the database, as in `Model.State`.
pub record Books (repos : Repositories) : Type 0 where
  pub plans : repos.plans.Table
  pub charges : repos.charges.Table
  pub keys : repos.keys.Table
  pub payments : List ℕ
  pub sent : List Notice
  pub faults : List Bool

module _ {repos : Repositories} where
  -- One write: it throws, or it changes the books.
  abbrev pub write : (Books repos → Books repos) → Books repos → Result ⊤ × Books repos
  write f s = elim s.faults [
    | [] ↦ (ok tt, f s)
    | true ∷ rest ↦ (err failure, record s { faults = rest })
    | false ∷ rest ↦ (ok tt, f (record s { faults = rest }))
  ]
