-- ===== src/Recurring/Plans.antt =====
-- `create`, `findOne`, `update`, `pause`, `resume` and `cancel` of a plan.
use facilpay_api.Common.{
  ℕ, ◌+◌, ◌*◌, Bool, Option, none, some, ◌==◌, not, ltb, leb, if◌then◌else◌, or_else, or_other,
}
use facilpay_api.Common.Action.{
  Result, not_found, conflict, bad_request, ◌>>=◌, ◌>>◌, pure, gets, or_throw, throw_if,
}
use facilpay_api.Repository.{restrict}
use facilpay_api.Recurring.Entities.{
  RecurringPaymentInterval, RecurringPaymentStatus, RecurringPayment, Repositories, Books, write,
  is_active, is_paused, is_cancelled,
}

-- create-recurring-payment.dto.ts
pub record CreateRecurringPaymentDto : Type 0 where
  pub amount : ℕ
  pub currency : ℕ
  pub interval : RecurringPaymentInterval
  pub description : Option ℕ
  pub merchant_id : Option ℕ
  pub merchant_email : Option ℕ
  pub payer_email : Option ℕ
  pub callback_url : Option ℕ
  pub metadata : Option ℕ
  pub start_at : Option ℕ
  pub end_at : Option ℕ
  pub max_occurrences : Option ℕ
  pub trial_days : Option ℕ
  pub notify_days_before : Option ℕ

-- update-recurring-payment.dto.ts
pub record UpdateRecurringPaymentDto : Type 0 where
  pub amount : Option ℕ
  pub interval : Option RecurringPaymentInterval
  pub description : Option ℕ

-- A trial of a positive number of days ends so long after the start.
abbrev pub trial_end : ℕ → ℕ → Option ℕ
trial_end days start = if ltb 0 days then some (start + days * 86400000) else none

unfoldable pub new_plan : ℕ → ℕ → CreateRecurringPaymentDto → ℕ → RecurringPayment
new_plan new now dto created_by =
    let start = or_else dto.start_at now in
    let trial = trial_end (or_else dto.trial_days 0) start in
    record {
      id = new;
      amount = dto.amount;
      currency = dto.currency;
      interval = dto.interval;
      status = elim trial [
        | none ↦ RecurringPaymentStatus.active
        | some _ ↦ RecurringPaymentStatus.trialing
      ];
      description = dto.description;
      merchant_id = dto.merchant_id;
      merchant_email = dto.merchant_email;
      payer_email = dto.payer_email;
      callback_url = dto.callback_url;
      metadata = dto.metadata;
      created_by = created_by;
      next_run_at = or_else trial start;
      trial_days = or_else dto.trial_days 0;
      trial_ends_at = trial;
      trial_ending_notified_at = none;
      last_run_at = none;
      end_at = dto.end_at;
      max_occurrences = dto.max_occurrences;
      occurrences = 0;
      consecutive_failures = 0;
      notify_days_before = or_else dto.notify_days_before 3;
      last_notified_cycle = none;
      cancelled_at = none;
    }

abbrev pub ends_by : ℕ → Option ℕ → Bool
ends_by now none = mathlib.Core.Bool.false
ends_by now (some at) = leb at now

unfoldable pub edited : UpdateRecurringPaymentDto → RecurringPayment → RecurringPayment
edited dto plan = record plan {
  amount = or_else dto.amount plan.amount;
  interval = or_else dto.interval plan.interval;
  description = or_other dto.description plan.description;
}

-- A resumed plan that is overdue runs now.
unfoldable pub resumed : ℕ → RecurringPayment → RecurringPayment
resumed now plan = record plan {
  status = RecurringPaymentStatus.active;
  next_run_at = if ltb plan.next_run_at now then now else plan.next_run_at;
}

module _ {repos : Repositories} where
  abbrev pub save_plan : RecurringPayment → Books repos → Books repos
  save_plan plan b = record b { plans = repos.plans.save plan b.plans }

  unfoldable pub create :
      ℕ → ℕ → CreateRecurringPaymentDto → ℕ → Books repos → Result RecurringPayment × Books repos
  create new now dto created_by = do
    throw_if (ends_by now dto.end_at) bad_request
    let plan = new_plan new now dto created_by
    write (save_plan plan)
    pure plan

  -- `findOneBy({ id, createdBy })`
  pub find_one : ℕ → ℕ → Books repos → Result RecurringPayment × Books repos
  find_one id created_by = do
    found ← gets (λ b. restrict (λ p. p.created_by == created_by) (repos.plans.find_one id b.plans))
    or_throw found not_found

  unfoldable pub update :
      ℕ → ℕ → UpdateRecurringPaymentDto → Books repos → Result RecurringPayment × Books repos
  unfolding find_one
  update id created_by dto = do
    plan ← find_one id created_by
    let updated = edited dto plan
    write (save_plan updated)
    pure updated

  unfoldable pub pause : ℕ → ℕ → Books repos → Result RecurringPayment × Books repos
  unfolding find_one
  pause id created_by = do
    plan ← find_one id created_by
    throw_if (not (is_active plan.status)) conflict
    let updated = record plan { status = RecurringPaymentStatus.paused }
    write (save_plan updated)
    pure updated

  unfoldable pub resume : ℕ → ℕ → ℕ → Books repos → Result RecurringPayment × Books repos
  unfolding find_one
  resume now id created_by = do
    plan ← find_one id created_by
    throw_if (not (is_paused plan.status)) conflict
    let updated = resumed now plan
    write (save_plan updated)
    pure updated

  unfoldable pub cancel : ℕ → ℕ → ℕ → Books repos → Result RecurringPayment × Books repos
  unfolding find_one
  cancel now id created_by = do
    plan ← find_one id created_by
    throw_if (is_cancelled plan.status) conflict
    let updated = record plan { status = RecurringPaymentStatus.cancelled; cancelled_at = some now }
    write (save_plan updated)
    pure updated
