-- ===== src/Examples/Recurring.antt =====
-- The sweep over recurring payments, at concrete tables.
use facilpay_api.Common.{ℕ, ◌+◌, ◌*◌, Bool, none, some, List, [], ◌∷◌, arith}
use facilpay_api.Common.Action.{Result, ok}
use facilpay_api.Repository.Rows.{rows}
use facilpay_api.Idempotency.{value, IdempotencyKey}
use facilpay_api.Recurring.Entities.{
  RecurringPayment, RecurringPaymentInterval, RecurringPaymentStatus, Repositories, Books,
}
use facilpay_api.Recurring.Execution.{Run, process_due_plans}
use facilpay_api.Recurring.Plans.{CreateRecurringPaymentDto, create}
use facilpay_api.Recurring.Reachable.{Reaches, here, then_step, creates, sweeps, Reaches-AllLimited}
use facilpay_api.Recurring.Limits.{AllLimited}

abbrev books : Repositories
books = record { plans = rows (λ r. r.id); charges = rows (λ r. r.id); keys = rows (λ r. r.key) }

-- A weekly plan that was charged twice, and three times at most.
abbrev plan : RecurringPayment
plan = record {
  id = 1;
  amount = 500;
  currency = 1;
  merchant_email = none;
  payer_email = none;
  callback_url = none;
  metadata = none;
  trial_days = 0;
  notify_days_before = 3;
  last_notified_cycle = none;
  interval = RecurringPaymentInterval.weekly;
  status = RecurringPaymentStatus.active;
  description = none;
  merchant_id = none;
  created_by = 4;
  next_run_at = 100;
  trial_ends_at = none;
  trial_ending_notified_at = none;
  last_run_at = none;
  end_at = none;
  max_occurrences = some 3;
  occurrences = 2;
  consecutive_failures = 0;
  cancelled_at = none;
}

abbrev run : ℕ → Result ℕ → Run
run threshold created = record {
  now = 200;
  ttl_hours = 24;
  threshold = threshold;
  idempotency_key = λ id at. id + at;
  request_hash = λ id at. id + 2 * at;
  create_payment = λ _. created;
  add_month = λ at. at + 2592000000;
  new_charge_id = λ id cycle. id + cycle;
}

abbrev keys_before : List IdempotencyKey → List Bool → Books books
keys_before keys faults = record {
  plans = plan ∷ [];
  charges = [];
  keys = keys;
  payments = [];
  sent = [];
  faults = faults;
}

abbrev paid_key : IdempotencyKey
paid_key = record { key = 101; request_hash = 201; response = value 55; expires_at = 900 }

limited : AllLimited books.plans (keys_before [] []).plans
limited k p e = ground arith

abbrev yearly : CreateRecurringPaymentDto
yearly = record {
  amount = 500;
  currency = 1;
  interval = RecurringPaymentInterval.monthly;
  description = none;
  merchant_id = none;
  merchant_email = none;
  payer_email = none;
  callback_url = none;
  metadata = none;
  start_at = none;
  end_at = none;
  max_occurrences = some 12;
  trial_days = none;
  notify_days_before = none;
}

abbrev no_plans : Books books
no_plans = record { plans = []; charges = []; keys = []; payments = []; sent = []; faults = [] }

abbrev one_plan : Books books
one_plan = (create 6 50 yearly 4 no_plans).1

created_and_swept : Reaches no_plans (process_due_plans (run 3 (ok 55)) one_plan).1
created_and_swept =
    then_step no_plans one_plan (process_due_plans (run 3 (ok 55)) one_plan).1
      (then_step no_plans no_plans one_plan (here no_plans)
        (creates 6 50 4 yearly no_plans (omega arith)))
      (sweeps (run 3 (ok 55)) one_plan)

no_plans-AllLimited : AllLimited books.plans no_plans.plans
no_plans-AllLimited k p e = ground arith

Reaches-AllLimited_example :
    AllLimited books.plans (process_due_plans (run 3 (ok 55)) one_plan).1.plans
Reaches-AllLimited_example =
    Reaches-AllLimited no_plans (process_due_plans (run 3 (ok 55)) one_plan).1 created_and_swept
      no_plans-AllLimited
