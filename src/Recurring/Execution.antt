-- ===== src/Recurring/Execution.antt =====
-- `executePlan` and `processDuePlans`: the sweep that charges the plans that are due.
--
-- What `PaymentsService.create` does, the number of the idempotency key of a plan and a time, the
-- hash of the request body, and the date one month later are arguments. The code calls
-- `this.notifyPlanPaused`, which no class declares: the call throws.
use facilpay_api.Common.{
  ℕ, ◌+◌, Bool, true, false, Option, none, some, List, [], ◌∷◌, ◌++◌, ◌&&◌, ◌||◌, ltb, leb,
  if◌then◌else◌, ⊤,
}
use facilpay_api.Common.Action.{Result, ok, err, failure}
use facilpay_api.Idempotency.{Response, null, value, returned as paid_by, check_key, store_key}
use facilpay_api.Recurring.Entities.{
  RecurringPaymentInterval, RecurringPaymentStatus, RecurringPayment, ChargeStatus,
  RecurringPaymentCharge, Repositories, Books, write, is_trialing, is_active, is_pending_charge,
}
use facilpay_api.Recurring.Plans.{save_plan}

-- What a run of the sweep takes from outside.
pub record Run : Type 0 where
  pub now : ℕ
  pub ttl_hours : ℕ
  -- `RECURRING_PAYMENT_AUTO_PAUSE_FAILURES`
  pub threshold : ℕ
  pub idempotency_key : ℕ → ℕ → ℕ
  pub request_hash : ℕ → ℕ → ℕ
  pub create_payment : RecurringPayment → Result ℕ
  pub add_month : ℕ → ℕ
  -- the identifier of the charge of a plan and a cycle
  pub new_charge_id : ℕ → ℕ → ℕ

-- Days of 24 hours.
pub compute_next_run_at : Run → RecurringPaymentInterval → ℕ → ℕ
compute_next_run_at run RecurringPaymentInterval.daily from = from + 86400000
compute_next_run_at run RecurringPaymentInterval.weekly from = from + 604800000
compute_next_run_at run RecurringPaymentInterval.monthly from = run.add_month from

-- A plan whose trial is over is active.
abbrev pub started : RecurringPayment → RecurringPayment
started plan = record plan {
  status = if is_trialing plan.status then RecurringPaymentStatus.active else plan.status;
}

unfoldable pub new_charge : Run → RecurringPayment → RecurringPaymentCharge
new_charge run plan = record {
  id = run.new_charge_id plan.id (plan.occurrences + 1);
  recurring_payment_id = plan.id;
  cycle_number = plan.occurrences + 1;
  payment_id = none;
  amount = plan.amount;
  status = ChargeStatus.pending;
}

abbrev pub at_most : Option ℕ → ℕ → Bool
at_most none n = false
at_most (some most) n = leb most n

abbrev pub is_after : ℕ → Option ℕ → Bool
is_after t none = false
is_after t (some e) = ltb e t

-- The plan after a charge: it is cancelled at its last occurrence or when the next one is too late.
unfoldable pub advanced : Run → RecurringPayment → RecurringPayment
unfolding compute_next_run_at
advanced run plan =
    let next = compute_next_run_at run plan.interval plan.next_run_at in
    let charged = record plan {
      last_run_at = some plan.next_run_at;
      occurrences = plan.occurrences + 1;
      next_run_at = next;
    } in
    if at_most plan.max_occurrences (plan.occurrences + 1) || is_after next plan.end_at
    then record charged { status = RecurringPaymentStatus.cancelled; cancelled_at = some run.now }
    else record charged { consecutive_failures = 0 }

-- How the `try` block ends: it returns, or it throws with the objects as they are then.
pub data Attempt : Type 0 where
  returned : Attempt
  thrown : RecurringPayment → Option RecurringPaymentCharge → Attempt

module _ (run : Run) where
  abbrev pub key_of : RecurringPayment → ℕ
  key_of plan = run.idempotency_key plan.id plan.next_run_at

  abbrev pub hash_of : RecurringPayment → ℕ
  hash_of plan = run.request_hash plan.id plan.next_run_at

  -- The condition of the query.
  abbrev pub is_due : RecurringPayment → Bool
  is_due plan = (is_active plan.status || is_trialing plan.status) && leb plan.next_run_at run.now

module _ {repos : Repositories} where
  -- A write in the `try` block, and the rest of the block.
  abbrev pub then_write :
      (Books repos → Books repos)
      → Attempt
      → (Books repos → Attempt × Books repos)
      → Books repos
      → Attempt × Books repos
  then_write f failed rest b =
      let (r, b') = write f b in elim r [ ok _ ↦ rest b' | err _ ↦ (failed, b') ]

  abbrev pub save_charge : RecurringPaymentCharge → Books repos → Books repos
  save_charge charge b = record b { charges = repos.charges.save charge b.charges }

  module _ (run : Run) where
    abbrev pub save_key : RecurringPayment → Response → Books repos → Books repos
    save_key plan response b = record b {
      keys =
          store_key repos.keys run.now run.ttl_hours (key_of run plan) (hash_of run plan) response
            b.keys;
    }

    -- The end of the block: the plan moves on.
    unfoldable pub advance :
        RecurringPayment → RecurringPaymentCharge → Books repos → Attempt × Books repos
    advance plan charge =
        let next = advanced run plan in
        then_write (save_plan next) (thrown next (some charge)) (λ b. (returned, b))

    -- The charge takes the payment of the response and succeeds; that of a new payment is stored.
    unfoldable pub settle :
        RecurringPayment
        → RecurringPaymentCharge
        → Response
        → Bool
        → Books repos
        → Attempt × Books repos
    settle plan charge response is_new =
        let paid = record charge {
          payment_id = paid_by response;
          status = ChargeStatus.succeeded;
        } in
        then_write (save_charge paid) (thrown plan (some paid)) (λ b.
          if is_new
          then then_write (save_key plan response) (thrown plan (some paid)) (advance plan paid) b
          else advance plan paid b)

    -- What follows `PaymentsService.create`.
    unfoldable pub pay_new :
        RecurringPayment → RecurringPaymentCharge → Result ℕ → Books repos → Attempt × Books repos
    pay_new plan charge (err _) b = (thrown plan (some charge), b)
    pay_new plan charge (ok payment) b =
        settle plan charge (value payment) true (record b { payments = b.payments ++ payment ∷ [] })

    -- What follows `checkKey`: the payment is created, unless the key has the response of a run.
    unfoldable pub pay_checked :
        RecurringPayment
        → RecurringPaymentCharge
        → Result Response
        → Books repos
        → Attempt × Books repos
    pay_checked plan charge (err _) b = (thrown plan (some charge), b)
    pay_checked plan charge (ok null) b = pay_new plan charge (run.create_payment plan) b
    pay_checked plan charge (ok response) b = settle plan charge response false b

    unfoldable pub pay :
        RecurringPayment → RecurringPaymentCharge → Books repos → Attempt × Books repos
    pay plan charge b =
        let (existing, keys) =
          check_key repos.keys run.now run.ttl_hours (key_of run plan) (hash_of run plan) b.keys in
        pay_checked plan charge existing (record b { keys = keys })

    -- The `try` block.
    unfoldable pub attempt : RecurringPayment → Books repos → Attempt × Books repos
    attempt plan =
        let charge = new_charge run plan in
        then_write (save_charge charge) (thrown (started plan) none) (pay (started plan) charge)

    -- The charge of a failed run is marked, if it was still pending.
    unfoldable pub mark_charge :
        Option RecurringPaymentCharge → Books repos → Result ⊤ × Books repos
    mark_charge none b = (ok tt, b)
    mark_charge (some charge) b =
        if is_pending_charge charge.status
        then write (save_charge (record charge { status = ChargeStatus.failed })) b
        else (ok tt, b)

    -- The `catch` block. At the threshold the plan is paused in memory, and the missing method throws
    -- before the plan is saved.
    unfoldable pub recover :
        RecurringPayment → Option RecurringPaymentCharge → Books repos → Result ⊤ × Books repos
    unfolding mark_charge
    recover plan charge b =
        let failures = plan.consecutive_failures + 1 in
        let (marked, b') = mark_charge charge b in
        elim marked [
          | err e ↦ (err e, b')
          | ok _ ↦
              if leb run.threshold failures
              then (err failure, b')
              else write (save_plan (record plan { consecutive_failures = failures })) b'
        ]

    -- The `try` block with its `catch`.
    abbrev pub concluded : Attempt × Books repos → Result ⊤ × Books repos
    concluded (returned, b) = (ok tt, b)
    concluded (thrown p charge, b) = recover p charge b

    unfoldable pub execute_plan : RecurringPayment → Books repos → Result ⊤ × Books repos
    execute_plan plan b = concluded (attempt plan b)

    -- The loop of `processDuePlans`: what a plan throws ends the sweep.
    unfoldable pub execute_plans : List RecurringPayment → Books repos → Result ⊤ × Books repos
    execute_plans [] b = (ok tt, b)
    execute_plans (plan ∷ plans) b =
        let executed = execute_plan plan b in
        elim executed.0 [ ok _ ↦ execute_plans plans executed.1 | err e ↦ (err e, executed.1) ]

    unfoldable pub process_due_plans : Books repos → Result ⊤ × Books repos
    process_due_plans b = execute_plans (repos.plans.find (is_due run) b.plans) b
