-- ===== src/Recurring/Charges.antt =====
-- How `executePlan` charges a plan, on its several outcomes.
use facilpay_api.Common.{
  ℕ, ◌+◌, ◌≡◌, ◌<◌, ◌≤◌, ap, ◌∙◌, true, false, none, some, [], ◌∷◌, ◌++◌, arith,
}
use facilpay_api.Common.Action.{Error, ok, err, failure}
use facilpay_api.Idempotency.{value, IdempotencyKey, is_expired, check_key}
use facilpay_api.Recurring.Entities.{RecurringPayment, Repositories, Books}
use facilpay_api.Recurring.Execution.{
  Run, started, advanced, key_of, hash_of, new_charge, execute_plan, attempt, pay, pay_checked,
  pay_new, settle, advance, recover, mark_charge,
}

module _ {repos : Repositories} where
  -- A plan whose key has a valid row of the same request, with the response of an earlier run,
  -- creates no payment, whatever fails.
  execute_plan_paid :
      (run : Run) (plan : RecurringPayment) (row : IdempotencyKey) (v : ℕ) (b : Books repos)
      → repos.keys.find_one (key_of run plan) b.keys ≡ some row
      → is_expired run.now row ≡ false
      → row.request_hash ≡ hash_of run plan
      → row.response ≡ value v
      → (execute_plan run plan b).1.payments ≡ b.payments
  unfolding execute_plan attempt pay pay_checked settle advance recover mark_charge check_key
  execute_plan_paid run plan row v b found fresh same paid = ground arith

  -- When no write fails, a plan whose key has no row and whose payment is created returns, creates
  -- that one payment, and is saved as moved on to its next time.
  pub execute_plan_first :
      (run : Run) (plan : RecurringPayment) (payment : ℕ) (b : Books repos)
      → b.faults ≡ []
      → repos.keys.find_one (key_of run plan) b.keys ≡ none
      → run.create_payment (started plan) ≡ ok payment
      → let done = execute_plan run plan b in
        (done.0 ≡ ok tt)
        × (done.1.payments ≡ b.payments ++ payment ∷ [])
        × (done.1.plans ≡ repos.plans.save (advanced run (started plan)) b.plans)
  unfolding execute_plan attempt pay pay_checked pay_new settle advance recover mark_charge
      check_key
  execute_plan_first run plan payment b calm absent created = ground arith

  -- When no write fails, a plan whose key has no row and whose payment is refused, below the
  -- threshold of failures, returns, creates no payment, and is saved with one more failure, due at
  -- the same time.
  pub execute_plan_failed :
      (run : Run) (plan : RecurringPayment) (e : Error) (b : Books repos)
      → b.faults ≡ []
      → repos.keys.find_one (key_of run plan) b.keys ≡ none
      → run.create_payment (started plan) ≡ err e
      → plan.consecutive_failures + 1 < run.threshold
      → let done = execute_plan run plan b in
        let counted = record (started plan) {
          consecutive_failures = plan.consecutive_failures + 1;
        } in
        (done.0 ≡ ok tt)
        × (done.1.payments ≡ b.payments)
        × (done.1.plans ≡ repos.plans.save counted b.plans)
  unfolding execute_plan attempt pay pay_checked pay_new settle advance recover mark_charge
      check_key new_charge
  execute_plan_failed run plan e b calm absent refused few = ground arith

  -- When no write fails and a plan whose key has no row is refused its payment at the threshold of
  -- failures, the run throws, and the plans stay as they were.
  execute_plan_pause :
      (run : Run) (plan : RecurringPayment) (e : Error) (b : Books repos)
      → b.faults ≡ []
      → repos.keys.find_one (key_of run plan) b.keys ≡ none
      → run.create_payment (started plan) ≡ err e
      → run.threshold ≤ plan.consecutive_failures + 1
      → let done = execute_plan run plan b in
        (done.0 ≡ err failure) × (done.1.payments ≡ b.payments) × (done.1.plans ≡ b.plans)
  unfolding execute_plan attempt pay pay_checked pay_new settle advance recover mark_charge
      check_key new_charge
  execute_plan_pause run plan e b calm absent refused many = ground arith

  execute_plan_broken :
      (run : Run) (plan : RecurringPayment) (payment : ℕ) (b : Books repos)
      → b.faults ≡ false ∷ true ∷ []
      → repos.keys.find_one (key_of run plan) b.keys ≡ none
      → run.create_payment (started plan) ≡ ok payment
      → plan.consecutive_failures + 1 < run.threshold
      → let done = execute_plan run plan b in
        let counted = record (started plan) {
          consecutive_failures = plan.consecutive_failures + 1;
        } in
        (done.0 ≡ ok tt)
        × (done.1.payments ≡ b.payments ++ payment ∷ [])
        × (repos.keys.find_one (key_of run plan) done.1.keys ≡ none)
        × (done.1.faults ≡ [])
        × (done.1.plans ≡ repos.plans.save counted b.plans)
  unfolding execute_plan attempt pay pay_checked pay_new settle advance recover mark_charge
      check_key new_charge
  execute_plan_broken run plan payment b broken absent created few = ground arith

  -- When the second write of a run, the one after the payment, fails, and the plan is below the
  -- threshold of failures and its key has no row, the run returns, the plan is saved as due with
  -- one more failure, and its next run, if its payment is created, creates a second payment.
  execute_plan_twice :
      (run : Run) (plan : RecurringPayment) (payment again : ℕ) (b : Books repos)
      → b.faults ≡ false ∷ true ∷ []
      → repos.keys.find_one (key_of run plan) b.keys ≡ none
      → plan.consecutive_failures + 1 < run.threshold
      → let counted = record (started plan) {
        consecutive_failures = plan.consecutive_failures + 1;
      } in
        run.create_payment (started plan) ≡ ok payment
        → run.create_payment (started counted) ≡ ok again
        → let failed = execute_plan run plan b in
          let next = execute_plan run counted failed.1 in
          (failed.0 ≡ ok tt)
          × (failed.1.plans ≡ repos.plans.save counted b.plans)
          × (next.0 ≡ ok tt)
          × (next.1.payments ≡ (b.payments ++ payment ∷ []) ++ again ∷ [])
  execute_plan_twice run plan payment again b broken absent few created created_again =
      let counted = record (started plan) {
        consecutive_failures = plan.consecutive_failures + 1;
      } in
      let (done, paid, missing, calm, saved) =
        execute_plan_broken run plan payment b broken absent created few in
      let (done', paid', _) =
        execute_plan_first run counted again (execute_plan run plan b).1 calm missing
          created_again in
      (done, saved, done', paid' ∙ ap (λ l. l ++ again ∷ []) paid)
