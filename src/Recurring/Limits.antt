-- ===== src/Recurring/Limits.antt =====
-- Proofs about the maximum number of charges of a plan (`maxOccurrences`) under `processDuePlans`.
use facilpay_api.Common.{
  ℕ, ◌+◌, ◌≡◌, ◌<◌, ◌≤◌, refl, sym, ◌⊎◌, inl, inr, Bool, true, false, Option, none, some, List, [],
  ◌∷◌, ◌==◌, arith, All, Bool-cases,
}
use mathlib.Core.Path.{subst}
use facilpay_api.Repository.{Repository}
use facilpay_api.Common.Action.{Result, Result-cases, ok, err}
use facilpay_api.Idempotency.{Response, null, value}
use facilpay_api.Recurring.Entities.{
  RecurringPaymentStatus, RecurringPayment, RecurringPaymentCharge, Repositories, Books,
  is_cancelled, write,
}
use facilpay_api.Recurring.Execution.{
  Run, started, advanced, Attempt, returned, thrown, advance, settle, pay, attempt, recover,
  execute_plan, execute_plans, concluded, mark_charge, pay_new, pay_checked, process_due_plans,
  is_due, new_charge, save_charge,
}

abbrev pub IsWithin : Option ℕ → ℕ → RecurringPaymentStatus → Type 0
IsWithin none n status = Unit
IsWithin (some most) n status = (n ≤ most) × (is_cancelled status ≡ false → n < most)

-- The charges of a plan stay at or below its maximum, and below it while the plan is not cancelled.
abbrev pub IsLimited : RecurringPayment → Type 0
IsLimited p = IsWithin p.max_occurrences p.occurrences p.status

-- Every plan of the table is limited.
abbrev pub AllLimited : (repo : Repository RecurringPayment (λ r. r.id)) → repo.Table → Type 0
AllLimited repo t = (k : ℕ) (p : RecurringPayment) → repo.find_one k t ≡ some p → IsLimited p

abbrev pub IsRunning : RecurringPayment → Type 0
IsRunning p = (is_cancelled p.status ≡ false) × IsLimited p

started-IsLimited : (p : RecurringPayment) → IsLimited p → IsLimited (started p)
started-IsLimited p h = ground arith

-- A plan that is charged was not cancelled.
advanced-IsLimited :
    (run : Run) (p : RecurringPayment)
    → is_cancelled p.status ≡ false
    → IsLimited p
    → IsLimited (advanced run p)
unfolding advanced
advanced-IsLimited run p running h = ground arith

with_failures-IsLimited :
    (n : ℕ) (p : RecurringPayment) → IsLimited p → IsLimited (record p { consecutive_failures = n })
with_failures-IsLimited n p h = h

module _ (repo : Repository RecurringPayment (λ r. r.id)) where
  pub save-AllLimited :
      (p : RecurringPayment) (t : repo.Table)
      → IsLimited p
      → AllLimited repo t
      → AllLimited repo (repo.save p t)
  save-AllLimited p t h all k q found = elim (Bool-cases (p.id == k)) [
    | inl e ↦ ground (arith, e, h, found, repo.find_one-save p k t)
    | inr e ↦ all k q (ground (arith, e, found, repo.find_one-save p k t))
  ]

  due-IsRunning :
      (run : Run) (t : repo.Table)
      → AllLimited repo t
      → (plans : List RecurringPayment)
      → All (λ a. (is_due run a ≡ true) × (repo.find_one a.id t ≡ some a)) plans
      → All IsRunning plans
  due-IsRunning run t all [] found = tt
  due-IsRunning run t all (p ∷ plans) ((due, here), found) =
      ((ground (arith, due), all p.id p here), due-IsRunning run t all plans found)

module _ {repos : Repositories} where
  -- How an attempt may end: the plan has moved on, or the plans are as they were.
  abbrev Fits :
      (RecurringPayment → Type 0) → RecurringPayment → Books repos → Attempt × Books repos → Type 0
  Fits P next b (returned, b') = b'.plans ≡ repos.plans.save next b.plans
  Fits P next b (thrown p charge, b') = P p × (b'.plans ≡ b.plans)

  module _ (run : Run) (P : RecurringPayment → Type 0) (plan : RecurringPayment) (now_fits : P plan)
      (next_fits : P (advanced run plan)) where
    advance-Fits :
        (charge : RecurringPaymentCharge) (b : Books repos)
        → Fits P (advanced run plan) b (advance run plan charge b)
    unfolding advance
    advance-Fits charge b = ground (arith, now_fits, next_fits)

    settle-Fits :
        (charge : RecurringPaymentCharge) (response : Response) (is_new : Bool) (b : Books repos)
        → Fits P (advanced run plan) b (settle run plan charge response is_new b)
    unfolding settle advance
    settle-Fits charge response is_new b = ground (arith, now_fits, next_fits)

    pay_new-Fits :
        (charge : RecurringPaymentCharge) (created : Result ℕ) (b : Books repos)
        → Fits P (advanced run plan) b (pay_new run plan charge created b)
    unfolding pay_new
    pay_new-Fits charge (err e) b = (now_fits, refl)
    pay_new-Fits charge (ok payment) b = settle-Fits charge (value payment) true _

    pay_checked-Fits :
        (charge : RecurringPaymentCharge) (existing : Result Response) (b : Books repos)
        → Fits P (advanced run plan) b (pay_checked run plan charge existing b)
    unfolding pay_checked
    pay_checked-Fits charge (err e) b = (now_fits, refl)
    pay_checked-Fits charge (ok null) b = pay_new-Fits charge (run.create_payment plan) b
    pay_checked-Fits charge (ok response) b = settle-Fits charge response false b

    pay-Fits :
        (charge : RecurringPaymentCharge) (b : Books repos)
        → Fits P (advanced run plan) b (pay run plan charge b)
    unfolding pay
    pay-Fits charge b = pay_checked-Fits charge _ _

  module _ (run : Run) (P : RecurringPayment → Type 0) (plan : RecurringPayment)
      (now_fits : P (started plan)) (next_fits : P (advanced run (started plan)))
      (counted : (n : ℕ) (p : RecurringPayment)
        → P p
        → P (record p { consecutive_failures = n })) where
    attempt-Fits : (b : Books repos) → Fits P (advanced run (started plan)) b (attempt run plan b)
    unfolding attempt
    attempt-Fits b = elim (Result-cases (write (save_charge (new_charge run plan)) b).0) [
      | inl (u, e) ↦
          let fits =
            pay-Fits run P (started plan) now_fits next_fits (new_charge run plan)
              (write (save_charge (new_charge run plan)) b).1 in
          ground (arith, e, fits)
      | inr (u, e) ↦ ground (arith, e, now_fits)
    ]

    -- The plans after a run: as they were, or with one saved that satisfies the predicate.
    abbrev pub Saves : Books repos → Books repos → Type 0
    Saves b b' =
        (b'.plans ≡ b.plans)
        ⊎ ((p : RecurringPayment) × P p × (b'.plans ≡ repos.plans.save p b.plans))

    recover_plans :
        (p : RecurringPayment) (charge : Option RecurringPaymentCharge) (b : Books repos)
        → ((recover run p charge b).1.plans ≡ b.plans)
          ⊎ ((recover run p charge b).1.plans
              ≡ repos.plans.save
                  (record p { consecutive_failures = p.consecutive_failures + 1 })
                  b.plans)
    unfolding recover mark_charge
    recover_plans p charge b = ground arith

    recover-Saves :
        (p : RecurringPayment) (charge : Option RecurringPaymentCharge) (b : Books repos)
        → P p
        → Saves b (recover run p charge b).1
    recover-Saves p charge b h = elim (recover_plans p charge b) [
      | inl e ↦ inl e
      | inr e ↦ inr (
        record p { consecutive_failures = p.consecutive_failures + 1 },
        counted (p.consecutive_failures + 1) p h,
        e,
      )
    ]

    concluded-Saves :
        (b : Books repos) (ended : Attempt × Books repos)
        → Fits P (advanced run (started plan)) b ended
        → Saves b (concluded run ended).1
    concluded-Saves b (returned, b') fits = inr (advanced run (started plan), next_fits, fits)
    concluded-Saves b (thrown p charge, b') (h, same) =
        let saved = recover-Saves p charge b' h in
        subst
          (λ t.
            (t' : repos.plans.Table)
            → (t' ≡ b'.plans) ⊎ ((p : RecurringPayment) × P p × (t' ≡ repos.plans.save p b'.plans))
            → (t' ≡ t) ⊎ ((p : RecurringPayment) × P p × (t' ≡ repos.plans.save p t)))
          same (λ t' x. x) _ saved

    pub execute_plan-Saves : (b : Books repos) → Saves b (execute_plan run plan b).1
    unfolding execute_plan
    execute_plan-Saves b = concluded-Saves b (attempt run plan b) (attempt-Fits b)

  execute_plan-AllLimited :
      (run : Run) (plan : RecurringPayment) (b : Books repos)
      → is_cancelled plan.status ≡ false
      → IsLimited plan
      → AllLimited repos.plans b.plans
      → AllLimited repos.plans (execute_plan run plan b).1.plans
  execute_plan-AllLimited run plan b running h all =
      let next =
        advanced-IsLimited run (started plan) (ground (arith, running))
          (started-IsLimited plan h) in
      elim (execute_plan-Saves run IsLimited plan (started-IsLimited plan h) next
        with_failures-IsLimited b) [
          | inl e ↦ subst (AllLimited repos.plans) (sym e) all
          | inr (p, limited, e) ↦
              subst (AllLimited repos.plans) (sym e)
                (save-AllLimited repos.plans p b.plans limited all)
        ]

  execute_plans-AllLimited :
      (run : Run) (plans : List RecurringPayment) (b : Books repos)
      → All IsRunning plans
      → AllLimited repos.plans b.plans
      → AllLimited repos.plans (execute_plans run plans b).1.plans
  unfolding execute_plans
  execute_plans-AllLimited run [] b runs all = all
  execute_plans-AllLimited run (p ∷ plans) b ((running, h), runs) all =
      let next = execute_plan-AllLimited run p b running h all in
      elim (Result-cases (execute_plan run p b).0) [
        | inl (u, e) ↦
            let eq : (execute_plans run (p ∷ plans) b).1.plans
                ≡ (execute_plans run plans (execute_plan run p b).1).1.plans =
              ground (arith, e) in
            subst (AllLimited repos.plans) (sym eq)
              (execute_plans-AllLimited run plans (execute_plan run p b).1 runs next)
        | inr (x, e) ↦
            let eq : (execute_plans run (p ∷ plans) b).1.plans ≡ (execute_plan run p b).1.plans =
              ground (arith, e) in
            subst (AllLimited repos.plans) (sym eq) next
      ]

  -- If each plan is at or below its maximum number of charges, and below it while it is not
  -- cancelled, that holds after a sweep, for any failures of payments and of the database.
  pub process_due_plans-AllLimited :
      (run : Run) (b : Books repos)
      → AllLimited repos.plans b.plans
      → AllLimited repos.plans (process_due_plans run b).1.plans
  unfolding process_due_plans
  process_due_plans-AllLimited run b all =
      execute_plans-AllLimited run (repos.plans.find (is_due run) b.plans) b
        (due-IsRunning repos.plans run b.plans all (repos.plans.find (is_due run) b.plans)
          (repos.plans.find_sound (is_due run) b.plans))
        all
