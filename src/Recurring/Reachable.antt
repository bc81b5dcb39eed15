-- ===== src/Recurring/Reachable.antt =====
-- The states that the plans can reach: calls of the service in any order, sweeps, and failing writes.
use facilpay_api.Common.{ℕ, ◌≡◌, ◌≤◌, ◌⊎◌, inl, inr, Bool, none, some, List, arith, Option-cases}
use facilpay_api.Recurring.Entities.{RecurringPaymentStatus, RecurringPayment, Repositories, Books}
use facilpay_api.Recurring.Plans.{
  CreateRecurringPaymentDto, UpdateRecurringPaymentDto, new_plan, create, update, edited, pause,
  resume, resumed, cancel,
}
use facilpay_api.Recurring.Execution.{Run, process_due_plans}
use facilpay_api.Recurring.Notifications.{Notifier, notify_trial_ending, notify_upcoming_charges}
use facilpay_api.Recurring.Kept.{
  Keeps, Keeps-AllLimited, notify_trial_ending-AllLimited, notify_upcoming_charges-AllLimited,
}
use facilpay_api.Recurring.Limits.{IsLimited, AllLimited, process_due_plans-AllLimited}

-- The validation of the DTO: a maximum that is given is at least one.
abbrev pub IsValid : CreateRecurringPaymentDto → Type 0
IsValid dto = elim dto.max_occurrences [ none ↦ Unit | some most ↦ 1 ≤ most ]

pub data Step {repos : Repositories} : Books repos → Books repos → Type 0 where
  creates :
      (new now by : ℕ) (dto : CreateRecurringPaymentDto) (b : Books repos)
      → IsValid dto
      → Step b (create new now dto by b).1
  updates :
      (id by : ℕ) (dto : UpdateRecurringPaymentDto) (b : Books repos)
      → Step b (update id by dto b).1
  pauses : (id by : ℕ) (b : Books repos) → Step b (pause id by b).1
  resumes : (now id by : ℕ) (b : Books repos) → Step b (resume now id by b).1
  cancels : (now id by : ℕ) (b : Books repos) → Step b (cancel now id by b).1
  sweeps : (run : Run) (b : Books repos) → Step b (process_due_plans run b).1
  warns : (run : Notifier) (b : Books repos) → Step b (notify_trial_ending run b).1
  reminds : (run : Notifier) (b : Books repos) → Step b (notify_upcoming_charges run b).1
  fails : (coming : List Bool) (b : Books repos) → Step b (record b { faults = coming })

pub data Reaches {repos : Repositories} : Books repos → Books repos → Type 0 where
  here : (b : Books repos) → Reaches b b
  then_step : (b c d : Books repos) → Reaches b c → Step c d → Reaches b d

new_plan-IsLimited :
    (new now by : ℕ) (dto : CreateRecurringPaymentDto)
    → IsValid dto
    → IsLimited (new_plan new now dto by)
unfolding new_plan
new_plan-IsLimited new now by dto h = ground arith

module _ {repos : Repositories} where
  create-Keeps :
      (new now by : ℕ) (dto : CreateRecurringPaymentDto) (b : Books repos)
      → IsValid dto
      → Keeps b (create new now dto by b).1
  unfolding create
  create-Keeps new now by dto b h =
      let saved : ((create new now dto by b).1.plans ≡ b.plans)
          ⊎ ((create new now dto by b).1.plans
              ≡ repos.plans.save (new_plan new now dto by) b.plans) =
        ground arith in
      elim saved [
        | inl same ↦ inl same
        | inr e ↦ inr (new_plan new now dto by, new_plan-IsLimited new now by dto h, e)
      ]

  -- An operation on the plan of an identifier: it saves a changed plan that stays limited, if it
  -- saves one.
  changed-Keeps :
      (id : ℕ) (f : RecurringPayment → RecurringPayment) (b b' : Books repos)
      → AllLimited repos.plans b.plans
      → (repos.plans.find_one id b.plans ≡ none → b'.plans ≡ b.plans)
      → ((p : RecurringPayment)
          → repos.plans.find_one id b.plans ≡ some p
          → IsLimited p
          → (b'.plans ≡ b.plans) ⊎ (IsLimited (f p) × (b'.plans ≡ repos.plans.save (f p) b.plans)))
      → Keeps b b'
  changed-Keeps id f b b' all absent present =
      elim (Option-cases (repos.plans.find_one id b.plans)) [
        | inl e ↦ inl (absent e)
        | inr (p, e) ↦ elim (present p e (all id p e)) [
          | inl same ↦ inl same
          | inr (limited, saved) ↦ inr (f p, limited, saved)
        ]
      ]

  update-Keeps :
      (id by : ℕ) (dto : UpdateRecurringPaymentDto) (b : Books repos)
      → AllLimited repos.plans b.plans
      → Keeps b (update id by dto b).1
  unfolding update edited
  update-Keeps id by dto b all =
      changed-Keeps id (edited dto) b (update id by dto b).1 all (λ e. ground (arith, e))
        (λ p e h. ground (arith, e, h))

  pause-Keeps :
      (id by : ℕ) (b : Books repos) → AllLimited repos.plans b.plans → Keeps b (pause id by b).1
  unfolding pause
  pause-Keeps id by b all =
      changed-Keeps id (λ p. record p { status = RecurringPaymentStatus.paused }) b
        (pause id by b).1 all (λ e. ground (arith, e)) (λ p e h. ground (arith, e, h))

  resume-Keeps :
      (now id by : ℕ) (b : Books repos)
      → AllLimited repos.plans b.plans
      → Keeps b (resume now id by b).1
  unfolding resume resumed
  resume-Keeps now id by b all =
      changed-Keeps id (resumed now) b (resume now id by b).1 all (λ e. ground (arith, e))
        (λ p e h. ground (arith, e, h))

  cancel-Keeps :
      (now id by : ℕ) (b : Books repos)
      → AllLimited repos.plans b.plans
      → Keeps b (cancel now id by b).1
  unfolding cancel
  cancel-Keeps now id by b all =
      changed-Keeps id
        (λ p. record p { status = RecurringPaymentStatus.cancelled; cancelled_at = some now }) b
        (cancel now id by b).1 all (λ e. ground (arith, e)) (λ p e h. ground (arith, e, h))

  Step-AllLimited :
      (b b' : Books repos)
      → Step b b'
      → AllLimited repos.plans b.plans
      → AllLimited repos.plans b'.plans
  Step-AllLimited b b' (creates new now by dto c h) all =
      Keeps-AllLimited b b' (create-Keeps new now by dto b h) all
  Step-AllLimited b b' (updates id by dto c) all =
      Keeps-AllLimited b b' (update-Keeps id by dto b all) all
  Step-AllLimited b b' (pauses id by c) all = Keeps-AllLimited b b' (pause-Keeps id by b all) all
  Step-AllLimited b b' (resumes now id by c) all =
      Keeps-AllLimited b b' (resume-Keeps now id by b all) all
  Step-AllLimited b b' (cancels now id by c) all =
      Keeps-AllLimited b b' (cancel-Keeps now id by b all) all
  Step-AllLimited b b' (sweeps run c) all = process_due_plans-AllLimited run b all
  Step-AllLimited b b' (warns run c) all = notify_trial_ending-AllLimited run b all
  Step-AllLimited b b' (reminds run c) all = notify_upcoming_charges-AllLimited run b all
  Step-AllLimited b b' (fails coming c) all = all

  -- If the counter of charges of each plan, its occurrences, is at or below the plan's maximum, and below
  -- it while the plan is not cancelled, that holds in every state that calls of the service with valid
  -- input, sweeps, notices and failing writes reach. The counter is what is bounded: a payment whose
  -- count could not be stored is not in it.
  pub Reaches-AllLimited :
      (b b' : Books repos)
      → Reaches b b'
      → AllLimited repos.plans b.plans
      → AllLimited repos.plans b'.plans
  Reaches-AllLimited b b' (here c) all = all
  Reaches-AllLimited b b' (then_step c d e path step) all =
      Step-AllLimited d b' step (Reaches-AllLimited b d path all)
