-- ===== src/Recurring/Kept.antt =====
-- The sweeps that send notices change nothing that limits a plan.
use facilpay_api.Common.{
  ℕ, ◌≡◌, ◌⊎◌, inl, inr, Bool, true, some, ◌&&◌, leb, List, [], ◌∷◌, ◌||◌, some_eq, All, All-map,
  arith, sym, Bool-cases,
}
use mathlib.Core.Path.{subst}
use facilpay_api.Common.Action.{Result-cases}
use facilpay_api.Recurring.Entities.{RecurringPayment, Repositories, Books, is_active, is_trialing}
use facilpay_api.Recurring.Notifications.{
  Notifier, get_cycle_number, has_key, is_upcoming, notify_trial, notify_trials,
  notify_trial_ending, mark_notified, notify_payer, notify_plans, notify_upcoming_charges,
}
use facilpay_api.Recurring.Limits.{IsLimited, AllLimited, save-AllLimited}

module _ {repos : Repositories} where
  abbrev pub Keeps : Books repos → Books repos → Type 0
  Keeps b b' =
      (b'.plans ≡ b.plans)
      ⊎ ((p : RecurringPayment) × IsLimited p × (b'.plans ≡ repos.plans.save p b.plans))

  pub Keeps-AllLimited :
      (b b' : Books repos)
      → Keeps b b'
      → AllLimited repos.plans b.plans
      → AllLimited repos.plans b'.plans
  Keeps-AllLimited b b' (inl same) all = subst (AllLimited repos.plans) (sym same) all
  Keeps-AllLimited b b' (inr (p, limited, saved)) all =
      subst (AllLimited repos.plans) (sym saved) (save-AllLimited repos.plans p b.plans limited all)

  -- The current rows that a query returns are limited.
  found-IsLimited :
      (p : RecurringPayment → Bool) (b : Books repos)
      → AllLimited repos.plans b.plans
      → All IsLimited (repos.plans.find p b.plans)
  found-IsLimited p b all =
      All-map
        (λ (a : RecurringPayment). (p a ≡ true) × (repos.plans.find_one a.id b.plans ≡ some a))
        IsLimited (λ a h. all a.id a h.1) (repos.plans.find p b.plans)
        (repos.plans.find_sound p b.plans)

  notify_trial-AllLimited :
      (run : Notifier) (plan : RecurringPayment) (b : Books repos)
      → IsLimited plan
      → AllLimited repos.plans b.plans
      → AllLimited repos.plans (notify_trial run plan b).1.plans
  unfolding notify_trial
  notify_trial-AllLimited run plan b limited =
      let marked : RecurringPayment = record plan { trial_ending_notified_at = some run.now } in
      let after = (notify_trial run plan b).1 in
      let effect : (after.plans ≡ b.plans) ⊎ (after.plans ≡ repos.plans.save marked b.plans) =
        ground arith in
      Keeps-AllLimited b after
        (elim effect [ inl same ↦ inl same | inr saved ↦ inr (marked, limited, saved) ])

  notify_payer-AllLimited :
      (run : Notifier) (plan : RecurringPayment) (b : Books repos)
      → IsLimited plan
      → AllLimited repos.plans b.plans
      → AllLimited repos.plans (notify_payer run plan b).1.plans
  unfolding notify_payer mark_notified
  notify_payer-AllLimited run plan b limited =
      let marked : RecurringPayment = record plan {
        last_notified_cycle = some (get_cycle_number plan);
      } in
      let after = (notify_payer run plan b).1 in
      let effect : (after.plans ≡ b.plans) ⊎ (after.plans ≡ repos.plans.save marked b.plans) =
        ground arith in
      Keeps-AllLimited b after
        (elim effect [ inl same ↦ inl same | inr saved ↦ inr (marked, limited, saved) ])

  notify_trials-AllLimited :
      (run : Notifier) (plans : List RecurringPayment) (b : Books repos)
      → All IsLimited plans
      → AllLimited repos.plans b.plans
      → AllLimited repos.plans (notify_trials run plans b).1.plans
  unfolding notify_trials
  notify_trials-AllLimited run [] b limited all = all
  notify_trials-AllLimited run (plan ∷ plans) b limited all =
      let next = notify_trial-AllLimited run plan b limited.0 all in
      elim (Result-cases (notify_trial run plan b).0) [
        | inl (u, e) ↦
            rw (e, notify_trials)
              (notify_trials-AllLimited run plans (notify_trial run plan b).1 limited.1 next)
        | inr (x, e) ↦ rw (e, notify_trials) next
      ]

  notify_plans-AllLimited :
      (run : Notifier) (seen : List (ℕ × ℕ)) (plans : List RecurringPayment) (b : Books repos)
      → All IsLimited plans
      → AllLimited repos.plans b.plans
      → AllLimited repos.plans (notify_plans run seen plans b).1.plans
  unfolding notify_plans
  notify_plans-AllLimited run seen [] b limited all = all
  notify_plans-AllLimited run seen (plan ∷ plans) b limited all =
      let cycle = get_cycle_number plan in
      let skipped = notify_plans-AllLimited run seen plans b limited.1 all in
      let next = notify_payer-AllLimited run plan b limited.0 all in
      elim (Bool-cases (some_eq plan.last_notified_cycle cycle || has_key plan.id cycle seen)) [
        | inl done ↦ rw (done, notify_plans) skipped
        | inr new ↦ elim (Bool-cases (is_upcoming run.now plan)) [
          | inr later ↦ rw (new, later, notify_plans) skipped
          | inl soon ↦ elim (Result-cases (notify_payer run plan b).0) [
            | inl (u, e) ↦
                rw (new, soon, e, notify_plans)
                  (notify_plans-AllLimited run ((plan.id, cycle) ∷ seen) plans
                    (notify_payer run plan b).1 limited.1 next)
            | inr (x, e) ↦ rw (new, soon, e, notify_plans) next
          ]
        ]
      ]

  pub notify_trial_ending-AllLimited :
      (run : Notifier) (b : Books repos)
      → AllLimited repos.plans b.plans
      → AllLimited repos.plans (notify_trial_ending run b).1.plans
  unfolding notify_trial_ending
  notify_trial_ending-AllLimited run b all =
      notify_trials-AllLimited run (repos.plans.find (λ plan. is_trialing plan.status) b.plans) b
        (found-IsLimited (λ plan. is_trialing plan.status) b all) all

  pub notify_upcoming_charges-AllLimited :
      (run : Notifier) (b : Books repos)
      → AllLimited repos.plans b.plans
      → AllLimited repos.plans (notify_upcoming_charges run b).1.plans
  unfolding notify_upcoming_charges
  notify_upcoming_charges-AllLimited run b all =
      let wanted : RecurringPayment → Bool =
        λ plan. is_active plan.status && leb 1 plan.notify_days_before in
      notify_plans-AllLimited run [] (repos.plans.find wanted b.plans) b
        (found-IsLimited wanted b all) all
