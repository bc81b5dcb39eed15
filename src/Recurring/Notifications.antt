-- ===== src/Recurring/Notifications.antt =====
-- `notifyTrialEnding` and `notifyUpcomingCharges`: the sweeps that send notices about plans. Whether the
-- webhook and the mail throw is an argument.
use facilpay_api.Common.{
  ℕ, ◌+◌, ◌-◌, ◌/◌, Bool, false, not, ◌&&◌, ◌||◌, Option, none, some, List, [], ◌∷◌, ◌++◌, ltb, leb,
  ◌==◌, some_eq, is_some, any, if◌then◌else◌, ⊤,
}
use facilpay_api.Common.Int.{ℤ, pos, neg, leb_ℤ}
use facilpay_api.Common.Action.{Result, ok, err}
use facilpay_api.Recurring.Entities.{
  RecurringPayment, Notice, trial_ending, upcoming_charge, Repositories, Books, write, is_trialing,
  is_active,
}
use facilpay_api.Recurring.Plans.{save_plan}

pub record Notifier : Type 0 where
  pub now : ℕ
  -- `dispatchEventToMerchant` and `sendPayerRecurringPaymentReminder`
  pub dispatched : RecurringPayment → Result ⊤
  pub mailed : RecurringPayment → Result ⊤

-- In milliseconds.
abbrev pub three_days : ℕ
three_days = 259200000

abbrev pub one_day : ℕ
one_day = 86400000

abbrev pub is_soon : ℕ → Option ℕ → Bool
is_soon now none = false
is_soon now (some end_) = ltb now end_ && leb end_ (now + three_days)

-- The plans that the loop does not skip.
unfoldable pub is_trial_ending : ℕ → RecurringPayment → Bool
is_trial_ending now plan =
    is_some plan.merchant_id
    && not (is_some plan.trial_ending_notified_at)
    && is_soon now plan.trial_ends_at

abbrev pub get_cycle_number : RecurringPayment → ℕ
get_cycle_number plan = plan.occurrences + 1

-- `Math.ceil` of the difference in days
unfoldable pub get_days_until_charge : ℕ → ℕ → ℤ
get_days_until_charge next_run_at from =
    if leb from next_run_at
    then pos ((next_run_at - from + (one_day - 1)) / one_day)
    else neg (pos ((from - next_run_at) / one_day))

unfoldable pub is_upcoming : ℕ → RecurringPayment → Bool
is_upcoming now plan =
    let days = get_days_until_charge plan.next_run_at now in
    leb_ℤ days (pos plan.notify_days_before) && leb_ℤ (pos 0) days

-- Both emails are there, and reminders are wanted.
abbrev pub is_notifiable : RecurringPayment → Bool
is_notifiable plan =
    is_some plan.payer_email && not (plan.notify_days_before == 0) && is_some plan.merchant_email

-- The keys of `notifiedCycleNumbers`.
abbrev pub has_key : ℕ → ℕ → List (ℕ × ℕ) → Bool
has_key id cycle keys = any (λ k. (k.0 == id) && (k.1 == cycle)) keys

module _ {repos : Repositories} where
  abbrev pub send_notice : Notice → Books repos → Books repos
  send_notice notice b = record b { sent = b.sent ++ notice ∷ [] }

  -- What a call to another service threw ends the sweep; if it returned, the notice is out.
  abbrev pub then_send :
      Result ⊤
      → Notice
      → (Books repos → Result ⊤ × Books repos)
      → Books repos
      → Result ⊤ × Books repos
  then_send (err e) notice rest b = (err e, b)
  then_send (ok u) notice rest b = rest (send_notice notice b)

  module _ (run : Notifier) where
    unfoldable pub notify_trial : RecurringPayment → Books repos → Result ⊤ × Books repos
    notify_trial plan b =
        if is_trial_ending run.now plan
        then then_send (run.dispatched plan) (trial_ending plan.id)
            (write (save_plan (record plan { trial_ending_notified_at = some run.now }))) b
        else (ok tt, b)

    unfoldable pub notify_trials : List RecurringPayment → Books repos → Result ⊤ × Books repos
    notify_trials [] b = (ok tt, b)
    notify_trials (plan ∷ plans) b =
        let notified = notify_trial plan b in
        elim notified.0 [ ok _ ↦ notify_trials plans notified.1 | err e ↦ (err e, notified.1) ]

    unfoldable pub notify_trial_ending : Books repos → Result ⊤ × Books repos
    notify_trial_ending b =
        notify_trials (repos.plans.find (λ plan. is_trialing plan.status) b.plans) b

    unfoldable pub mark_notified : RecurringPayment → Books repos → Result ⊤ × Books repos
    mark_notified plan =
        write (save_plan (record plan { last_notified_cycle = some (get_cycle_number plan) }))

    -- A plan that is not notifiable is marked as well.
    unfoldable pub notify_payer : RecurringPayment → Books repos → Result ⊤ × Books repos
    notify_payer plan b =
        if is_notifiable plan
        then then_send (run.mailed plan) (upcoming_charge plan.id (get_cycle_number plan))
            (mark_notified plan) b
        else mark_notified plan b

    -- With the keys that this sweep has notified.
    unfoldable pub notify_plans :
        List (ℕ × ℕ) → List RecurringPayment → Books repos → Result ⊤ × Books repos
    notify_plans seen [] b = (ok tt, b)
    notify_plans seen (plan ∷ plans) b =
        let cycle = get_cycle_number plan in
        let notified = notify_payer plan b in
        let skipped = notify_plans seen plans b in
        if some_eq plan.last_notified_cycle cycle || has_key plan.id cycle seen
        then skipped
        else if is_upcoming run.now plan
        then (elim notified.0 [
          | ok _ ↦ notify_plans ((plan.id, cycle) ∷ seen) plans notified.1
          | err e ↦ (err e, notified.1)
        ])
        else skipped

    unfoldable pub notify_upcoming_charges : Books repos → Result ⊤ × Books repos
    notify_upcoming_charges b =
        notify_plans []
          (repos.plans.find (λ plan. is_active plan.status && leb 1 plan.notify_days_before)
            b.plans)
          b
