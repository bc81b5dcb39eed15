-- ===== src/Payments/Reminders/Once.antt =====
-- No payer is reminded twice in the same way.
use facilpay_api.Common.{◌≡◌, sym, inl, inr, none, List, [], ◌∷◌, arith, Bool-cases, Option-cases}
use mathlib.Core.Path.{subst}
use facilpay_api.Common.Int.{ℤ}
use facilpay_api.Common.Action.{Result, Result-cases, ok, err}
use facilpay_api.Common.Post.{Post, returned, threw, post_bind, post_state, post_write}
use facilpay_api.Common.Store.{write}
use facilpay_api.Model.Entities.{Payment}
use facilpay_api.Payments.Reminders.{
  InvoiceReminderType, InvoiceReminder, Outside, Repositories, get_reminder_type, is_today,
  is_remindable, State, marked, mark_overdue_payments, find_reminder, send_reminder_email, remind,
  process_reminder, process_offsets, remind_payment, remind_payments, send_reminders,
  process_invoice_reminders,
}
use facilpay_api.Payments.Reminders.Unique.{AllUnique, find-IsFree, save-AllUnique}

module _ (repos : Repositories) where
  abbrev pub AllOnce : State repos → Type 0
  AllOnce s = AllUnique repos.reminders s.tables.reminders

  abbrev Keeps : {A : Type 0} → Result A × State repos → Type 0
  Keeps {A = A} = Post (λ (a : A) s. AllOnce s) AllOnce

  send_reminder_email-tables :
      (outside : Outside) (payment : Payment) (type : InvoiceReminderType) (s : State repos)
      → (send_reminder_email repos outside payment type s).1.tables ≡ s.tables
  unfolding send_reminder_email
  send_reminder_email-tables outside payment type s = ground arith

  post_any :
      {A : Type 0} {Q : A → State repos → Type 0} {E : State repos → Type 0}
      (r : Result A × State repos)
      → ((a : A) → Q a r.1)
      → E r.1
      → Post Q E r
  post_any (ok a, s) q e = returned (q a)
  post_any (err x, s) q e = threw e

  remind-Keeps :
      (outside : Outside) (payment : Payment) (type : InvoiceReminderType) (s : State repos)
      → find_reminder repos payment.id type s ≡ none
      → AllOnce s
      → Keeps (remind repos outside payment type s)
  unfolding remind
  remind-Keeps outside payment type s absent all =
      let row : InvoiceReminder = record {
        id = outside.new payment.id type;
        payment_id = payment.id;
        type = type;
        sent_at = outside.now;
      } in
      let same = send_reminder_email-tables outside payment type s in
      let free = find-IsFree repos.reminders payment.id type s.tables.reminders absent in
      post_bind (send_reminder_email repos outside payment type)
        (λ _. write (λ t. record t { reminders = repos.reminders.save row t.reminders })) s
        (post_any {Q = λ a t. t.tables ≡ s.tables}
          (send_reminder_email repos outside payment type s) (λ a. same)
          (subst (λ t. AllUnique repos.reminders t.reminders) (sym same) all))
        (λ a t e.
          post_write (λ x. AllUnique repos.reminders x.reminders)
            (λ x. AllUnique repos.reminders x.reminders)
            (λ x. record x { reminders = repos.reminders.save row x.reminders }) t
            (subst (λ x. AllUnique repos.reminders x.reminders) (sym e) all)
            (subst (λ x. AllUnique repos.reminders (repos.reminders.save row x.reminders)) (sym e)
              (save-AllUnique repos.reminders row s.tables.reminders free all)))

  process_reminder-Keeps :
      (outside : Outside) (payment : Payment) (offset : ℤ) (s : State repos)
      → AllOnce s
      → Keeps (process_reminder repos outside payment offset s)
  unfolding process_reminder
  process_reminder-Keeps outside payment offset s all = elim (Option-cases payment.due_date) [
    | inl e ↦ rw (e, process_reminder) (returned all)
    | inr (due, e) ↦ elim (Bool-cases (is_today due offset outside.now)) [
      | inr other ↦ rw (e, other, process_reminder) (returned all)
      | inl today ↦
          elim (Option-cases (find_reminder repos payment.id (get_reminder_type offset) s)) [
            | inr (existing, f) ↦ rw (e, today, f, process_reminder) (returned all)
            | inl absent ↦
                rw (e, today, absent, process_reminder)
                  (remind-Keeps outside payment (get_reminder_type offset) s absent all)
          ]
    ]
  ]

  process_offsets-Keeps :
      (outside : Outside) (payment : Payment) (offsets : List ℤ) (s : State repos)
      → AllOnce s
      → Keeps (process_offsets repos outside payment offsets s)
  unfolding process_offsets
  process_offsets-Keeps outside payment [] s all = returned all
  process_offsets-Keeps outside payment (offset ∷ offsets) s all =
      post_bind (process_reminder repos outside payment offset)
        (λ _. process_offsets repos outside payment offsets) s
        (process_reminder-Keeps outside payment offset s all)
        (λ a t h. process_offsets-Keeps outside payment offsets t h)

  remind_payment-Keeps :
      (outside : Outside) (payment : Payment) (s : State repos)
      → AllOnce s
      → Keeps (remind_payment repos outside payment s)
  unfolding remind_payment
  remind_payment-Keeps outside payment s all = elim (Option-cases payment.merchant_id) [
    | inl e ↦ rw (e, remind_payment) (returned all)
    | inr (merchant, e) ↦ elim (Bool-cases payment.reminders_enabled) [
      | inr off ↦ rw (e, off, remind_payment) (returned all)
      | inl on ↦ elim (Result-cases (outside.settings merchant)) [
        | inr (x, f) ↦ rw (e, on, f, remind_payment) (threw all)
        | inl (settings, f) ↦ elim (Bool-cases settings.reminders_enabled) [
          | inr off ↦ rw (e, on, f, off, remind_payment) (returned all)
          | inl wanted ↦
              rw (e, on, f, wanted, remind_payment)
                (process_offsets-Keeps outside payment settings.reminder_offsets s all)
        ]
      ]
    ]
  ]

  remind_payments-Keeps :
      (outside : Outside) (payments : List Payment) (s : State repos)
      → AllOnce s
      → Keeps (remind_payments repos outside payments s)
  unfolding remind_payments
  remind_payments-Keeps outside [] s all = returned all
  remind_payments-Keeps outside (payment ∷ payments) s all =
      post_bind (remind_payment repos outside payment) (λ _. remind_payments repos outside payments)
        s (remind_payment-Keeps outside payment s all)
        (λ a t h. remind_payments-Keeps outside payments t h)

  -- If a payment has at most one reminder of each type, that holds after the daily sweep, whatever
  -- settings and offsets the merchants have and whatever fails.
  pub process_invoice_reminders-AllOnce :
      (outside : Outside) (s : State repos)
      → AllOnce s
      → AllOnce (process_invoice_reminders repos outside s).1
  unfolding process_invoice_reminders mark_overdue_payments send_reminders
  process_invoice_reminders-AllOnce outside s all =
      post_state (process_invoice_reminders repos outside s) (
        post_bind (mark_overdue_payments repos outside.now) (λ _. send_reminders repos outside) s
          (post_write (λ x. AllUnique repos.reminders x.reminders)
            (λ x. AllUnique repos.reminders x.reminders) (marked repos outside.now) s all all)
          (λ a t h.
            remind_payments-Keeps outside
              (repos.payments.find (is_remindable outside.now) t.tables.payments) t h))
