-- ===== src/Payments/Reminders.antt =====
-- invoice-reminder.service.ts and invoice-reminder.entity.ts: the sweep that marks payments as overdue and
-- reminds their payers. `MerchantsService` declares neither getSettingsWithDefaults nor
-- getBrandingWithDefaults; what they give or throw is an argument. Days are those of 24 hours. The
-- mail is a TODO of the code: what is kept of it is the line of the log.
pub mod Unique
pub mod Once
use facilpay_api.Common.{
  ℕ, zero, suc, ◌+◌, ◌/◌, Bool, true, false, ◌&&◌, ◌||◌, Option, none, some, List, [], ◌∷◌, ltb,
  leb, ◌==◌, if◌then◌else◌, first, ⊤,
}
use facilpay_api.Common.Int.{ℤ, pos, negsuc, ◌+ℤ◌, leb_ℤ}
use facilpay_api.Common.Action.{Result, ok, err, ◌>>=◌, ◌>>◌, pure}
use facilpay_api.Common.Store.{Store, write, emit}
use facilpay_api.Repository.{Repository}
use facilpay_api.Model.Entities.{PaymentStatus, is_status, Payment}

pub data InvoiceReminderType : Type 0 where
  before on_due after : InvoiceReminderType

abbrev pub same_type : InvoiceReminderType → InvoiceReminderType → Bool
same_type InvoiceReminderType.before InvoiceReminderType.before = true
same_type InvoiceReminderType.on_due InvoiceReminderType.on_due = true
same_type InvoiceReminderType.after InvoiceReminderType.after = true
same_type _ _ = false

pub record InvoiceReminder : Type 0 where
  pub id : ℕ
  pub payment_id : ℕ
  pub type : InvoiceReminderType
  pub sent_at : ℕ

pub record MerchantSettings : Type 0 where
  pub reminders_enabled : Bool
  pub reminder_offsets : List ℤ

pub data Sent : Type 0 where
  -- 'Would send reminder email'
  would_send : ℕ → InvoiceReminderType → Sent

pub record Outside : Type 0 where
  pub now : ℕ
  pub settings : ℕ → Result MerchantSettings
  pub branding : ℕ → Result ⊤
  pub new : ℕ → InvoiceReminderType → ℕ

pub record Repositories : Type 1 where
  pub payments : Repository Payment (λ r. r.id)
  pub reminders : Repository InvoiceReminder (λ r. r.id)

abbrev pub one_day : ℕ
one_day = 86400000

-- The condition of the update.
unfoldable pub is_late : ℕ → Payment → Bool
is_late now p =
    is_status p.status PaymentStatus.pending
    && elim p.due_date [ none ↦ false | some due ↦ ltb due now ]
    && p.reminders_enabled

-- The conditions of the query: a due date from thirty days ago on.
unfoldable pub is_remindable : ℕ → Payment → Bool
is_remindable now p =
    (is_status p.status PaymentStatus.pending || is_status p.status PaymentStatus.overdue)
    && elim p.due_date [ none ↦ false | some due ↦ leb now (due + 2592000000) ]

unfoldable pub get_reminder_type : ℤ → InvoiceReminderType
get_reminder_type (negsuc n) = InvoiceReminderType.before
get_reminder_type (pos zero) = InvoiceReminderType.on_due
get_reminder_type (pos (suc n)) = InvoiceReminderType.after

-- The day of the due date, moved by the offset, is the present one.
unfoldable pub is_today : ℕ → ℤ → ℕ → Bool
is_today due offset now =
    let day = pos (due / one_day) +ℤ offset in
    let today = pos (now / one_day) in leb_ℤ day today && leb_ℤ today day

abbrev pub is_reminder : ℕ → InvoiceReminderType → InvoiceReminder → Bool
is_reminder payment_id type r = r.payment_id == payment_id && same_type r.type type

module _ (repos : Repositories) where
  pub record Tables : Type 0 where
    pub payments : repos.payments.Table
    pub reminders : repos.reminders.Table

  abbrev pub State : Type 0
  State = Store Tables Sent

  abbrev pub marked : ℕ → Tables → Tables
  marked now t = record t {
    payments =
        repos.payments.update (is_late now) (λ p. record p { status = PaymentStatus.overdue })
          t.payments;
  }

  unfoldable pub mark_overdue_payments : ℕ → State → Result ⊤ × State
  mark_overdue_payments now = write (marked now)

  abbrev pub find_reminder : ℕ → InvoiceReminderType → State → Option InvoiceReminder
  find_reminder payment_id type s =
      first (repos.reminders.find (is_reminder payment_id type) s.tables.reminders)

  module _ (outside : Outside) where
    -- The branding may throw; without a merchant its identifier is the empty text, 0.
    unfoldable pub send_reminder_email : Payment → InvoiceReminderType → State → Result ⊤ × State
    send_reminder_email payment type s = elim payment.payer_email [
      | none ↦ (ok tt, s)
      | some email ↦ elim (outside.branding (elim payment.merchant_id [ none ↦ 0 | some m ↦ m ])) [
        | err e ↦ (err e, s)
        | ok u ↦ emit (would_send payment.id type ∷ []) s
      ]
    ]

    unfoldable pub remind : Payment → InvoiceReminderType → State → Result ⊤ × State
    remind payment type =
        let reminder : InvoiceReminder = record {
          id = outside.new payment.id type;
          payment_id = payment.id;
          type = type;
          sent_at = outside.now;
        } in
        send_reminder_email payment type
        >> write (λ t. record t { reminders = repos.reminders.save reminder t.reminders })

    unfoldable pub process_reminder : Payment → ℤ → State → Result ⊤ × State
    process_reminder payment offset s = elim payment.due_date [
      | none ↦ (ok tt, s)
      | some due ↦
          if is_today due offset outside.now
          then (elim (find_reminder payment.id (get_reminder_type offset) s) [
            | some existing ↦ (ok tt, s)
            | none ↦ remind payment (get_reminder_type offset) s
          ])
          else (ok tt, s)
    ]

    unfoldable pub process_offsets : Payment → List ℤ → State → Result ⊤ × State
    process_offsets payment [] = pure tt
    process_offsets payment (offset ∷ offsets) =
        process_reminder payment offset >> process_offsets payment offsets

    unfoldable pub remind_payment : Payment → State → Result ⊤ × State
    remind_payment payment s = elim payment.merchant_id [
      | none ↦ (ok tt, s)
      | some merchant ↦
          if payment.reminders_enabled
          then (elim (outside.settings merchant) [
            | err e ↦ (err e, s)
            | ok settings ↦
                if settings.reminders_enabled
                then process_offsets payment settings.reminder_offsets s
                else (ok tt, s)
          ])
          else (ok tt, s)
    ]

    unfoldable pub remind_payments : List Payment → State → Result ⊤ × State
    remind_payments [] = pure tt
    remind_payments (payment ∷ payments) = remind_payment payment >> remind_payments payments

    unfoldable pub send_reminders : State → Result ⊤ × State
    send_reminders s =
        remind_payments (repos.payments.find (is_remindable outside.now) s.tables.payments) s

    unfoldable pub process_invoice_reminders : State → Result ⊤ × State
    process_invoice_reminders = mark_overdue_payments outside.now >> send_reminders
