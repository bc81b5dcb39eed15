-- ===== src/Examples/Reminders.antt =====
-- The theorem on the reminders of payments, at a payment that is due today.
use facilpay_api.Common.{true, some, [], ◌∷◌, arith}
use facilpay_api.Common.Int.{pos}
use facilpay_api.Common.Action.{ok}
use facilpay_api.Repository.Rows.{rows}
use facilpay_api.Model.Entities.{PaymentStatus, Payment}
use facilpay_api.Payments.Reminders.{Outside, Repositories, State, process_invoice_reminders}
use facilpay_api.Payments.Reminders.Once.{AllOnce, process_invoice_reminders-AllOnce}
use facilpay_api.Examples.Data.{payment}

abbrev repos : Repositories
repos = record { payments = rows (λ r. r.id); reminders = rows (λ r. r.id) }

abbrev due : Payment
due = record (payment PaymentStatus.pending) {
  due_date = some 200;
  merchant_id = some 3;
  payer_email = some 4;
  reminders_enabled = true;
}

-- The offset 0 stands in the settings twice.
abbrev outside : Outside
outside = record {
  now = 300;
  settings = λ m. ok (record { reminders_enabled = true; reminder_offsets = pos 0 ∷ pos 0 ∷ [] });
  branding = λ m. ok tt;
  new = λ p type. p;
}

abbrev state : State repos
state = record { tables = record { payments = due ∷ []; reminders = [] }; outbox = []; faults = [] }

process_invoice_reminders-AllOnce_example :
    AllOnce repos (process_invoice_reminders repos outside state).1
process_invoice_reminders-AllOnce_example =
    process_invoice_reminders-AllOnce repos outside state
      (λ j k q r at_j at_k same_payment same. ground (arith, at_j))
