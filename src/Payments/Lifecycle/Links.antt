-- ===== src/Payments/Lifecycle/Links.antt =====
-- `PaymentLinksService.incrementCompletions` of modules/payment-links/payment-links.service.ts, which
-- counts the completed payments of a link and deactivates the link at its maximum.
pub mod Laws
use facilpay_api.Common.{ℕ, ◌+◌, none, some, false, leb, ◌==◌, if◌then◌else◌, ⊤}
use facilpay_api.Common.Action.{Result}
use facilpay_api.Model.Entities.{PaymentLink}
use facilpay_api.Model.State.{Database, State, write}

pub completed_link : PaymentLink → PaymentLink
completed_link link = record link {
  completions = link.completions + 1;
  is_active = elim link.max_completions [
    | none ↦ link.is_active
    | some most ↦ if leb most (link.completions + 1) then false else link.is_active
  ];
}

module _ {db : Database} where
  unfoldable pub increment_completions : ℕ → State db → Result ⊤ × State db
  increment_completions id =
      write (λ t. record t { links = db.links.update (λ l. l.id == id) completed_link t.links })
