-- ===== src/Payments/Lifecycle/Links/Laws.antt =====
-- The maximum of a payment link (`maxCompletions`) under `incrementCompletions`.
use facilpay_api.Common.{
  ℕ, ◌≡◌, ◌<◌, ◌==◌, true, Option, none, some, arith, Option-cases, inl, inr, refl,
}
use facilpay_api.Model.Entities.{PaymentLink}
use facilpay_api.Model.State.{Database, State}
use facilpay_api.Payments.Lifecycle.Links.{completed_link, increment_completions}

abbrev pub IsBelow : ℕ → Option ℕ → Type 0
IsBelow n none = Unit
IsBelow n (some most) = n < most

-- An active link has fewer completions than its maximum.
abbrev pub IsOpen : PaymentLink → Type 0
IsOpen link = link.is_active ≡ true → IsBelow link.completions link.max_completions

completed_link-IsOpen : (link : PaymentLink) → IsOpen link → IsOpen (completed_link link)
unfolding completed_link
completed_link-IsOpen link h = ground arith

completed_link-id : (link : PaymentLink) → (completed_link link).id ≡ link.id
unfolding completed_link
completed_link-id link = refl

abbrev pub AllOpen : {db : Database} → State db → Type 0
AllOpen {db} s =
    (k : ℕ) (link : PaymentLink) → db.links.find_one k s.tables.links ≡ some link → IsOpen link

module _ {db : Database} where
  -- If each active link has fewer completions than its maximum, that holds after a completion is
  -- counted, whether the write fails or not.
  increment_completions-AllOpen :
      (id : ℕ) (s : State db) → AllOpen s → AllOpen (increment_completions id s).1
  unfolding increment_completions
  increment_completions-AllOpen id s all k link e =
      elim (Option-cases (db.links.find_one k s.tables.links)) [
        | inl absent ↦ ground (
          arith,
          absent,
          db.links.find_one-update (λ l. l.id == id) completed_link k s.tables.links
              completed_link-id,
        )
        | inr (old, found) ↦ ground (
          arith,
          found,
          all k old found,
          completed_link-IsOpen old (all k old found),
          db.links.find_one-update (λ l. l.id == id) completed_link k s.tables.links
              completed_link-id,
        )
      ]
