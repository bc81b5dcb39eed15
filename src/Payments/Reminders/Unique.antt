-- ===== src/Payments/Reminders/Unique.antt =====
-- A payment has one reminder of each type.
use facilpay_api.Common.{
  ℕ, ◌≡◌, refl, sym, ◌∙◌, ap, inl, inr, true, none, some, ◌==◌, first, arith, Bool-cases, ==_iff,
}
use facilpay_api.Common.Lists.{In-first}
use facilpay_api.Repository.{Repository}
use facilpay_api.Payments.Reminders.{InvoiceReminderType, same_type, InvoiceReminder, is_reminder}

same_type_refl : (type : InvoiceReminderType) → same_type type type ≡ true
same_type_refl InvoiceReminderType.before = refl
same_type_refl InvoiceReminderType.on_due = refl
same_type_refl InvoiceReminderType.after = refl

module _ (repo : Repository InvoiceReminder (λ r. r.id)) where
  -- Two rows of the same payment and type are one row.
  abbrev pub AllUnique : repo.Table → Type 0
  AllUnique t =
      (j k : ℕ) (q r : InvoiceReminder)
      → repo.find_one j t ≡ some q
      → repo.find_one k t ≡ some r
      → q.payment_id ≡ r.payment_id
      → q.type ≡ r.type
      → q.id ≡ r.id

  -- No row is one of that payment and type.
  abbrev pub IsFree : ℕ → InvoiceReminderType → repo.Table → Type 0
  IsFree payment_id type t =
      (k : ℕ) (r : InvoiceReminder)
      → repo.find_one k t ≡ some r
      → r.payment_id ≡ payment_id
      → r.type ≡ type
      → ⊥

  pub find-IsFree :
      (payment_id : ℕ) (type : InvoiceReminderType) (t : repo.Table)
      → first (repo.find (is_reminder payment_id type) t) ≡ none
      → IsFree payment_id type t
  find-IsFree payment_id type t absent k r found same_payment same =
      let key = repo.key-find_one k t r found in
      let own = ap (λ i. repo.find_one i t) key ∙ found in
      let matches : is_reminder payment_id type r ≡ true =
        ground (arith, same_payment, same, ==_iff r.payment_id payment_id, same_type_refl type) in
      In-first r (repo.find (is_reminder payment_id type) t) absent
        (repo.find_complete (is_reminder payment_id type) t r matches own)

  pub save-AllUnique :
      (row : InvoiceReminder) (t : repo.Table)
      → IsFree row.payment_id row.type t
      → AllUnique t
      → AllUnique (repo.save row t)
  save-AllUnique row t free all j k q r at_j at_k same_payment same =
      elim (Bool-cases (row.id == j)) [
        | inl e ↦ elim (Bool-cases (row.id == k)) [
          | inl f ↦
              let is_q : row ≡ q = ground (arith, e, at_j, repo.find_one-save row j t) in
              let is_r : row ≡ r = ground (arith, f, at_k, repo.find_one-save row k t) in
              ap (λ x. x.id) (sym is_q ∙ is_r)
          | inr f ↦
              let is_q : row ≡ q = ground (arith, e, at_j, repo.find_one-save row j t) in
              let old : repo.find_one k t ≡ some r =
                ground (arith, f, at_k, repo.find_one-save row k t) in
              absurd (
                free k r old (sym same_payment ∙ ap (λ x. x.payment_id) (sym is_q))
                  (sym same ∙ ap (λ x. x.type) (sym is_q)))
        ]
        | inr e ↦ elim (Bool-cases (row.id == k)) [
          | inl f ↦
              let is_r : row ≡ r = ground (arith, f, at_k, repo.find_one-save row k t) in
              let old : repo.find_one j t ≡ some q =
                ground (arith, e, at_j, repo.find_one-save row j t) in
              absurd (
                free j q old (same_payment ∙ ap (λ x. x.payment_id) (sym is_r))
                  (same ∙ ap (λ x. x.type) (sym is_r)))
          | inr f ↦
              all j k q r (ground (arith, e, at_j, repo.find_one-save row j t))
                (ground (arith, f, at_k, repo.find_one-save row k t)) same_payment same
        ]
      ]
