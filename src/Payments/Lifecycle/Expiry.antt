-- ===== src/Payments/Lifecycle/Expiry.antt =====
-- `expirePendingPayments` and `expirePayment`: the sweep that runs every minute. The order in which
-- the database returns the rows is a parameter; the code starts the updates together and waits for
-- all of them, and they are taken here in the order of the list.
pub mod Complete
use facilpay_api.Common.{
  ℕ, ◌≡◌, ◌≤◌, refl, ◌∙◌, ◌⊎◌, Option-cases, inl, inr, Bool, true, false, none, some, List, [], ◌∷◌,
  ◌&&◌, leb, arith, All, All-take, take,
}
use facilpay_api.Common.Action.{Result, ◌>>◌, pure}
use facilpay_api.Model.Entities.{PaymentStatus, is_status, Payment}
use facilpay_api.Model.State.{Database, State, sse, WebhookEvent, write, emit}
use facilpay_api.Payments.Lifecycle.Cancel.{notify_merchant}

-- The condition of the query.
abbrev pub is_overdue : ℕ → Payment → Bool
is_overdue now p =
    is_status p.status PaymentStatus.pending
    && elim p.expires_at [ none ↦ false | some at ↦ leb at now ]

pub expired_payment : ℕ → Payment → Payment
expired_payment now payment = record payment {
  status = PaymentStatus.expired;
  expired_at = some now;
}

-- A payment that was pending at or past the end of its time, and the same with nothing changed but
-- the status, which is expired, and the time of that.
pub record IsExpiry (now : ℕ) (p q : Payment) : Type 0 where
  pub ends : ℕ
  pub was_pending : p.status ≡ PaymentStatus.pending
  pub had_end : p.expires_at ≡ some ends
  pub ended : ends ≤ now
  pub changed : q ≡ record p { status = PaymentStatus.expired; expired_at = some now }

is_overdue_cases :
    (now : ℕ) (p : Payment) → is_overdue now p ≡ true → IsExpiry now p (expired_payment now p)
unfolding expired_payment
is_overdue_cases now p late = elim (Option-cases p.expires_at) [
  | inl never ↦ absurd (ground (arith, never, late))
  | inr (ends, has) ↦ record {
    ends = ends;
    was_pending = ground (arith, has, late);
    had_end = has;
    ended = ground (arith, has, late);
    changed = refl;
  }
]

module _ {db : Database} where
  pub expire_payment : ℕ → Payment → State db → Result Payment × State db
  expire_payment now payment = do
    let updated = expired_payment now payment
    write (λ t. record t { payments = db.payments.save updated t.payments })
    emit (sse updated.id updated.status ∷ notify_merchant WebhookEvent.payment_expired updated)
    pure updated

  -- `Promise.allSettled`: an update that throws does not stop the others.
  pub expire_all : ℕ → List Payment → State db → State db
  expire_all now [] s = s
  expire_all now (p ∷ rest) s = expire_all now rest (expire_payment now p s).1

  module _ (order : List Payment → List Payment) where
    pub expire_pending_payments : ℕ → ℕ → State db → State db
    expire_pending_payments now batch_size s =
        expire_all now
          (take batch_size (order (db.payments.find (is_overdue now) s.tables.payments))) s

  -- What the sweep may have done to the payment of a key since `s₀`: nothing, or it expired the
  -- payment that was pending there past its time.
  abbrev pub Expires : ℕ → State db → State db → ℕ → Type 0
  Expires now s₀ s k =
      (db.payments.find_one k s.tables.payments ≡ db.payments.find_one k s₀.tables.payments)
      ⊎ ((p : Payment) × (db.payments.find_one k s₀.tables.payments ≡ some p)
          × (is_overdue now p ≡ true)
          × (db.payments.find_one k s.tables.payments ≡ some (expired_payment now p)))

  abbrev IsDue : ℕ → State db → Payment → Type 0
  IsDue now s₀ p =
      (is_overdue now p ≡ true) × (db.payments.find_one p.id s₀.tables.payments ≡ some p)

  pub expire_payment_find :
      (now : ℕ) (p : Payment) (s : State db) (k : ℕ)
      → let after = (expire_payment now p s).1.tables.payments in
        (db.payments.find_one k after ≡ db.payments.find_one k s.tables.payments)
        ⊎ ((p.id ≡ k) × (db.payments.find_one k after ≡ some (expired_payment now p)))
  unfolding expire_payment expired_payment
  expire_payment_find now p s k =
      ground (arith, db.payments.find_one-save (expired_payment now p) k s.tables.payments)

  module _ (now : ℕ) (s₀ : State db) where
    expire_payment-Expires :
        (p : Payment) (s : State db) (k : ℕ)
        → IsDue now s₀ p
        → Expires now s₀ s k
        → Expires now s₀ (expire_payment now p s).1 k
    expire_payment-Expires p s k due h = elim (expire_payment_find now p s k) [
      | inl same ↦ elim h [
        | inl e ↦ inl (same ∙ e)
        | inr (q, found, late, e) ↦ inr (q, found, late, same ∙ e)
      ]
      | inr (is_key, e) ↦ inr (p, rw (← is_key) due.1, due.0, e)
    ]

    expire_all-Expires :
        (l : List Payment) (s : State db) (k : ℕ)
        → All (IsDue now s₀) l
        → ((j : ℕ) → Expires now s₀ s j)
        → Expires now s₀ (expire_all now l s) k
    unfolding expire_all
    expire_all-Expires [] s k due h = h k
    expire_all-Expires (p ∷ l) s k due h =
        expire_all-Expires l (expire_payment now p s).1 k due.1
          (λ j. expire_payment-Expires p s j due.0 (h j))

  pub expire_pending_payments-Expires :
      (order : List Payment → List Payment) (now batch_size : ℕ) (s : State db) (k : ℕ)
      → ((P : Payment → Type 0) (l : List Payment) → All P l → All P (order l))
      → Expires now s (expire_pending_payments order now batch_size s) k
  unfolding expire_pending_payments
  expire_pending_payments-Expires order now batch_size s k ordered =
      expire_all-Expires now s _ s k
        (All-take _ batch_size _
          (ordered _ _ (db.payments.find_sound (is_overdue now) s.tables.payments)))
        (λ j. inl refl)

  -- The sweep leaves the payment of a key as it was, or changes one that was pending at or past the end
  -- of its time, and in that nothing but the status, to expired, and the time of the expiry; whichever
  -- writes fail and whatever order the rows come in, as long as it brings no new rows.
  pub expire_pending_payments-IsExpiry :
      (order : List Payment → List Payment) (now batch_size : ℕ) (s : State db) (k : ℕ)
      → ((P : Payment → Type 0) (l : List Payment) → All P l → All P (order l))
      → let after = (expire_pending_payments order now batch_size s).tables.payments in
        (db.payments.find_one k after ≡ db.payments.find_one k s.tables.payments)
        ⊎ ((p : Payment) × (q : Payment) × (db.payments.find_one k s.tables.payments ≡ some p)
            × (db.payments.find_one k after ≡ some q)
            × IsExpiry now p q)
  expire_pending_payments-IsExpiry order now batch_size s k ordered =
      elim (expire_pending_payments-Expires order now batch_size s k ordered) [
        | inl same ↦ inl same
        | inr (p, found, late, e) ↦
            inr (p, expired_payment now p, found, e, is_overdue_cases now p late)
      ]
