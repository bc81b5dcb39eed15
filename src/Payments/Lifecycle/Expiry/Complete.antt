-- ===== src/Payments/Lifecycle/Expiry/Complete.antt =====
-- Which payments a run of `expirePendingPayments` reaches.
use facilpay_api.Common.{
  ℕ, suc, zero, ◌≡◌, ◌≤◌, refl, ap, inl, inr, true, false, some, List, [], ◌∷◌, arith, In, take,
  length, All,
}
use facilpay_api.Model.Entities.{PaymentStatus, Payment}
use facilpay_api.Model.State.{Database, State}
use facilpay_api.Payments.Lifecycle.Expiry.{
  is_overdue, expired_payment, expire_payment, expire_all, expire_pending_payments,
  expire_payment_find, expire_pending_payments-Expires,
}

take_all : {A : Type 0} (n : ℕ) (l : List A) → length l ≤ n → take n l ≡ l
take_all zero [] h = refl
take_all zero (x ∷ l) h = absurd (omega (arith, h))
take_all (suc n) [] h = refl
take_all (suc n) (x ∷ l) h = ap (λ t. x ∷ t) (take_all n l (omega (arith, h)))

expired_payment-not_overdue :
    (now : ℕ) (p : Payment) → is_overdue now (expired_payment now p) ≡ false
unfolding expired_payment
expired_payment-not_overdue now p = refl

module _ {db : Database} (now : ℕ) where
  -- The payment of the key is not overdue.
  abbrev IsSettled : ℕ → State db → Type 0
  IsSettled k s =
      (q : Payment) → db.payments.find_one k s.tables.payments ≡ some q → is_overdue now q ≡ false

  expire_payment-IsSettled :
      (k : ℕ) (p : Payment) (s : State db) → IsSettled k s → IsSettled k (expire_payment now p s).1
  expire_payment-IsSettled k p s h q e = elim (expire_payment_find now p s k) [
    | inl same ↦ h q (rw same at e)
    | inr (is_key, expired) ↦ ground (arith, e, expired, expired_payment-not_overdue now p)
  ]

  expire_payment-settles :
      (p : Payment) (s : State db) → s.faults ≡ [] → IsSettled p.id (expire_payment now p s).1
  unfolding expire_payment expired_payment
  expire_payment-settles p s f q e = ground (
    arith,
    e,
    f,
    db.payments.find_one-save (expired_payment now p) p.id s.tables.payments,
    expired_payment-not_overdue now p,
  )

  expire_payment-faults :
      (p : Payment) (s : State db) → s.faults ≡ [] → (expire_payment now p s).1.faults ≡ []
  unfolding expire_payment
  expire_payment-faults p s f = ground arith

  expire_all-IsSettled :
      (k : ℕ) (l : List Payment) (s : State db) → IsSettled k s → IsSettled k (expire_all now l s)
  unfolding expire_all
  expire_all-IsSettled k [] s h = h
  expire_all-IsSettled k (p ∷ l) s h = expire_all-IsSettled k l _ (expire_payment-IsSettled k p s h)

  expire_all-settles :
      (p : Payment) (l : List Payment) (s : State db)
      → s.faults ≡ []
      → In p l
      → IsSettled p.id (expire_all now l s)
  unfolding expire_all
  expire_all-settles p [] s f m = absurd m
  expire_all-settles p (x ∷ l) s f (inl e) =
      rw (e) (expire_all-IsSettled x.id l (expire_payment now x s).1 (expire_payment-settles x s f))
  expire_all-settles p (x ∷ l) s f (inr m) =
      expire_all-settles p l (expire_payment now x s).1 (expire_payment-faults x s f) m

  expire_overdue :
      (order : List Payment → List Payment) (batch_size : ℕ) (s : State db) (p : Payment)
      → ((P : Payment → Type 0) (l : List Payment) → All P l → All P (order l))
      → ((x : Payment) (l : List Payment) → In x l → In x (order l))
      → length (order (db.payments.find (is_overdue now) s.tables.payments)) ≤ batch_size
      → s.faults ≡ []
      → db.payments.find_one p.id s.tables.payments ≡ some p
      → is_overdue now p ≡ true
      → db.payments.find_one p.id (expire_pending_payments order now batch_size s).tables.payments
        ≡ some (expired_payment now p)
  unfolding expire_pending_payments
  expire_overdue order batch_size s p ordered kept large f found late =
      let due = order (db.payments.find (is_overdue now) s.tables.payments) in
      let settled : IsSettled p.id (expire_all now (take batch_size due) s) =
        rw (take_all batch_size due large) (
          expire_all-settles p due s f (
            kept p _
              (db.payments.find_complete (is_overdue now) s.tables.payments p late found))) in
      elim (expire_pending_payments-Expires order now batch_size s p.id ordered) [
        | inl same ↦ ground (arith, same, found, late, settled p)
        | inr (q, here, was_late, e) ↦ ground (arith, here, found, e)
      ]

  -- When no write fails, and the batch is at least the number of overdue payments, the sweep stores each
  -- payment that is pending at or past the end of its time with the status expired and the time of that,
  -- and nothing else of it changed, whatever order the rows come in.
  pub expire_pending_payments_complete :
      (order : List Payment → List Payment) (batch_size ends : ℕ) (s : State db) (p : Payment)
      → ((P : Payment → Type 0) (l : List Payment) → All P l → All P (order l))
      → ((x : Payment) (l : List Payment) → In x l → In x (order l))
      → length (order (db.payments.find (is_overdue now) s.tables.payments)) ≤ batch_size
      → s.faults ≡ []
      → db.payments.find_one p.id s.tables.payments ≡ some p
      → p.status ≡ PaymentStatus.pending
      → p.expires_at ≡ some ends
      → ends ≤ now
      → db.payments.find_one p.id (expire_pending_payments order now batch_size s).tables.payments
        ≡ some (record p { status = PaymentStatus.expired; expired_at = some now })
  unfolding expired_payment
  expire_pending_payments_complete order batch_size ends s p ordered kept large f found pending has
        ended =
      expire_overdue order batch_size s p ordered kept large f found
        (ground (arith, pending, has, ended))
