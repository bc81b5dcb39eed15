-- ===== src/Payments/Creation/Laws.antt =====
-- What a payment that was created keeps to, and what a bulk creation does not.
use facilpay_api.Common.{
  ℕ, suc, ◌≤◌, ◌≡◌, refl, ◌∙◌, ap, ◌⊎◌, inl, inr, true, Option, none, some, List, [], ◌∷◌, All,
  arith, ⊤,
}
use facilpay_api.Common.Int.{pos, ◌+ℤ◌, ◌≤ℤ◌}
use facilpay_api.Common.Action.{
  Result, ok, is_ok, bind_ok, bind_step, Result-cases, gets, ◌>>=◌, ◌>>◌, pure,
}
use facilpay_api.Repository.{find_one-saved}
use facilpay_api.Model.Entities.{PaymentStatus, Payment}
use facilpay_api.Model.State.{Database, Tables, State, transaction}
use facilpay_api.Payments.Fee.{Fee, calculate_fee}
use facilpay_api.Payments.Creation.{
  CreatePaymentDto, Context, spent_today, validated, ensure_payment_limits, validate_merchant_id,
  new_payment, create_splits, create_payment, check_payment, create, validate_merchants,
  bulk_payments, create_bulk,
}

module _ {db : Database} (x : Context) where
  -- The amount keeps to each limit that is set; that of the day counts what was stored before.
  abbrev pub IsWithinLimits : CreatePaymentDto → Tables db → Type 0
  IsWithinLimits dto t =
      (x.limits.min_amount ≤ dto.amount)
      × ((x.limits.max_amount ≡ 0) ⊎ (dto.amount ≤ x.limits.max_amount))
      × ((x.limits.daily_limit ≡ 0)
          ⊎ (spent_today x dto t +ℤ pos dto.amount ≤ℤ pos x.limits.daily_limit))

  ensure_payment_limits_ok :
      (dto : CreatePaymentDto) (u : ⊤) (s : State db)
      → (ensure_payment_limits x dto s).0 ≡ ok u
      → IsWithinLimits dto s.tables
  unfolding ensure_payment_limits
  ensure_payment_limits_ok dto u s h = (ground (arith, h), ground (arith, h), ground (arith, h))

  ensure_payment_limits_state :
      (dto : CreatePaymentDto) (s : State db) → (ensure_payment_limits x dto s).1 ≡ s
  unfolding ensure_payment_limits
  ensure_payment_limits_state dto s = ground arith

  check_payment_ok :
      (dto : CreatePaymentDto) (fee : Fee) (s : State db)
      → (check_payment x dto s).0 ≡ ok fee
      → IsWithinLimits dto s.tables × ((check_payment x dto s).1 ≡ s)
  unfolding check_payment validate_merchant_id
  check_payment_ok dto fee s h =
      let ensure = ensure_payment_limits x dto in
      let next : State db → Result Fee × State db = gets (λ s. s.tables) >>= λ t.
      pure (calculate_fee x.to_fixed dto.merchant_id dto.amount t) in
      let (u, merchant, one) =
        bind_ok (validate_merchant_id x dto.merchant_id) (λ _. ensure >> next) s fee h in
      let (v, limits, two) = bind_ok ensure (λ _. next) s fee (rw (← one) h) in
      (
        ensure_payment_limits_ok dto v s limits,
        ap (λ r. r.1) (one ∙ two) ∙ ensure_payment_limits_state dto s,
      )

  create_payment_ok :
      (new new_splits : ℕ) (dto : CreatePaymentDto) (recurring : Option ℕ) (fee : Fee) (p : Payment)
      (s : State db)
      → (create_payment new new_splits x dto recurring fee s).0 ≡ ok p
      → (p ≡ new_payment new x dto recurring fee)
        × ((create_payment new new_splits x dto recurring fee s).1.tables.payments
            ≡ db.payments.save p s.tables.payments)
  unfolding create_payment create_splits
  create_payment_ok new new_splits dto recurring fee p s h = ground (arith, h)

  transaction_ok :
      {A : Type 0} (body : State db → Result A × State db) (a : A) (s : State db)
      → (transaction body s).0 ≡ ok a
      → ((body s).0 ≡ ok a) × ((transaction body s).1.tables ≡ (body s).1.tables)
  transaction_ok body a s h = elim (Result-cases (body s).0) [
    | inl (b, e) ↦ ground (arith, e, h)
    | inr (y, e) ↦ ground (arith, e, h)
  ]

  -- A payment that was created is stored under its identifier, is pending, has the amount that was
  -- asked for, and keeps to the limits: it is at least the minimum, at most the maximum, and what the
  -- user paid that day in its currency, as stored before, and its amount are at most the daily limit,
  -- where these are set.
  pub create-IsWithinLimits :
      (new new_splits : ℕ) (dto : CreatePaymentDto) (recurring : Option ℕ) (p : Payment)
      (s : State db)
      → (create new new_splits x dto recurring s).0 ≡ ok p
      → IsWithinLimits dto s.tables
        × (p.amount ≡ pos dto.amount)
        × (p.status ≡ PaymentStatus.pending)
        × (db.payments.find_one p.id (create new new_splits x dto recurring s).1.tables.payments
            ≡ some p)
  unfolding create new_payment
  create-IsWithinLimits new new_splits dto recurring p s h =
      let check = check_payment x dto in
      let next = create_payment new new_splits x dto recurring in
      let (returned, tables) = transaction_ok (check >>= next) p s h in
      let (fee, checked, one) = bind_ok check next s p returned in
      let (limits, same) = check_payment_ok dto fee s checked in
      let run = one ∙ ap (next fee) same in
      let (is_new, saved) =
        create_payment_ok new new_splits dto recurring fee p s (rw (← run) returned) in
      (
        limits,
        ap (λ q. q.amount) is_new,
        ap (λ q. q.status) is_new,
        ap (λ t. db.payments.find_one p.id t.payments) tables
            ∙ ap (λ r. db.payments.find_one p.id r.1.tables.payments) run
            ∙ ap (db.payments.find_one p.id) saved
            ∙ find_one-saved db.payments p s.tables.payments,
      )

  -- A payment of a bulk that could be created alone.
  abbrev pub IsAllowed : State db → CreatePaymentDto → Type 0
  IsAllowed s dto =
      (validated x dto.merchant_id ≡ ok tt) × ((ensure_payment_limits x dto s).0 ≡ ok tt)

  validate_merchants_ok :
      (dtos : List CreatePaymentDto) (s : State db)
      → All (IsAllowed s) dtos
      → validate_merchants x dtos s ≡ (ok tt, s)
  unfolding validate_merchants validate_merchant_id
  validate_merchants_ok [] s h = refl
  validate_merchants_ok (dto ∷ dtos) s ((merchant, limits), h) =
      bind_step (validate_merchant_id x dto.merchant_id) (λ _. validate_merchants x dtos) s tt
        merchant
      ∙ validate_merchants_ok dtos s h

  bulk_payments_ok :
      (new : ℕ) (dtos : List CreatePaymentDto) (s : State db)
      → All (IsAllowed s) dtos
      → (payments : List Payment) × (bulk_payments new x dtos s ≡ (ok payments, s))
  unfolding bulk_payments
  bulk_payments_ok new [] s h = ([], refl)
  bulk_payments_ok new (dto ∷ dtos) s ((merchant, limits), h) =
      let (rest, e) = bulk_payments_ok (suc new) dtos s h in
      let row : Tables db → Payment =
        λ t. new_payment new x dto none (calculate_fee x.to_fixed dto.merchant_id dto.amount t) in
      let next : State db → Result (List Payment) × State db =
        gets (λ s. s.tables) >>= λ t. bulk_payments (suc new) x dtos >>= λ l. pure (row t ∷ l) in
      (
        row s.tables ∷ rest,
        bind_step (ensure_payment_limits x dto) (λ _. next) s tt limits
            ∙ ap next (ensure_payment_limits_state dto s)
            ∙ bind_step (bulk_payments (suc new) x dtos) (λ l. pure (row s.tables ∷ l)) s rest
                (ap (λ r. r.0) e)
            ∙ ap (λ r. (ok (row s.tables ∷ rest), r.1)) e,
      )

  -- A bulk of payments each of which could be created alone is created when no write fails, whatever
  -- their amounts add up to.
  create_bulk_accepts :
      (new : ℕ) (dtos : List CreatePaymentDto) (s : State db)
      → All (IsAllowed s) dtos
      → s.faults ≡ []
      → is_ok (create_bulk new x dtos s).0 ≡ true
  unfolding create_bulk
  create_bulk_accepts new dtos s h f =
      let (payments, e) = bulk_payments_ok new dtos s h in
      let valid = validate_merchants_ok dtos s h in ground (arith, e, valid, f)
