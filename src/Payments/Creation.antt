-- ===== src/Payments/Creation.antt =====
-- Payment creation: `create`, `createBulk`, `ensurePaymentLimits` and `validateMerchantId` of
-- modules/payments/payments.service.ts. What `usersService.findOne` gives for a merchant is a
-- parameter. The start and the end of the day, the limits and the identifiers are given.
use facilpay_api.Common.{
  ℕ, zero, suc, ◌+◌, ◌*◌, ◌/◌, Bool, true, false, not, ◌&&◌, ◌||◌, Option, none, some, List, [],
  ◌∷◌, map, ltb, leb, ◌==◌, some_eq, if◌then◌else◌, or_else, or_other, is_empty, ⊤,
}
use facilpay_api.Common.Int.{ℤ, pos, ◌+ℤ◌, ltb_ℤ}
use facilpay_api.Common.Action.{
  Result, ok, err, Error, not_found, bad_request, unprocessable, ◌>>=◌, ◌>>◌, pure, throw_if, gets,
}
use facilpay_api.Repository.{Repository}
use facilpay_api.Model.Entities.{
  PaymentStatus, OverpaymentPolicy, Payment, PaymentSplit, PaymentSplitStatus,
}
use facilpay_api.Model.State.{Database, Tables, State, write, transaction}
use facilpay_api.Payments.Fee.{Fee, calculate_fee}
pub mod Laws

pub record CreatePaymentSplitDto : Type 0 where
  pub recipient_address : ℕ
  -- in hundredths of a percent
  pub percentage : ℕ

pub record CreatePaymentDto : Type 0 where
  pub amount : ℕ
  pub currency : ℕ
  pub description : Option ℕ
  pub callback_url : Option ℕ
  pub merchant_id : Option ℕ
  pub customer_id : Option ℕ
  pub merchant_email : Option ℕ
  pub payer_email : Option ℕ
  pub metadata : Option ℕ
  -- in seconds
  pub expires_in : Option ℕ
  pub payment_link_id : Option ℕ
  pub splits : List CreatePaymentSplitDto
  pub due_date : Option ℕ
  pub reminders_enabled : Option Bool

-- The configuration: a limit of 0 is none.
pub record PaymentLimits : Type 0 where
  pub min_amount : ℕ
  pub max_amount : ℕ
  pub daily_limit : ℕ
  pub default_expiry_seconds : ℕ

-- What a call is given from outside.
pub record Context : Type 0 where
  pub now : ℕ
  pub start_of_day : ℕ
  pub end_of_day : ℕ
  -- the text 'anonymous'
  pub anonymous : ℕ
  pub limits : PaymentLimits
  pub find_merchant : ℕ → Result ⊤
  -- the rounding to hundredths, as in Payments/Fee
  pub to_fixed : ℕ → ℕ

abbrev pub is_set : ℕ → Bool
is_set n = not (n == 0)

abbrev pub user_key : Context → CreatePaymentDto → ℕ
user_key x dto =
    or_else (or_other (or_other dto.payer_email dto.merchant_email) dto.merchant_id) x.anonymous

-- The condition of the sum: the user's payments of the day in that currency.
abbrev pub is_counted : Context → CreatePaymentDto → Payment → Bool
is_counted x dto p =
    ((leb x.start_of_day p.created_at && leb p.created_at x.end_of_day)
      && (p.currency == dto.currency))
    && (some_eq p.payer_email (user_key x dto)
        || (some_eq p.merchant_email (user_key x dto) || some_eq p.merchant_id (user_key x dto)))

unfoldable pub sum_amounts : List Payment → ℤ
sum_amounts [] = pos 0
sum_amounts (p ∷ payments) = p.amount +ℤ sum_amounts payments

-- A missing merchant is a bad request; what else is thrown goes on.
abbrev pub merchant_result : Result ⊤ → Result ⊤
merchant_result (ok u) = ok u
merchant_result (err Error.not_found) = err bad_request
merchant_result (err e) = err e

abbrev pub validated : Context → Option ℕ → Result ⊤
validated x none = ok tt
validated x (some merchant) = merchant_result (x.find_merchant merchant)

pub new_payment : ℕ → Context → CreatePaymentDto → Option ℕ → Fee → Payment
new_payment new x dto recurring fee = record {
  id = new;
  amount = pos dto.amount;
  currency = dto.currency;
  status = PaymentStatus.pending;
  external_reference = none;
  description = dto.description;
  callback_url = dto.callback_url;
  refunded_amount = pos 0;
  overpaid_amount = pos 0;
  overpayment_policy = OverpaymentPolicy.keep;
  fee_amount = pos fee.fee_amount;
  net_amount = pos fee.net_amount;
  fee_breakdown = some fee.fee_breakdown;
  cancelled_at = none;
  expires_at = some (x.now + or_else dto.expires_in x.limits.default_expiry_seconds * 1000);
  expired_at = none;
  merchant_id = dto.merchant_id;
  customer_id = dto.customer_id;
  recurring_payment_id = recurring;
  merchant_email = dto.merchant_email;
  payer_email = dto.payer_email;
  payer_name = none;
  payer_phone = none;
  simulated = false;
  metadata = dto.metadata;
  tags = [];
  settlement_id = none;
  payment_link_id = dto.payment_link_id;
  due_date = dto.due_date;
  reminders_enabled = or_else dto.reminders_enabled true;
  created_at = x.now;
  updated_at = x.now;
}

-- `amount * percentage / 100`, rounded to hundredths; the percentage is in hundredths.
pub new_split : (ℕ → ℕ) → ℕ → ℕ → ℕ → CreatePaymentSplitDto → PaymentSplit
new_split to_fixed new payment_id amount dto = record {
  id = new;
  payment_id = payment_id;
  recipient_address = dto.recipient_address;
  percentage = dto.percentage;
  amount = pos (to_fixed (amount * dto.percentage));
  status = PaymentSplitStatus.pending;
  stellar_transaction_hash = none;
  failure_reason = none;
}

-- The splits have identifiers from a first one on.
pub save_splits :
    (ℕ → ℕ)
    → (repo : Repository PaymentSplit (λ r. r.id)) → ℕ
    → ℕ
    → ℕ
    → List CreatePaymentSplitDto
    → repo.Table
    → repo.Table
save_splits to_fixed repo new payment_id amount [] t = t
save_splits to_fixed repo new payment_id amount (dto ∷ dtos) t =
    save_splits to_fixed repo (suc new) payment_id amount dtos
      (repo.save (new_split to_fixed new payment_id amount dto) t)

pub save_payments : (repo : Repository Payment (λ r. r.id)) → List Payment → repo.Table → repo.Table
save_payments repo [] t = t
save_payments repo (p ∷ payments) t = save_payments repo payments (repo.save p t)

module _ {db : Database} where
  -- `COALESCE(SUM(payment.amount), 0)`
  abbrev pub spent_today : Context → CreatePaymentDto → Tables db → ℤ
  spent_today x dto t = sum_amounts (db.payments.find (is_counted x dto) t.payments)

  abbrev pub exceeds_daily : Context → CreatePaymentDto → Tables db → Bool
  exceeds_daily x dto t =
      is_set x.limits.daily_limit
      && ltb_ℤ (pos x.limits.daily_limit) (spent_today x dto t +ℤ pos dto.amount)

  unfoldable pub ensure_payment_limits : Context → CreatePaymentDto → State db → Result ⊤ × State db
  ensure_payment_limits x dto = do
    throw_if (is_set x.limits.min_amount && ltb dto.amount x.limits.min_amount) unprocessable
    throw_if (is_set x.limits.max_amount && ltb x.limits.max_amount dto.amount) unprocessable
    t ← gets (λ s. s.tables)
    throw_if (exceeds_daily x dto t) unprocessable

  unfoldable pub validate_merchant_id : Context → Option ℕ → State db → Result ⊤ × State db
  validate_merchant_id x merchant s = (validated x merchant, s)

  unfoldable pub create_splits : ℕ → ℕ → Context → CreatePaymentDto → State db → Result ⊤ × State db
  create_splits new payment_id x dto =
      if is_empty dto.splits
      then pure tt
      else write (λ t. record t {
        splits = save_splits x.to_fixed db.splits new payment_id dto.amount dto.splits t.splits;
      })

  unfoldable pub create_payment :
      ℕ → ℕ → Context → CreatePaymentDto → Option ℕ → Fee → State db → Result Payment × State db
  create_payment new new_splits x dto recurring fee = do
    let payment = new_payment new x dto recurring fee
    write (λ t. record t { payments = db.payments.save payment t.payments })
    create_splits new_splits payment.id x dto
    pure payment

  unfoldable pub check_payment : Context → CreatePaymentDto → State db → Result Fee × State db
  check_payment x dto = do
    validate_merchant_id x dto.merchant_id
    ensure_payment_limits x dto
    t ← gets (λ s. s.tables)
    pure (calculate_fee x.to_fixed dto.merchant_id dto.amount t)

  unfoldable pub create :
      ℕ → ℕ → Context → CreatePaymentDto → Option ℕ → State db → Result Payment × State db
  create new new_splits x dto recurring =
      transaction (check_payment x dto >>= λ fee. create_payment new new_splits x dto recurring fee)

  pub validate_merchants : Context → List CreatePaymentDto → State db → Result ⊤ × State db
  validate_merchants x [] = pure tt
  validate_merchants x (dto ∷ dtos) =
      validate_merchant_id x dto.merchant_id >> validate_merchants x dtos

  -- Each payment is tested against what is stored, before any of them is.
  pub bulk_payments :
      ℕ → Context → List CreatePaymentDto → State db → Result (List Payment) × State db
  bulk_payments new x [] = pure []
  bulk_payments new x (dto ∷ dtos) = do
    ensure_payment_limits x dto
    t ← gets (λ s. s.tables)
    rest ← bulk_payments (suc new) x dtos
    pure (new_payment new x dto none (calculate_fee x.to_fixed dto.merchant_id dto.amount t) ∷ rest)

  -- The splits of the DTOs are not looked at.
  pub create_bulk :
      ℕ → Context → List CreatePaymentDto → State db → Result (List Payment) × State db
  create_bulk new x dtos = transaction (do
    validate_merchants x dtos
    payments ← bulk_payments new x dtos
    write (λ t. record t { payments = save_payments db.payments payments t.payments })
    pure payments)
