-- ===== src/Examples/Creation.antt =====
-- The theorems on payment creation at an empty database with a daily limit of 15.00.
use facilpay_api.Common.{◌≡◌, ◌+◌, ◌/◌, refl, none, some, [], ◌∷◌}
use facilpay_api.Common.Int.{pos, ◌+ℤ◌}
use facilpay_api.Common.Action.{ok}
use facilpay_api.Model.Entities.{PaymentStatus, Payment}
use facilpay_api.Model.State.{State}
use facilpay_api.Model.Tables.{lists, empty_tables}
use facilpay_api.Payments.Creation.{
  CreatePaymentDto, Context, new_payment, check_payment, ensure_payment_limits,
  validate_merchant_id, create_payment, create_splits, create, sum_amounts,
}
use facilpay_api.Payments.Creation.Laws.{IsWithinLimits, create-IsWithinLimits}
use facilpay_api.Payments.Fee.{calculate_fee}

abbrev empty_state : State lists
empty_state = record { tables = empty_tables; outbox = []; faults = [] }

abbrev context : Context
context = record {
  now = 100;
  start_of_day = 0;
  end_of_day = 1000;
  anonymous = 99;
  limits = record {
    min_amount = 100;
    max_amount = 5000;
    daily_limit = 1500;
    default_expiry_seconds = 1800;
  };
  find_merchant = λ merchant. ok tt;
  to_fixed = λ x. (x + 4999) / 10000;
}

abbrev dto : CreatePaymentDto
dto = record {
  amount = 1000;
  currency = 1;
  description = none;
  callback_url = none;
  merchant_id = some 3;
  customer_id = none;
  merchant_email = none;
  payer_email = some 21;
  metadata = none;
  expires_in = none;
  payment_link_id = none;
  splits = record { recipient_address = 31; percentage = 10000 } ∷ [];
  due_date = none;
  reminders_enabled = none;
}

abbrev created : Payment
created =
    new_payment 7 context dto none
      (calculate_fee {db = lists} context.to_fixed (some 3) 1000 empty_tables)

creates : (create {db = lists} 7 11 context dto none empty_state).0 ≡ ok created
unfolding create check_payment ensure_payment_limits validate_merchant_id create_payment
    create_splits sum_amounts ◌+ℤ◌
creates = refl

create-IsWithinLimits_example :
    IsWithinLimits {db = lists} context dto empty_tables
    × (created.amount ≡ pos 1000)
    × (created.status ≡ PaymentStatus.pending)
    × (lists.payments.find_one created.id
          (create {db = lists} 7 11 context dto none empty_state).1.tables.payments
        ≡ some created)
create-IsWithinLimits_example =
    create-IsWithinLimits {db = lists} context 7 11 dto none created empty_state creates

allowed : (ensure_payment_limits {db = lists} context dto empty_state).0 ≡ ok tt
unfolding ensure_payment_limits sum_amounts ◌+ℤ◌
allowed = refl
