-- ===== src/Examples/Data.antt =====
-- The rows of the worked examples: a completed payment of 10.00, of which 4.00 is paid back, with one
-- pending split and a merchant.
use facilpay_api.Common.{Bool, true, false, none, some, List, [], ◌∷◌}
use facilpay_api.Common.Int.{pos}
use facilpay_api.Model.Entities.{
  PaymentStatus, OverpaymentPolicy, Payment, PaymentSplit, PaymentSplitStatus, Dispute,
  DisputeStatus, MerchantFeeConfig,
}
use facilpay_api.Model.State.{State}
use facilpay_api.Model.Tables.{lists, empty_tables}
use facilpay_api.Payments.Splits.{Sent}

abbrev pub payment : PaymentStatus → Payment
payment status = record {
  id = 7;
  amount = pos 1000;
  currency = 1;
  status = status;
  external_reference = none;
  description = none;
  callback_url = none;
  overpaid_amount = pos 0;
  overpayment_policy = OverpaymentPolicy.keep;
  customer_id = none;
  payer_name = none;
  payer_phone = none;
  metadata = none;
  tags = [];
  due_date = none;
  reminders_enabled = true;
  refunded_amount = pos 400;
  fee_amount = pos 0;
  net_amount = pos 1000;
  fee_breakdown = none;
  cancelled_at = none;
  expires_at = some 50;
  expired_at = none;
  merchant_id = some 3;
  recurring_payment_id = none;
  merchant_email = some 21;
  payer_email = none;
  simulated = false;
  settlement_id = some 5;
  payment_link_id = some 2;
  created_at = 10;
  updated_at = 10;
}

abbrev pub split : PaymentSplit
split = record {
  id = 11;
  payment_id = 7;
  recipient_address = 31;
  percentage = 2500;
  amount = pos 250;
  status = PaymentSplitStatus.pending;
  stellar_transaction_hash = none;
  failure_reason = none;
}

abbrev pub dispute : DisputeStatus → Dispute
dispute status = record {
  id = 4;
  payment_id = 7;
  status = status;
  reason = 1;
  description = none;
  disputed_amount = none;
  opened_by = none;
  resolution_notes = none;
  resolved_by = none;
  merchant_email = none;
  payer_email = none;
  resolved_at = none;
  closed_at = none;
}

abbrev pub state : PaymentStatus → List PaymentSplit → List Bool → State lists
state status splits faults = record {
  tables = record empty_tables { payments = payment status ∷ []; splits = splits };
  outbox = [];
  faults = faults;
}

abbrev pub disputed : DisputeStatus → List Bool → State lists
disputed status faults = record {
  tables = record empty_tables {
    payments = payment PaymentStatus.completed ∷ [];
    disputes = dispute status ∷ [];
  };
  outbox = [];
  faults = faults;
}

-- Every transfer fails.
abbrev pub send_none : PaymentSplit → Sent
send_none _ = Sent.thrown 1

abbrev pub config : MerchantFeeConfig
config = record { merchant_id = 3; flat_fee = 30; percentage_fee = 250; min_fee = 50 }
