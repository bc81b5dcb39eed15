-- ===== src/Examples/Settlements.antt =====
-- The theorems on settlements at concrete tables.
use facilpay_api.Common.{◌≡◌, refl, true, false, none, some, List, [], ◌∷◌, ⊤, Bool}
use facilpay_api.Common.Int.{pos}
use facilpay_api.Common.Action.{Result, ok, err, failure}
use facilpay_api.Repository.Rows.{rows}
use facilpay_api.Model.Entities.{Payment, PaymentStatus}
use facilpay_api.Examples.Data.{payment}
use facilpay_api.Settlements.Entities.{
  SettlementSchedule, MerchantSettlementConfig, Settlement, PayoutDestination,
}
use facilpay_api.Settlements.State.{Ledger, State}
use facilpay_api.Settlements.Destinations.{is_cooling_off, get_eligible_destination}
use facilpay_api.Settlements.Amounts.{Outside, new_settlement, is_settleable, total_of}
use facilpay_api.Settlements.Run.{
  begin, settle_locked, settle_payments, settle_writes, mark_payments, save_config, finish, fail,
  process_merchant_settlement,
}
use facilpay_api.Settlements.Outcome.{SameBooks, process-SameBooks}

abbrev ledger : Ledger
ledger = record {
  payments = rows (λ r. r.id);
  refunds = rows (λ r. r.id);
  adjustments = rows (λ r. r.id);
  settlements = rows (λ r. r.id);
  configs = rows (λ r. r.id);
  destinations = rows (λ r. r.id);
}

-- 10 % are held back for 30 days.
abbrev config : MerchantSettlementConfig
config = record {
  id = 1;
  user_id = 5;
  schedule = SettlementSchedule.daily;
  currency = 3;
  destination_id = some 2;
  last_settled_at = none;
  reserve_percent = 10;
  reserve_days = 30;
  total_reserved_amount = pos 0;
}

abbrev destination : PayoutDestination
destination = record {
  id = 2;
  merchant_id = 5;
  label = 0;
  stellar_address = 8;
  asset_code = 3;
  is_default = true;
  verified_at = some 10;
  cooling_off_until = some 20;
  verification_token_hash = none;
  verification_token_expires_at = none;
}

-- It is completed, and belongs to a settlement already.
abbrev paid : Payment
paid = record (payment PaymentStatus.completed) {
  amount = pos 1000;
  net_amount = pos 950;
  currency = 3;
  merchant_id = some 5;
  settlement_id = some 40;
  updated_at = 50;
}

abbrev before : List Bool → State ledger
before faults = record {
  tables = record {
    payments = paid ∷ [];
    refunds = [];
    adjustments = [];
    settlements = [];
    configs = config ∷ [];
    destinations = destination ∷ [];
  };
  outbox = [];
  faults = faults;
}

abbrev outside : Result ⊤ → Outside
outside dispatched = record {
  now = 100;
  transaction_time = 99;
  new = 60;
  new_failed = 61;
  message = λ e. 0;
  dispatched = dispatched;
  merchant_email = some 70;
}

abbrev made : Settlement
made = new_settlement (outside (ok tt)) config (some 2) (total_of false (paid ∷ [])) (paid ∷ [])

save_waits :
    (process_merchant_settlement {db = ledger} false (outside (ok tt)) config (before [])).0
    ≡ err failure
unfolding process_merchant_settlement begin settle_locked get_eligible_destination settle_payments
    settle_writes mark_payments save_config finish fail is_settleable is_cooling_off
save_waits = refl

process-SameBooks_example :
    SameBooks {db = ledger}
      (before []).tables
      (process_merchant_settlement {db = ledger} false
        (outside (ok tt))
        config
        (before [])).1.tables
process-SameBooks_example =
    process-SameBooks {db = ledger} false (outside (ok tt)) config (before []) failure save_waits
