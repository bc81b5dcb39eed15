-- ===== src/Settlements/Amounts.antt =====
-- modules/settlements/settlements.service.ts: the rows and amounts of processMerchantSettlement. Sums and
-- products are exact; what is saved is rounded to hundredths, half away from zero, as the columns are.
use facilpay_api.Common.{
  ℕ, ◌+◌, ◌*◌, ◌/◌, Bool, ◌&&◌, Option, none, some, List, [], ◌∷◌, map, ltb, ◌==◌, if◌then◌else◌,
  some_eq, or_else, ⊤,
}
use facilpay_api.Common.Int.{ℤ, pos, negsuc, ◌+ℤ◌, ◌-ℤ◌, neg, ltb_ℤ}
use facilpay_api.Common.Action.{Result, Error}
use facilpay_api.Model.Entities.{PaymentStatus, is_status, Payment}
use facilpay_api.Settlements.Entities.{
  ReserveStatus, MerchantSettlementConfig, SettlementStatus, Settlement,
}
use facilpay_api.Settlements.State.{Sent, SettlementEvent, event}

-- What a run for one configuration is given: the time, the database's time of the transaction, new
-- identifiers, the name of the exception, the result of the webhook dispatch, and the address of the
-- merchant when the user is found and has one.
pub record Outside : Type 0 where
  pub now : ℕ
  pub transaction_time : ℕ
  pub new : ℕ
  pub new_failed : ℕ
  pub message : Error → ℕ
  pub dispatched : Result ⊤
  pub merchant_email : Option ℕ

-- `k` copies of an integer.
unfoldable pub times : ℕ → ℤ → ℤ
times k (pos n) = pos (k * n)
times k (negsuc n) = neg (pos (k * (n + 1)))

-- An integer number of hundredths of a hundredth, rounded.
pub round_hundred : ℤ → ℤ
round_hundred (pos n) = pos ((n + 50) / 100)
round_hundred (negsuc n) = neg (pos ((n + 51) / 100))

-- The column `netAmount` has a default and is never null.
pub payable : Bool → Payment → ℤ
payable settle_on_gross p = if settle_on_gross then p.amount else p.net_amount

unfoldable pub total_of : Bool → List Payment → ℤ
total_of settle_on_gross [] = pos 0
total_of settle_on_gross (p ∷ ps) = payable settle_on_gross p +ℤ total_of settle_on_gross ps

-- The payments of a run: `updatedAt > since`, and no look at `settlementId`.
unfoldable pub is_settleable : MerchantSettlementConfig → Payment → Bool
is_settleable config p =
    is_status p.status PaymentStatus.completed
    && some_eq p.merchant_id config.user_id
    && (p.currency == config.currency)
    && ltb (or_else config.last_settled_at 0) p.updated_at

-- The reserve, in hundredths of a hundredth.
pub exact_reserve : MerchantSettlementConfig → ℤ → ℤ
exact_reserve config total = times config.reserve_percent total

-- The entity's defaults stand where the code gives no value: `reservedReleaseAt` is computed and not
-- passed on, so it is null.
unfoldable pub new_settlement :
    Outside → MerchantSettlementConfig → Option ℕ → ℤ → List Payment → Settlement
new_settlement outside config destination total payments = record {
  id = outside.new;
  merchant_id = config.user_id;
  schedule = config.schedule;
  total_amount = total;
  reserved_amount = round_hundred (exact_reserve config total);
  net_amount = round_hundred (times 100 total -ℤ exact_reserve config total);
  currency = config.currency;
  payout_destination_id = destination;
  transaction_hash = none;
  payment_ids = map (λ p. p.id) payments;
  status = SettlementStatus.pending;
  stellar_transaction_hash = none;
  failure_reason = none;
  processed_at = outside.now;
  reserved_release_at = none;
  reserve_status = ReserveStatus.held;
  released_amount = pos 0;
}

-- An update of the column also sets `updatedAt`, to the database's time.
pub settled_payment : Outside → Payment → Payment
settled_payment outside p = record p {
  settlement_id = some outside.new;
  updated_at = outside.transaction_time;
}

unfoldable pub settled_config : Outside → ℤ → MerchantSettlementConfig → MerchantSettlementConfig
settled_config outside total config = record config {
  last_settled_at = some outside.now;
  total_reserved_amount =
      (if ltb_ℤ (pos 0) (exact_reserve config total)
        then round_hundred (times 100 config.total_reserved_amount +ℤ exact_reserve config total)
        else config.total_reserved_amount);
}

abbrev pub completed_settlement : Settlement → Settlement
completed_settlement settlement = record settlement { status = SettlementStatus.completed }

unfoldable pub failed_settlement : Outside → MerchantSettlementConfig → Error → Settlement
failed_settlement outside config e = record {
  id = outside.new_failed;
  merchant_id = config.user_id;
  schedule = config.schedule;
  total_amount = pos 0;
  reserved_amount = pos 0;
  net_amount = pos 0;
  currency = config.currency;
  payout_destination_id = none;
  transaction_hash = none;
  payment_ids = [];
  status = SettlementStatus.failed;
  stellar_transaction_hash = none;
  failure_reason = some (outside.message e);
  processed_at = outside.now;
  reserved_release_at = none;
  reserve_status = ReserveStatus.held;
  released_amount = pos 0;
}

-- The event that is named after the status.
pub status_event : SettlementStatus → SettlementEvent
status_event SettlementStatus.completed = SettlementEvent.settlement_completed
status_event SettlementStatus.failed = SettlementEvent.settlement_failed
status_event SettlementStatus.pending = SettlementEvent.settlement_created

pub status_events : SettlementStatus → ℕ → ℕ → List Sent
status_events SettlementStatus.pending merchant id = []
status_events status merchant id = event merchant (status_event status) id ∷ []
