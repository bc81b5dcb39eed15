-- ===== src/Settlements/Statement.antt =====
-- modules/settlements/settlements.service.ts: getSettlementStatement, findAdjustmentsForSettlement and
-- getReserveConfig.
use facilpay_api.Common.{
  ℕ, Bool, not, ◌&&◌, Option, none, some, List, [], ◌∷◌, map, filter, leb, ◌==◌, if◌then◌else◌,
  is_empty, includes, first,
}
use facilpay_api.Common.Int.{ℤ, pos, ◌+ℤ◌}
use facilpay_api.Common.Action.{Result, not_found, forbidden, ◌>>=◌, ◌>>◌, or_throw, throw_if, gets}
use facilpay_api.Model.Entities.{Payment, Refund, SettlementAdjustment}
use facilpay_api.Settlements.Entities.{Settlement}
use facilpay_api.Settlements.State.{Ledger, Tables, State}

pub record SettlementStatementRow : Type 0 where
  -- none for the row of the totals
  pub payment_id : Option ℕ
  pub reference : Option ℕ
  pub gross : ℤ
  pub fee : ℤ
  pub net : ℤ
  pub refunds : ℤ
  pub adjustments : ℤ

pub record Statement : Type 0 where
  pub settlement : Settlement
  pub merchant : ℕ
  pub from : Option ℕ
  pub to : ℕ
  pub rows : List SettlementStatementRow
  pub totals : SettlementStatementRow

pub sum_refunds : List Refund → ℤ
sum_refunds [] = pos 0
sum_refunds (refund ∷ rest) = refund.amount +ℤ sum_refunds rest

pub sum_adjustments : List SettlementAdjustment → ℤ
sum_adjustments [] = pos 0
sum_adjustments (adjustment ∷ rest) = adjustment.amount +ℤ sum_adjustments rest

pub statement_row : List Refund → List SettlementAdjustment → Payment → SettlementStatementRow
statement_row refunds adjustments p = record {
  payment_id = some p.id;
  reference = p.external_reference;
  gross = p.amount;
  fee = p.fee_amount;
  net = p.net_amount;
  refunds = sum_refunds (filter (λ r. r.payment_id == p.id) refunds);
  adjustments = sum_adjustments (filter (λ a. a.payment_id == p.id) adjustments);
}

pub add_row : SettlementStatementRow → SettlementStatementRow → SettlementStatementRow
add_row total row = record {
  payment_id = none;
  reference = none;
  gross = total.gross +ℤ row.gross;
  fee = total.fee +ℤ row.fee;
  net = total.net +ℤ row.net;
  refunds = total.refunds +ℤ row.refunds;
  adjustments = total.adjustments +ℤ row.adjustments;
}

abbrev pub no_row : SettlementStatementRow
no_row = record {
  payment_id = none;
  reference = none;
  gross = pos 0;
  fee = pos 0;
  net = pos 0;
  refunds = pos 0;
  adjustments = pos 0;
}

pub totals_from : SettlementStatementRow → List SettlementStatementRow → SettlementStatementRow
totals_from total [] = total
totals_from total (row ∷ rows) = totals_from (add_row total row) rows

-- `Math.min(...payments.map(createdAt))`
pub earliest : List Payment → Option ℕ
earliest [] = none
earliest (p ∷ ps) = elim (earliest ps) [
  | none ↦ some p.created_at
  | some at ↦ some (if leb p.created_at at then p.created_at else at)
]

module _ {db : Ledger} where
  pub payments_in : Settlement → Tables db → List Payment
  payments_in settlement t =
      if is_empty settlement.payment_ids
      then []
      else db.payments.find (λ p. includes p.id settlement.payment_ids) t.payments

  pub refunds_in : Settlement → Tables db → List Refund
  refunds_in settlement t =
      if is_empty settlement.payment_ids
      then []
      else db.refunds.find (λ r. includes r.payment_id settlement.payment_ids) t.refunds

  pub statement_of : Settlement → Tables db → Statement
  statement_of settlement t =
      let payments = payments_in settlement t in
      let adjustments = db.adjustments.find (λ a. a.settlement_id == settlement.id) t.adjustments in
      let rows = map (statement_row (refunds_in settlement t) adjustments) payments in
      record {
        settlement = settlement;
        merchant = settlement.merchant_id;
        from = earliest payments;
        to = settlement.processed_at;
        rows = rows;
        totals = totals_from no_row rows;
      }

  pub get_settlement_statement : ℕ → ℕ → Bool → State db → Result Statement × State db
  get_settlement_statement id user_id is_admin = do
    settlement ← λ s. or_throw (db.settlements.find_one id s.tables.settlements) not_found s
    throw_if (not is_admin && not (settlement.merchant_id == user_id)) forbidden
    gets (λ s. statement_of settlement s.tables)

  -- The order of the rows is left out.
  pub find_adjustments_for_settlement :
      ℕ → ℕ → State db → Result (List SettlementAdjustment) × State db
  find_adjustments_for_settlement merchant id = do
    settlement ← λ s. or_throw (db.settlements.find_one id s.tables.settlements) not_found s
    throw_if (not (settlement.merchant_id == merchant)) not_found
    gets (λ s. db.adjustments.find (λ a. a.settlement_id == id) s.tables.adjustments)

  -- The percentage, the days and the total.
  pub get_reserve_config : ℕ → ℕ → Tables db → Option (ℕ × ℕ × ℤ)
  get_reserve_config user_id currency t =
      elim (first
        (db.configs.find (λ c. (c.user_id == user_id) && (c.currency == currency)) t.configs)) [
          | none ↦ none
          | some c ↦ some (c.reserve_percent, c.reserve_days, c.total_reserved_amount)
        ]
