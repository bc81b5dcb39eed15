-- ===== src/Settlements/Run.antt =====
-- modules/settlements/settlements.service.ts: processMerchantSettlement with the events and the mail that
-- follow it, and the runs over configurations.
use facilpay_api.Common.{
  ℕ, Bool, true, Option, none, some, List, [], ◌∷◌, ◌==◌, if◌then◌else◌, is_empty, length, includes,
  ⊤,
}
use facilpay_api.Common.Int.{ℤ, pos, ◌+ℤ◌}
use facilpay_api.Common.Action.{
  Result, ok, err, Error, failure, bad_request, ◌>>=◌, ◌>>◌, pure, or_throw, gets,
}
use facilpay_api.Model.Entities.{Payment}
use facilpay_api.Settlements.Entities.{
  SettlementSchedule, is_schedule, MerchantSettlementConfig, Settlement,
}
use facilpay_api.Settlements.State.{
  Ledger, Tables, State, SettlementEvent, event, webhook, mail, write, emit, send,
}
use facilpay_api.Settlements.Destinations.{get_eligible_destination}
use facilpay_api.Settlements.Amounts.{
  Outside, total_of, is_settleable, new_settlement, settled_payment, settled_config,
  completed_settlement, failed_settlement, status_event, status_events,
}

abbrev pub collected : Result (Option Settlement) → List Settlement → List Settlement
collected (err _) rest = rest
collected (ok none) rest = rest
collected (ok (some settlement)) rest = settlement ∷ rest

pub sum_totals : List Settlement → ℤ
sum_totals [] = pos 0
sum_totals (settlement ∷ rest) = settlement.total_amount +ℤ sum_totals rest

abbrev is_asked : Option ℕ → MerchantSettlementConfig → Bool
is_asked none c = true
is_asked (some merchant) c = c.user_id == merchant

module _ {db : Ledger} where
  unfoldable pub dispatch_settlement_events : Outside → Settlement → State db → Result ⊤ × State db
  dispatch_settlement_events outside settlement = do
    emit (event settlement.merchant_id SettlementEvent.settlement_created settlement.id ∷ [])
    emit (status_events settlement.status settlement.merchant_id settlement.id)
    emit (webhook settlement.merchant_id (status_event settlement.status) settlement.id ∷ [])
    λ s. (outside.dispatched, s)

  unfoldable pub send_settlement_email : Outside → Settlement → State db → State db
  send_settlement_email outside settlement s = elim outside.merchant_email [
    | none ↦ s
    | some address ↦ send (mail address settlement.id ∷ []) s
  ]

  abbrev pub save_settlement : Settlement → State db → Result ⊤ × State db
  save_settlement settlement =
      write (λ t. record t { settlements = db.settlements.save settlement t.settlements })

  -- `update(Payment, { id: In(…) }, { settlementId })`
  unfoldable pub mark_payments : Outside → Settlement → State db → Result ⊤ × State db
  mark_payments outside settlement = write (λ t. record t {
    payments =
        db.payments.update (λ p. includes p.id settlement.payment_ids) (settled_payment outside)
          t.payments;
  })

  unfoldable pub save_config : MerchantSettlementConfig → State db → Result ⊤ × State db
  save_config config = write (λ t. record t { configs = db.configs.save config t.configs })

  -- The three writes of the transaction.
  unfoldable pub settle_writes :
      Outside → MerchantSettlementConfig → ℤ → Settlement → State db → Result ⊤ × State db
  settle_writes outside config total settlement =
      save_settlement settlement
      >> (mark_payments outside settlement >> save_config (settled_config outside total config))

  unfoldable pub settle_payments :
      Bool
      → Outside
      → MerchantSettlementConfig
      → ℕ
      → List Payment
      → State db
      → Result (Option Settlement) × State db
  settle_payments gross outside config destination payments =
      if is_empty payments then pure none else (do
        let total = total_of gross payments
        let settlement = new_settlement outside config (some destination) total payments
        settle_writes outside config total settlement
        pure (some settlement))

  -- From the locked row to the last write of the transaction.
  unfoldable pub settle_locked :
      Bool → Outside → MerchantSettlementConfig → State db → Result (Option Settlement) × State db
  settle_locked gross outside config = do
    destination ← or_throw config.destination_id bad_request
    get_eligible_destination outside.now config.user_id destination config.currency
    payments ← gets (λ s. db.payments.find (is_settleable config) s.tables.payments)
    settle_payments gross outside config destination payments

  unfoldable pub begin :
      Bool → Outside → MerchantSettlementConfig → State db → Result (Option Settlement) × State db
  begin gross outside config s = elim (db.configs.find_one config.id s.tables.configs) [
    | none ↦ (ok none, s)
    | some locked ↦ settle_locked gross outside locked s
  ]

  -- The catch block: a record of the failure and its events, whose own exceptions are ignored. It is
  -- given the tables that the rollback leaves.
  unfoldable pub fail :
      Outside
      → MerchantSettlementConfig
      → Error
      → Tables db
      → State db
      → Result (Option Settlement) × State db
  fail outside config e tables s =
      let failed = failed_settlement outside config e in
      let (_, s') =
        (save_settlement failed >> dispatch_settlement_events outside failed)
          (record s { tables = tables }) in
      (err e, s')

  -- What follows the commit. An exception runs the catch block, too, where the rollback of a
  -- transaction that is over throws in its turn.
  unfoldable pub announce :
      Outside
      → MerchantSettlementConfig
      → Settlement
      → State db
      → Result (Option Settlement) × State db
  announce outside config settlement s =
      let (r, s') = dispatch_settlement_events outside settlement s in
      elim r [
        | ok _ ↦ (ok (some settlement), send_settlement_email outside settlement s')
        | err e ↦ (err failure, (fail outside config e s'.tables s').1)
      ]

  -- `settlementRepo.save` of the completed settlement goes through another connection, while the open
  -- transaction holds the row: it waits for the transaction, which waits for it. When the wait ends at
  -- all, it is with the error of a timeout; nothing is saved.
  abbrev pub save_elsewhere : Settlement → State db → Result ⊤ × State db
  save_elsewhere settlement s = (err failure, s)

  -- The commit comes after that save.
  unfoldable pub finish :
      Outside
      → MerchantSettlementConfig
      → Settlement
      → Tables db
      → State db
      → Result (Option Settlement) × State db
  finish outside config settlement before s =
      let (r, s') = save_elsewhere settlement s in
      elim r [
        | err e ↦ fail outside config e before s'
        | ok _ ↦
            let (c, s'') = write (λ t. t) s' in
            elim c [
              | err e ↦ fail outside config e before s''
              | ok _ ↦ announce outside config settlement s''
            ]
      ]

  unfoldable pub process_merchant_settlement :
      Bool → Outside → MerchantSettlementConfig → State db → Result (Option Settlement) × State db
  process_merchant_settlement gross outside config s =
      let (r, s') = begin gross outside config s in
      elim r [
        | err e ↦ fail outside config e s.tables s'
        | ok found ↦ elim found [
          | none ↦ (ok none, record s' { tables = s.tables })
          | some settlement ↦ finish outside config (completed_settlement settlement) s.tables s'
        ]
      ]

  -- A run that throws is logged, and the next one follows.
  pub process_configs :
      Bool
      → (MerchantSettlementConfig → Outside)
      → List MerchantSettlementConfig
      → State db
      → List Settlement × State db
  process_configs gross outside [] s = ([], s)
  process_configs gross outside (config ∷ configs) s =
      let (r, s') = process_merchant_settlement gross (outside config) config s in
      let (rest, s'') = process_configs gross outside configs s' in (collected r rest, s'')

  pub process_settlements_for_schedule :
      Bool → (MerchantSettlementConfig → Outside) → SettlementSchedule → State db → State db
  process_settlements_for_schedule gross outside schedule s =
      (process_configs gross outside
        (db.configs.find (λ c. is_schedule c.schedule schedule) s.tables.configs) s).1

  -- How many settlements, their sum, and the settlements.
  pub trigger_manual_run :
      Bool
      → (MerchantSettlementConfig → Outside)
      → Option ℕ
      → State db
      → (ℕ × ℤ × List Settlement) × State db
  trigger_manual_run gross outside merchant s =
      let (made, s') =
        process_configs gross outside (db.configs.find (is_asked merchant) s.tables.configs) s in
      ((length made, sum_totals made, made), s')
