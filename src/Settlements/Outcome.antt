-- ===== src/Settlements/Outcome.antt =====
-- What a run for one merchant that throws leaves behind.
use facilpay_api.Common.{◌≡◌, inl, inr, Bool, none, some, arith, List-cases, Bool-cases}
use facilpay_api.Common.Action.{err, Error, failure, Result-cases}
use facilpay_api.Settlements.Entities.{MerchantSettlementConfig, Settlement}
use facilpay_api.Settlements.State.{Ledger, Tables, State}
use facilpay_api.Settlements.Amounts.{Outside, completed_settlement}
use facilpay_api.Settlements.Run.{
  dispatch_settlement_events, begin, fail, finish, process_merchant_settlement,
}

module _ {db : Ledger} where
  -- The payments, the configurations and the destinations are those of other tables.
  pub record SameBooks (t t' : Tables db) : Type 0 where
    pub payments : t'.payments ≡ t.payments
    pub configs : t'.configs ≡ t.configs
    pub destinations : t'.destinations ≡ t.destinations

  fail-SameBooks :
      (outside : Outside) (config : MerchantSettlementConfig) (e : Error) (t : Tables db)
      (s : State db)
      → SameBooks t (fail outside config e t s).1.tables
  unfolding fail dispatch_settlement_events
  fail-SameBooks outside config e t s = elim (List-cases s.faults) [
    | inl q ↦ ground (arith, q)
    | inr (x, rest, q) ↦ elim (Bool-cases x) [
      | inl fails ↦ ground (arith, q, fails)
      | inr works ↦ ground (arith, q, works)
    ]
  ]

  finish-SameBooks :
      (outside : Outside) (config : MerchantSettlementConfig) (row : Settlement)
      (before : Tables db) (s : State db)
      → SameBooks before (finish outside config row before s).1.tables
  unfolding finish
  finish-SameBooks outside config row before s = fail-SameBooks outside config failure before s

  -- A run that throws leaves the payments, the configurations and the destinations as they were,
  -- whichever guard or write failed, and whatever the dispatch of webhooks answers.
  pub process-SameBooks :
      (gross : Bool) (outside : Outside) (config : MerchantSettlementConfig) (s : State db)
      (x : Error)
      → (process_merchant_settlement gross outside config s).0 ≡ err x
      → SameBooks s.tables (process_merchant_settlement gross outside config s).1.tables
  unfolding process_merchant_settlement
  process-SameBooks gross outside config s x h =
      elim (Result-cases (begin gross outside config s).0) [
        | inr (y, e) ↦
            rw (e, process_merchant_settlement) (fail-SameBooks outside config y s.tables _)
        | inl (none, e) ↦ absurd (ground (arith, e, h))
        | inl (some row, e) ↦
            rw (e, process_merchant_settlement)
              (finish-SameBooks outside config (completed_settlement row) s.tables
                (begin gross outside config s).1)
      ]
