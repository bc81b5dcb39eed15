-- ===== src/Settlements/Reserve.antt =====
-- modules/settlements/settlements.service.ts: releaseMaturedReserves and releaseSettlementReserve.
use facilpay_api.Common.{
  ℕ, Bool, false, ◌&&◌, Option, none, some, List, [], ◌∷◌, leb, ◌==◌, if◌then◌else◌, first, ⊤,
}
use facilpay_api.Common.Int.{pos, ◌-ℤ◌, ltb_ℤ}
use facilpay_api.Common.Action.{Result, ok, ◌>>=◌, ◌>>◌, pure, gets}
use facilpay_api.Settlements.Entities.{ReserveStatus, is_held, MerchantSettlementConfig, Settlement}
use facilpay_api.Settlements.State.{Ledger, State, write, transaction}

abbrev pub has_come : ℕ → Option ℕ → Bool
has_come now none = false
has_come now (some at) = leb at now

-- `reserveStatus = HELD and reservedReleaseAt <= now`
unfoldable pub is_matured : ℕ → Settlement → Bool
is_matured now settlement =
    is_held settlement.reserve_status && has_come now settlement.reserved_release_at

pub released_settlement : Settlement → Settlement
released_settlement settlement = record settlement {
  reserve_status = ReserveStatus.released;
  released_amount = settlement.reserved_amount;
}

-- `Math.max(0, total - reserved)`
pub reduced_config : Settlement → MerchantSettlementConfig → MerchantSettlementConfig
reduced_config settlement config =
    let left = config.total_reserved_amount -ℤ settlement.reserved_amount in
    record config { total_reserved_amount = (if ltb_ℤ left (pos 0) then pos 0 else left) }

module _ {db : Ledger} where
  unfoldable pub reduce_total :
      Settlement → Option MerchantSettlementConfig → State db → Result ⊤ × State db
  reduce_total settlement none = pure tt
  reduce_total settlement (some config) =
      write
        (λ t. record t { configs = db.configs.save (reduced_config settlement config) t.configs })

  unfoldable pub release_writes : Settlement → State db → Result ⊤ × State db
  release_writes settlement = do
    write (λ t. record t {
      settlements = db.settlements.save (released_settlement settlement) t.settlements;
    })
    config ← gets (λ s. first (
        db.configs.find
          (λ c. (c.user_id == settlement.merchant_id) && (c.currency == settlement.currency))
          s.tables.configs))
    reduce_total settlement config

  unfoldable pub release_settlement_reserve : Settlement → State db → Result ⊤ × State db
  release_settlement_reserve settlement s =
      elim (db.settlements.find_one settlement.id s.tables.settlements) [
        | none ↦ (ok tt, s)
        | some locked ↦
            if is_held locked.reserve_status
            then transaction (release_writes locked) s
            else (ok tt, s)
      ]

  -- A release that throws is logged, and the next one follows.
  unfoldable pub release_all : List Settlement → State db → State db
  release_all [] s = s
  release_all (settlement ∷ rest) s = release_all rest (release_settlement_reserve settlement s).1

  unfoldable pub release_matured_reserves : ℕ → State db → State db
  release_matured_reserves now s =
      release_all (db.settlements.find (is_matured now) s.tables.settlements) s
