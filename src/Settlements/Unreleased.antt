-- ===== src/Settlements/Unreleased.antt =====
-- No run of the settlements gives a date of release, so no reserve is ever released.
use facilpay_api.Common.{
  ℕ, ◌≡◌, refl, inl, inr, Bool, true, none, some, [], ◌∷◌, All, arith, List-cases,
}
use mathlib.Core.Path.{subst}
use facilpay_api.Common.Action.{Result-cases, failure}
use facilpay_api.Settlements.Entities.{MerchantSettlementConfig, Settlement}
use facilpay_api.Settlements.State.{Ledger, Tables, State}
use facilpay_api.Settlements.Amounts.{Outside, completed_settlement}
use facilpay_api.Settlements.Run.{begin, finish, process_merchant_settlement}
use facilpay_api.Settlements.Reserve.{is_matured, release_all, release_matured_reserves}
use facilpay_api.Settlements.Undated.{IsUndated, fail-IsUndated}

module _ {db : Ledger} where
  finish-IsUndated :
      (outside : Outside) (config : MerchantSettlementConfig) (row : Settlement)
      (before : Tables db) (s : State db)
      → IsUndated before
      → IsUndated (finish outside config row before s).1.tables
  unfolding finish
  finish-IsUndated outside config row before s b = fail-IsUndated outside config failure before s b

  pub process-IsUndated :
      (gross : Bool) (outside : Outside) (config : MerchantSettlementConfig) (s : State db)
      → IsUndated s.tables
      → IsUndated (process_merchant_settlement gross outside config s).1.tables
  unfolding process_merchant_settlement
  process-IsUndated gross outside config s h =
      elim (Result-cases (begin gross outside config s).0) [
        | inr (x, e) ↦
            rw (e, process_merchant_settlement) (fail-IsUndated outside config x s.tables _ h)
        | inl (none, e) ↦ rw (e, process_merchant_settlement) h
        | inl (some row, e) ↦
            rw (e, process_merchant_settlement)
              (finish-IsUndated outside config (completed_settlement row) s.tables _ h)
      ]

  -- With no date of release nothing is due, at any time.
  none_matured :
      (now : ℕ) (s : State db)
      → IsUndated s.tables
      → db.settlements.find (is_matured now) s.tables.settlements ≡ []
  unfolding is_matured
  none_matured now s h =
      elim (List-cases (db.settlements.find (is_matured now) s.tables.settlements)) [
        | inl e ↦ e
        | inr (row, rest, e) ↦
            let found : All
                (λ a.
                  (is_matured now a ≡ true)
                  × (db.settlements.find_one a.id s.tables.settlements ≡ some a))
                (row ∷ rest) =
              subst
                (λ l.
                  All
                    (λ a.
                      (is_matured now a ≡ true)
                      × (db.settlements.find_one a.id s.tables.settlements ≡ some a))
                    l)
                e (db.settlements.find_sound (is_matured now) s.tables.settlements) in
            let undated = h row.id row found.0.1 in ground (arith, found.0.0, undated)
      ]

  pub release-same :
      (now : ℕ) (s : State db) → IsUndated s.tables → release_matured_reserves now s ≡ s
  unfolding release_matured_reserves release_all
  release-same now s h = rw (none_matured now s h) refl

  -- What runs, sweeps and calls that leave the settlements alone reach.
  pub data Reaches (s : State db) : State db → Type 0 where
    here : Reaches s s
    runs :
        (gross : Bool) (outside : Outside) (config : MerchantSettlementConfig) {t : State db}
        → Reaches s t
        → Reaches s (process_merchant_settlement gross outside config t).1
    sweeps : (now : ℕ) {t : State db} → Reaches s t → Reaches s (release_matured_reserves now t)
    changes :
        {t u : State db} → Reaches s t → u.tables.settlements ≡ t.tables.settlements → Reaches s u
