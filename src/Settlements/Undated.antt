-- ===== src/Settlements/Undated.antt =====
-- The catch block of a run stores no settlement with a date of release.
use facilpay_api.Common.{ℕ, ◌≡◌, refl, inl, inr, none, some, ◌==◌, arith, Bool-cases}
use facilpay_api.Common.Action.{Result, ok, err, Error}
use facilpay_api.Common.Post.{Post, returned, threw, post_bind, post_write, post_state}
use facilpay_api.Settlements.Entities.{MerchantSettlementConfig, Settlement}
use facilpay_api.Settlements.State.{Ledger, Tables, State}
use facilpay_api.Settlements.Amounts.{Outside, failed_settlement}
use facilpay_api.Settlements.Run.{dispatch_settlement_events, save_settlement, fail}

module _ {db : Ledger} where
  -- No settlement has a date of release.
  abbrev pub IsUndated : Tables db → Type 0
  IsUndated t =
      (k : ℕ) (row : Settlement)
      → db.settlements.find_one k t.settlements ≡ some row
      → row.reserved_release_at ≡ none

  abbrev with_settlement : Settlement → Tables db → Tables db
  with_settlement row t = record t { settlements = db.settlements.save row t.settlements }

  abbrev Keeps : {A : Type 0} → Result A × State db → Type 0
  Keeps {A} =
      Post (λ (a : A) (s : State db). IsUndated s.tables) (λ (s : State db). IsUndated s.tables)

  save-IsUndated :
      (row : Settlement) (t : Tables db)
      → row.reserved_release_at ≡ none
      → IsUndated t
      → IsUndated (with_settlement row t)
  save-IsUndated row t e h k r found = elim (Bool-cases (row.id == k)) [
    | inl same ↦ ground (arith, same, db.settlements.find_one-save row k t.settlements, found, e)
    | inr other ↦
        ground (arith, other, db.settlements.find_one-save row k t.settlements, found, h k r)
  ]

  save_settlement-Keeps :
      (row : Settlement) (s : State db)
      → row.reserved_release_at ≡ none
      → IsUndated s.tables
      → Keeps (save_settlement row s)
  save_settlement-Keeps row s e h =
      post_write IsUndated IsUndated (with_settlement row) s h (save-IsUndated row s.tables e h)

  given-Keeps : {A : Type 0} (r : Result A) (s : State db) → IsUndated s.tables → Keeps (r, s)
  given-Keeps (ok a) s h = returned h
  given-Keeps (err e) s h = threw h

  dispatch-Keeps :
      (outside : Outside) (row : Settlement) (s : State db)
      → IsUndated s.tables
      → Keeps (dispatch_settlement_events outside row s)
  unfolding dispatch_settlement_events
  dispatch-Keeps outside row s h = given-Keeps outside.dispatched _ h

  pub fail-IsUndated :
      (outside : Outside) (config : MerchantSettlementConfig) (e : Error) (t : Tables db)
      (s : State db)
      → IsUndated t
      → IsUndated (fail outside config e t s).1.tables
  unfolding fail failed_settlement
  fail-IsUndated outside config e t s h =
      let row = failed_settlement outside config e in
      post_state _ (
        post_bind (save_settlement row) (λ _. dispatch_settlement_events outside row)
          (record s { tables = t }) (save_settlement-Keeps row (record s { tables = t }) refl h)
          (λ u s' h'. dispatch-Keeps outside row s' h'))
