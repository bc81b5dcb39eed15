-- ===== src/Payments/Fee/Laws.antt =====
-- What a merchant is charged, and what remains of the payment.
use facilpay_api.Common.{
  Option-cases, Bool-cases, inl, inr, ◌⊎◌, ◌≢◌, ℕ, ◌+◌, ◌-◌, ◌*◌, ◌%◌, ◌≤◌, ◌≡◌, some, [], arith,
  or_else, if◌then◌else◌, ◌==◌,
}
use facilpay_api.Common.Action.{ok}
use facilpay_api.Model.Entities.{MerchantFeeConfig}
use facilpay_api.Model.State.{Database, State}
use facilpay_api.Payments.Fee.{
  exact_fee, fee_of_config, UpsertMerchantFeeConfigDto, upsert_merchant_fee_config,
  get_merchant_fee_config, merged_config, default_config,
}

-- What the rounding to hundredths is relied on for: a nearest hundredth, on either side of a tie.
pub record IsToFixed (to_fixed : ℕ → ℕ) : Type 0 where
  pub not_below : (x : ℕ) → x ≤ to_fixed x * 10000 + 5000
  pub not_above : (x : ℕ) → to_fixed x * 10000 ≤ x + 5000

-- If the exact fee is at most the payment, the fee and the net amount add up to the payment, or to one
-- hundredth more or less; and to the payment itself when the exact fee is not between two hundredths,
-- half a hundredth from each.
pub fee-net_sum :
    (to_fixed : ℕ → ℕ) (c : MerchantFeeConfig) (amount : ℕ)
    → IsToFixed to_fixed
    → exact_fee c amount ≤ amount * 10000
    → let fee = fee_of_config to_fixed (some c) amount in
      (fee.fee_amount + fee.net_amount ≤ amount + 1)
      × (amount ≤ fee.fee_amount + fee.net_amount + 1)
      × ((exact_fee c amount % 10000 ≡ 5000) ⊎ (fee.fee_amount + fee.net_amount ≡ amount))
unfolding fee_of_config
fee-net_sum to_fixed c amount rounds covered =
    let x = exact_fee c amount in
    let y = amount * 10000 - x in
    let x_low = rounds.not_below x in
    let x_high = rounds.not_above x in
    let y_low = rounds.not_below y in
    let y_high = rounds.not_above y in
    (
      omega arith,
      omega arith,
      elim (Bool-cases (x % 10000 == 5000)) [
        | inl tie ↦ inl (ground (arith, tie))
        | inr other ↦
            let apart : x % 10000 ≢ 5000 = λ e. ground (arith, other, e) in inr (omega arith)
      ],
    )

module _ {db : Database} where
  -- When no write fails, the configuration that is upserted for a merchant is read back, with the
  -- fields that were left out kept, and the configuration of every other merchant stays.
  get-upsert_config :
      (merchant k : ℕ) (dto : UpsertMerchantFeeConfigDto) (s : State db)
      → s.faults ≡ []
      → (get_merchant_fee_config k (upsert_merchant_fee_config merchant dto s).1).0
        ≡ ok (
            if merchant == k
            then merged_config dto (
                or_else
                  (db.fee_configs.find_one merchant s.tables.fee_configs)
                  (default_config merchant))
            else or_else (db.fee_configs.find_one k s.tables.fee_configs) (default_config k))
  unfolding get_merchant_fee_config upsert_merchant_fee_config merged_config
  get-upsert_config merchant k dto s f =
      let t = s.tables.fee_configs in
      let old = or_else (db.fee_configs.find_one merchant t) (default_config merchant) in
      let is_merchant : (merged_config dto old).merchant_id ≡ merchant =
        elim (Option-cases (db.fee_configs.find_one merchant t)) [
          | inl e ↦ ground (arith, e)
          | inr (c, e) ↦ ground (arith, e, db.fee_configs.key-find_one merchant t c e)
        ] in
      ground (arith, is_merchant, db.fee_configs.find_one-save (merged_config dto old) k t)
