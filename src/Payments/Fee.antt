-- ===== src/Payments/Fee.antt =====
-- Merchant fees: `calculateFee`, `upsertMerchantFeeConfig` and `getMerchantFeeConfig` of
-- modules/payments/payments.service.ts. Amounts are hundredths of the currency and the percentage is
-- in hundredths of a percent, so that the code's products are whole numbers of 1 / 10000 of a
-- hundredth. What `Number(x.toFixed(2))` gives for such a product is a parameter `to_fixed`: the code
-- computes with binary fractions, so that a tie may go to either side.
pub mod Laws
use facilpay_api.Common.{ℕ, ◌+◌, ◌-◌, ◌*◌, ◌/◌, Option, none, some, leb, if◌then◌else◌, or_else}
use facilpay_api.Common.Action.{Result, ◌>>=◌, ◌>>◌, pure, gets}
use facilpay_api.Model.Entities.{MerchantFeeConfig, FeeBreakdown, no_fee_config, breakdown}
use facilpay_api.Model.State.{Database, Tables, State, write}

pub record Fee : Type 0 where
  pub fee_amount : ℕ
  pub net_amount : ℕ
  pub fee_breakdown : FeeBreakdown

-- `Math.max(flatFee + percentageValue, minFee)`
unfoldable pub exact_fee : MerchantFeeConfig → ℕ → ℕ
exact_fee c amount =
    let charged = c.flat_fee * 10000 + amount * c.percentage_fee in
    if leb (c.min_fee * 10000) charged then charged else c.min_fee * 10000

-- The subtraction stops at 0, as `Math.max(0, amount - feeAmount)` does.
pub fee_of_config : (ℕ → ℕ) → Option MerchantFeeConfig → ℕ → Fee
unfolding exact_fee
fee_of_config to_fixed none amount = record {
  fee_amount = 0;
  net_amount = amount;
  fee_breakdown = no_fee_config;
}
fee_of_config to_fixed (some c) amount = record {
  fee_amount = to_fixed (exact_fee c amount);
  net_amount = to_fixed (amount * 10000 - exact_fee c amount);
  fee_breakdown = breakdown c.flat_fee c.percentage_fee c.min_fee;
}

-- upsert-merchant-fee-config.dto.ts
pub record UpsertMerchantFeeConfigDto : Type 0 where
  pub flat_fee : Option ℕ
  pub percentage_fee : Option ℕ
  pub min_fee : Option ℕ

abbrev pub default_config : ℕ → MerchantFeeConfig
default_config merchant = record {
  merchant_id = merchant;
  flat_fee = 0;
  percentage_fee = 0;
  min_fee = 0;
}

-- The fields that the DTO gives replace those of the config.
pub merged_config : UpsertMerchantFeeConfigDto → MerchantFeeConfig → MerchantFeeConfig
merged_config dto c = record c {
  flat_fee = or_else dto.flat_fee c.flat_fee;
  percentage_fee = or_else dto.percentage_fee c.percentage_fee;
  min_fee = or_else dto.min_fee c.min_fee;
}

module _ {db : Database} where
  abbrev pub find_config : Option ℕ → Tables db → Option MerchantFeeConfig
  find_config none t = none
  find_config (some merchant) t = db.fee_configs.find_one merchant t.fee_configs

  pub calculate_fee : (ℕ → ℕ) → Option ℕ → ℕ → Tables db → Fee
  calculate_fee to_fixed merchant amount t = fee_of_config to_fixed (find_config merchant t) amount

  pub upsert_merchant_fee_config :
      ℕ → UpsertMerchantFeeConfigDto → State db → Result MerchantFeeConfig × State db
  upsert_merchant_fee_config merchant dto = do
    found ← gets (λ s. db.fee_configs.find_one merchant s.tables.fee_configs)
    let config = merged_config dto (or_else found (default_config merchant))
    write (λ t. record t { fee_configs = db.fee_configs.save config t.fee_configs })
    pure config

  pub get_merchant_fee_config : ℕ → State db → Result MerchantFeeConfig × State db
  get_merchant_fee_config merchant = do
    found ← gets (λ s. db.fee_configs.find_one merchant s.tables.fee_configs)
    pure (or_else found (default_config merchant))
