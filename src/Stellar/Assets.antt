-- ===== src/Stellar/Assets.antt =====
-- modules/stellar/stellar.service.ts: addTrustline, removeTrustline and validatePayoutDestination, and
-- stellar-asset.entity.ts. The check of an address and the account that the server gives are arguments.
use facilpay_api.Common.{
  ℕ, Bool, true, false, ◌&&◌, ◌||◌, Option, none, some, List, ◌==◌, if◌then◌else◌, first, includes,
  ⊤,
}
use facilpay_api.Common.Action.{
  Result, ok, err, not_found, bad_request, ◌>>=◌, ◌>>◌, pure, or_throw, gets,
}
use facilpay_api.Common.Store.{Store, write}
use facilpay_api.Repository.{Repository}

pub record StellarAsset : Type 0 where
  pub id : ℕ
  pub merchant_id : ℕ
  pub asset_code : ℕ
  pub asset_issuer : ℕ
  pub is_accepted : Bool
  pub trustline_added_at : Option ℕ

pub record TrustlineDto : Type 0 where
  pub asset_code : ℕ
  pub asset_issuer : ℕ

abbrev pub is_asset : ℕ → TrustlineDto → StellarAsset → Bool
is_asset merchant dto a =
    (a.merchant_id == merchant)
    && (a.asset_code == dto.asset_code)
    && (a.asset_issuer == dto.asset_issuer)

pub trusted : ℕ → ℕ → ℕ → TrustlineDto → Option StellarAsset → StellarAsset
trusted new now merchant dto none = record {
  id = new;
  merchant_id = merchant;
  asset_code = dto.asset_code;
  asset_issuer = dto.asset_issuer;
  is_accepted = true;
  trustline_added_at = some now;
}
trusted new now merchant dto (some a) = record a {
  is_accepted = true;
  trustline_added_at = some now;
}

abbrev pub untrusted : StellarAsset → StellarAsset
untrusted a = record a { is_accepted = false; trustline_added_at = none }

module _ (repo : Repository StellarAsset (λ r. r.id)) where
  abbrev pub State : Type 0
  State = Store repo.Table ⊤

  unfoldable pub add_trustline : ℕ → ℕ → TrustlineDto → ℕ → State → Result StellarAsset × State
  add_trustline new now dto merchant = do
    existing ← gets (λ s. first (repo.find (is_asset merchant dto) s.tables))
    write (repo.save (trusted new now merchant dto existing))
    pure (trusted new now merchant dto existing)

  unfoldable pub remove_trustline : TrustlineDto → ℕ → State → Result ⊤ × State
  remove_trustline dto merchant = do
    asset ← λ s. or_throw (first (repo.find (is_asset merchant dto) s.tables)) not_found s
    write (repo.save (untrusted asset))

-- Given: whether the address is a public key, the codes of the balances of its account if it exists,
-- and whether the code in upper case is 'XLM'.
pub validate_payout_destination : Bool → Option (List ℕ) → Bool → ℕ → Result ⊤
validate_payout_destination is_key balances is_native asset_code =
    if is_key
    then elim balances [
      | none ↦ err bad_request
      | some codes ↦ if is_native || includes asset_code codes then ok tt else err bad_request
    ]
    else err bad_request
