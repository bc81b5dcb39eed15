-- ===== src/Merchants/Restrictions.antt =====
-- merchants.service.ts: the countries and the addresses that a merchant admits, with
-- merchant-geo-restriction.entity.ts, merchant-ip-allowlist.entity.ts and their DTOs. The tables are
-- looked up by the unique column `merchantId`.
pub mod Laws
use facilpay_api.Common.{
  ℕ, Bool, true, not, ◌&&◌, ◌||◌, Option, none, some, List, [], if◌then◌else◌, includes, is_empty,
  or_else, or_other, ⊤,
}
use facilpay_api.Common.Action.{Result, ok, err, forbidden, ◌>>◌, pure, throw_if}
use facilpay_api.Common.Store.{Store, write}
use facilpay_api.Common.Text.{Text}
use facilpay_api.Repository.{Repository}
use facilpay_api.Merchants.Geo.{Cache, Config, lookup_country}
use facilpay_api.Merchants.Ip.{Net, is_ip_allowed}

pub record MerchantGeoRestriction : Type 0 where
  pub id : ℕ
  pub merchant_id : ℕ
  pub allowed_countries : Option (List ℕ)
  pub blocked_countries : Option (List ℕ)
  pub bypass_in_test_mode : Bool

pub record MerchantIpAllowlist : Type 0 where
  pub id : ℕ
  pub merchant_id : ℕ
  pub allowed_ips : List Text

pub record UpdateGeoRestrictionsDto : Type 0 where
  pub allowed_countries : Option (List ℕ)
  pub blocked_countries : Option (List ℕ)
  pub bypass_in_test_mode : Option Bool

pub record Repositories : Type 1 where
  pub restrictions : Repository MerchantGeoRestriction (λ r. r.merchant_id)
  pub allowlists : Repository MerchantIpAllowlist (λ r. r.merchant_id)

abbrev pub new_restriction : ℕ → ℕ → MerchantGeoRestriction
new_restriction new merchant_id = record {
  id = new;
  merchant_id = merchant_id;
  allowed_countries = none;
  blocked_countries = none;
  bypass_in_test_mode = true;
}

unfoldable pub restricted :
    UpdateGeoRestrictionsDto → MerchantGeoRestriction → MerchantGeoRestriction
restricted dto config = record config {
  allowed_countries = or_other dto.allowed_countries config.allowed_countries;
  blocked_countries = or_other dto.blocked_countries config.blocked_countries;
  bypass_in_test_mode = or_else dto.bypass_in_test_mode config.bypass_in_test_mode;
}

-- A list that is missing or empty restricts nothing.
unfoldable pub is_refused : MerchantGeoRestriction → ℕ → Bool
is_refused config country =
    let allowed = or_else config.allowed_countries [] in
    let blocked = or_else config.blocked_countries [] in
    (not (is_empty allowed) && not (includes country allowed))
    || (not (is_empty blocked) && includes country blocked)

-- A country that is not known is admitted.
unfoldable pub admit : MerchantGeoRestriction → Option ℕ → Result ⊤
admit config none = ok tt
admit config (some country) = if is_refused config country then err forbidden else ok tt

-- The merchant and the address are known, and the row is there.
unfoldable pub enforce_config :
    Config → (ℕ → Option ℕ) → ℕ → ℕ → Bool → MerchantGeoRestriction → Cache → Result ⊤ × Cache
enforce_config lookup geoip now ip is_test_mode config cache =
    if is_test_mode && config.bypass_in_test_mode
    then (ok tt, cache)
    else (let (country, cache') = lookup_country lookup geoip now ip cache in
        (admit config country, cache'))

abbrev pub new_allowlist : ℕ → ℕ → MerchantIpAllowlist
new_allowlist new merchant_id = record { id = new; merchant_id = merchant_id; allowed_ips = [] }

module _ (repos : Repositories) where
  pub record Tables : Type 0 where
    pub restrictions : repos.restrictions.Table
    pub allowlists : repos.allowlists.Table

  abbrev pub State : Type 0
  State = Store Tables ⊤

  unfoldable pub upsert_geo_restrictions :
      ℕ → ℕ → UpdateGeoRestrictionsDto → State → Result MerchantGeoRestriction × State
  upsert_geo_restrictions new merchant_id dto s =
      let found = repos.restrictions.find_one merchant_id s.tables.restrictions in
      let config = restricted dto (or_else found (new_restriction new merchant_id)) in
      (write (λ t. record t { restrictions = repos.restrictions.save config t.restrictions })
          >> pure config)
        s

  -- Nothing is written but the cache of countries.
  unfoldable pub enforce_geo_restriction :
      Config → (ℕ → Option ℕ) → ℕ → Option ℕ → Option ℕ → Bool → State → Cache → Result ⊤ × Cache
  enforce_geo_restriction lookup geoip now none ip is_test_mode s cache = (ok tt, cache)
  enforce_geo_restriction lookup geoip now (some merchant_id) none is_test_mode s cache =
      (ok tt, cache)
  enforce_geo_restriction lookup geoip now (some merchant_id) (some ip) is_test_mode s cache =
      elim (repos.restrictions.find_one merchant_id s.tables.restrictions) [
        | none ↦ (ok tt, cache)
        | some config ↦ enforce_config lookup geoip now ip is_test_mode config cache
      ]

  unfoldable pub upsert_ip_allowlist :
      ℕ → ℕ → List Text → State → Result MerchantIpAllowlist × State
  upsert_ip_allowlist new merchant_id allowed_ips s =
      let found = repos.allowlists.find_one merchant_id s.tables.allowlists in
      let row = record (or_else found (new_allowlist new merchant_id)) {
        allowed_ips = allowed_ips;
      } in
      (write (λ t. record t { allowlists = repos.allowlists.save row t.allowlists }) >> pure row) s

  unfoldable pub enforce_ip_allowlist : Net → ℕ → Option Text → State → Result ⊤ × State
  enforce_ip_allowlist net merchant_id none s = (ok tt, s)
  enforce_ip_allowlist net merchant_id (some ip) s =
      elim (repos.allowlists.find_one merchant_id s.tables.allowlists) [
        | none ↦ (ok tt, s)
        | some row ↦
            throw_if (not (is_empty row.allowed_ips) && not (is_ip_allowed net ip row.allowed_ips))
              forbidden s
      ]
