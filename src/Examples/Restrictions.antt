-- ===== src/Examples/Restrictions.antt =====
-- The theorems on the profile and the restrictions of merchants, at concrete tables.
use facilpay_api.Common.{
  ℕ, ◌≡◌, ◌↔◌, ◌⊎◌, refl, true, false, Option, none, some, List, [], ◌∷◌, ◌==◌, ◌&&◌, if◌then◌else◌,
}
use facilpay_api.Common.Action.{ok}
use facilpay_api.Common.Text.{Text}
use facilpay_api.Repository.{Repository}
use facilpay_api.Repository.Rows.{rows}
use facilpay_api.Merchants.Ip.{Net}
use facilpay_api.Merchants.Geo.{Cache, Config, lookup_country}
use facilpay_api.Merchants.Geo.Cache.{IsSound, Reaches-IsSound}
use facilpay_api.Merchants.Geo.Cache as GeoCache
use facilpay_api.Merchants.Onboarding.{
  OnboardingStatus, MerchantOnboarding, State as Profiles, created,
}
use facilpay_api.Merchants.Onboarding.Profile.{
  UpdateMerchantProfileDto, update_profile, log_changes, changes_of, with_profile, flagged,
  is_sensitive,
}
use facilpay_api.Merchants.Onboarding.Backed.{IsAsApproved}
use facilpay_api.Merchants.Onboarding.Approval.{Reaches, Reaches-IsAsApproved}
use facilpay_api.Merchants.Restrictions.{
  MerchantGeoRestriction, MerchantIpAllowlist, Repositories, State, enforce_geo_restriction,
  upsert_ip_allowlist,
}
use facilpay_api.Merchants.Restrictions.Laws.{Admits, enforce_geo_restriction_iff}

abbrev table : Repository MerchantOnboarding (λ r. r.merchant_id)
table = rows (λ r. r.merchant_id)

abbrev approved : MerchantOnboarding
approved = record (created 1 2) {
  legal_name = some 30;
  country = some 31;
  status = OnboardingStatus.approved;
}

abbrev profiles : Profiles table
profiles = record {
  tables = record { onboardings = approved ∷ []; audit_logs = [] };
  outbox = [];
  faults = [];
}

-- Only the website is changed.
abbrev dto : UpdateMerchantProfileDto
dto = record {
  business_name = none;
  legal_name = some 30;
  website = some 40;
  support_email = none;
  support_phone = none;
  country = none;
  timezone = none;
  default_currency = none;
}

abbrev kept : MerchantOnboarding
kept = record approved { website = some 40 }

update_kept :
    table.find_one 2 (update_profile table 5 2 dto none profiles).1.tables.onboardings ≡ some kept
unfolding update_profile log_changes changes_of with_profile flagged is_sensitive
update_kept = refl

Reaches-IsAsApproved_example :
    (old : MerchantOnboarding) × (table.find_one 2 profiles.tables.onboardings ≡ some old)
    × IsAsApproved kept old
Reaches-IsAsApproved_example =
    Reaches-IsAsApproved table {s = profiles} (Reaches.updates 5 2 dto none Reaches.here) 2 kept
      update_kept refl

abbrev config : Config
config = record { max_size = 1; ttl_seconds = 300 }

-- The addresses below 100 are in country 7.
abbrev geoip : ℕ → Option ℕ
geoip ip = if ip == 5 then some 7 else none

-- The second lookup takes the place of the first.
abbrev cache : Cache
cache = (lookup_country config geoip 10 5 (lookup_country config geoip 0 6 []).1).1

looked_up : GeoCache.Reaches config geoip cache
looked_up = GeoCache.Reaches.looks 10 5 (GeoCache.Reaches.looks 0 6 GeoCache.Reaches.empty)

Reaches-IsSound_example : IsSound config geoip cache
Reaches-IsSound_example = Reaches-IsSound config geoip looked_up

abbrev repos : Repositories
repos = record { restrictions = rows (λ r. r.merchant_id); allowlists = rows (λ r. r.merchant_id) }

abbrev restriction : MerchantGeoRestriction
restriction = record {
  id = 1;
  merchant_id = 2;
  allowed_countries = none;
  blocked_countries = some (7 ∷ []);
  bypass_in_test_mode = true;
}

abbrev state : State repos
state = record {
  tables = record { restrictions = restriction ∷ []; allowlists = [] };
  outbox = [];
  faults = [];
}

enforce_geo_restriction_iff_example :
    ((enforce_geo_restriction repos config geoip 20 (some 2) (some 5) false state cache).0 ≡ ok tt)
    ↔ (((false && true) ≡ true) ⊎ Admits restriction (geoip 5))
enforce_geo_restriction_iff_example =
    enforce_geo_restriction_iff repos config geoip cache looked_up 20 2 5 false state restriction
      refl

abbrev net : Net
net = record { is_ipv4 = λ t. true; is_ipv6 = λ t. false }

-- '1' stands for an address.
abbrev allowed : List Text
allowed = (49 ∷ []) ∷ []

abbrev row : MerchantIpAllowlist
row = record { id = 9; merchant_id = 2; allowed_ips = allowed }

upserted : (upsert_ip_allowlist repos 9 2 allowed state).0 ≡ ok row
unfolding upsert_ip_allowlist
upserted = refl
