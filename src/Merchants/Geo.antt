-- ===== src/Merchants/Geo.antt =====
-- merchants/geo-lookup.service.ts: the country of an address, and the cache of the answers. `geoip` is the
-- database of the package geoip-lite. The cache is a Map: its entries are in the order in which they were
-- set, the first one first.
pub mod Entries
pub mod Cache
use facilpay_api.Common.{
  ℕ, ◌+◌, ◌*◌, not, ◌==◌, ltb, leb, Option, none, some, List, [], ◌∷◌, ◌++◌, if◌then◌else◌, length,
  filter,
}

pub record CacheEntry : Type 0 where
  pub country : Option ℕ
  pub expires_at : ℕ

abbrev pub Cache : Type 0
Cache = List (ℕ × CacheEntry)

pub record Config : Type 0 where
  pub max_size : ℕ
  pub ttl_seconds : ℕ

abbrev pub get : ℕ → Cache → Option CacheEntry
get ip [] = none
get ip ((key, entry) ∷ rest) = if key == ip then some entry else get ip rest

abbrev pub delete : ℕ → Cache → Cache
delete ip cache = filter (λ e. not (e.0 == ip)) cache

-- `Map.set` of a key that is not there.
abbrev pub set_new : ℕ → CacheEntry → Cache → Cache
set_new ip entry cache = cache ++ (ip, entry) ∷ []

unfoldable pub enforce_max_size : ℕ → Cache → Cache
enforce_max_size max [] = []
enforce_max_size max (e ∷ rest) =
    if ltb max (length (e ∷ rest)) then enforce_max_size max rest else e ∷ rest

unfoldable pub evict_expired : ℕ → Cache → Cache
evict_expired now cache = filter (λ e. not (leb e.1.expires_at now)) cache

module _ (config : Config) (geoip : ℕ → Option ℕ) where
  -- The address is looked up; it is not in the cache.
  unfoldable pub look_up : ℕ → ℕ → Cache → Option ℕ × Cache
  look_up now ip cache =
      let entry : CacheEntry = record {
        country = geoip ip;
        expires_at = now + config.ttl_seconds * 1000;
      } in
      (geoip ip, enforce_max_size config.max_size (set_new ip entry cache))

  unfoldable pub lookup_country : ℕ → ℕ → Cache → Option ℕ × Cache
  lookup_country now ip cache = elim (get ip cache) [
    | none ↦ look_up now ip cache
    | some cached ↦
        if ltb now cached.expires_at
        then (cached.country, set_new ip cached (delete ip cache))
        else look_up now ip (delete ip cache)
  ]
