-- ===== src/Merchants/Geo/Cache.antt =====
-- The cache of countries stays small, and a lookup answers as the database does.
use facilpay_api.Common.{
  ℕ, ◌+◌, ◌*◌, ◌≤◌, ◌≡◌, refl, inl, inr, not, Option, some, [], ◌∷◌, ◌==◌, leb, ltb, length, All,
  arith, Bool-cases, Option-cases, ==_iff,
}
use facilpay_api.Merchants.Geo.{
  CacheEntry, Cache, Config, get, delete, set_new, evict_expired, look_up, lookup_country,
}
use facilpay_api.Merchants.Geo.Entries.{
  HasNo, AllDistinct, length-append, length-filter, All-filter, All-append, filter-AllDistinct,
  append-AllDistinct, delete-HasNo, get-HasNo, length-delete, length-enforce_max_size,
  enforce_max_size-All, enforce_max_size-AllDistinct,
}

module _ (config : Config) (geoip : ℕ → Option ℕ) where
  -- An entry holds what the database gives.
  abbrev IsTrue : ℕ × CacheEntry → Type 0
  IsTrue e = e.1.country ≡ geoip e.0

  pub record IsSound (cache : Cache) : Type 0 where
    pub size : length cache ≤ config.max_size
    pub distinct : AllDistinct cache
    pub truth : All IsTrue cache

  get-IsTrue :
      (ip : ℕ) (entry : CacheEntry) (cache : Cache)
      → All IsTrue cache
      → get ip cache ≡ some entry
      → IsTrue (ip, entry)
  get-IsTrue ip entry [] h found = ground (arith, found)
  get-IsTrue ip entry (e ∷ rest) h found = elim (Bool-cases (e.0 == ip)) [
    | inl own ↦
        let key = (==_iff e.0 ip).0 own in
        let is_entry : e.1 ≡ entry = ground (arith, own, found) in rw (← key, ← is_entry) h.0
    | inr other ↦ get-IsTrue ip entry rest h.1 (ground (arith, other, found))
  ]

  look_up-IsSound :
      (now ip : ℕ) (cache : Cache)
      → AllDistinct cache
      → HasNo ip cache
      → All IsTrue cache
      → IsSound (look_up config geoip now ip cache).1
  unfolding look_up
  look_up-IsSound now ip cache distinct absent truth =
      let entry : CacheEntry = record {
        country = geoip ip;
        expires_at = now + config.ttl_seconds * 1000;
      } in
      record {
        size = length-enforce_max_size config.max_size (set_new ip entry cache);
        distinct =
            enforce_max_size-AllDistinct config.max_size (set_new ip entry cache)
              (append-AllDistinct ip entry cache distinct absent);
        truth =
            enforce_max_size-All IsTrue config.max_size (set_new ip entry cache)
              (All-append IsTrue cache (ip, entry) truth refl);
      }

  look_up-geoip : (now ip : ℕ) (cache : Cache) → (look_up config geoip now ip cache).0 ≡ geoip ip
  unfolding look_up
  look_up-geoip now ip cache = refl

  lookup_country-IsSound :
      (now ip : ℕ) (cache : Cache)
      → IsSound cache
      → IsSound (lookup_country config geoip now ip cache).1
  unfolding lookup_country
  lookup_country-IsSound now ip cache h = elim (Option-cases (get ip cache)) [
    | inl e ↦
        rw (e, lookup_country)
          (look_up-IsSound now ip cache h.distinct (get-HasNo ip cache e) h.truth)
    | inr (cached, e) ↦
        let kept = filter-AllDistinct (λ x. not (x.0 == ip)) cache h.distinct in
        let true_rest = All-filter IsTrue (λ x. not (x.0 == ip)) cache h.truth in
        elim (Bool-cases (ltb now cached.expires_at)) [
          | inl fresh ↦
              rw (e, fresh, lookup_country)
                (record {
                  size = omega (
                    arith,
                    h.size,
                    length-delete ip cached cache e,
                    length-append (delete ip cache) (ip, cached),
                  );
                  distinct =
                      append-AllDistinct ip cached (delete ip cache) kept (delete-HasNo ip cache);
                  truth =
                      All-append IsTrue (delete ip cache) (ip, cached) true_rest
                        (get-IsTrue ip cached cache h.truth e);
                })
          | inr stale ↦
              rw (e, stale, lookup_country)
                (look_up-IsSound now ip (delete ip cache) kept (delete-HasNo ip cache) true_rest)
        ]
  ]

  lookup_country-geoip :
      (now ip : ℕ) (cache : Cache)
      → All IsTrue cache
      → (lookup_country config geoip now ip cache).0 ≡ geoip ip
  unfolding lookup_country
  lookup_country-geoip now ip cache h = elim (Option-cases (get ip cache)) [
    | inl e ↦ rw (e, lookup_country) (look_up-geoip now ip cache)
    | inr (cached, e) ↦ elim (Bool-cases (ltb now cached.expires_at)) [
      | inl fresh ↦ rw (e, fresh, lookup_country) (get-IsTrue ip cached cache h e)
      | inr stale ↦ rw (e, stale, lookup_country) (look_up-geoip now ip (delete ip cache))
    ]
  ]

  evict_expired-IsSound :
      (now : ℕ) (cache : Cache) → IsSound cache → IsSound (evict_expired now cache)
  unfolding evict_expired
  evict_expired-IsSound now cache h =
      let live : ℕ × CacheEntry → _ = λ e. not (leb e.1.expires_at now) in
      record {
        size = omega (arith, h.size, length-filter live cache);
        distinct = filter-AllDistinct live cache h.distinct;
        truth = All-filter IsTrue live cache h.truth;
      }

  -- What lookups and evictions at any times make of the empty cache.
  pub data Reaches : Cache → Type 0 where
    empty : Reaches []
    looks :
        (now ip : ℕ) {cache : Cache}
        → Reaches cache
        → Reaches (lookup_country config geoip now ip cache).1
    evicts : (now : ℕ) {cache : Cache} → Reaches cache → Reaches (evict_expired now cache)

  -- Every cache that is reached has at most the maximum size, no address twice, and true entries.
  pub Reaches-IsSound : {cache : Cache} → Reaches cache → IsSound cache
  Reaches-IsSound empty = record { size = omega arith; distinct = tt; truth = tt }
  Reaches-IsSound (looks now ip {cache = cache} r) =
      lookup_country-IsSound now ip cache (Reaches-IsSound r)
  Reaches-IsSound (evicts now {cache = cache} r) =
      evict_expired-IsSound now cache (Reaches-IsSound r)

  -- From every cache that is reached, a lookup answers as the database does.
  pub Reaches-lookup_country :
      {cache : Cache}
      → Reaches cache
      → (now ip : ℕ) → (lookup_country config geoip now ip cache).0 ≡ geoip ip
  Reaches-lookup_country {cache = cache} r now ip =
      lookup_country-geoip now ip cache (Reaches-IsSound r).truth
