-- ===== src/Merchants/Restrictions/Laws.antt =====
-- Whom the restrictions of a merchant let in.
use facilpay_api.Common.{
  ℕ, ◌≡◌, refl, ◌↔◌, ◌⊎◌, inl, inr, Bool, true, false, not, ◌&&◌, ◌||◌, Option, none, some, List,
  [], ◌∷◌, includes, includes_iff, In-is_empty, is_empty, any, In, or_else, arith, Bool-cases,
  Option-cases,
}
use mathlib.Core.Path.{subst}
use facilpay_api.Common.Action.{ok}
use facilpay_api.Common.Text.{Text}
use facilpay_api.Repository.{find_one-saved}
use facilpay_api.Merchants.Geo.{Cache, Config}
use facilpay_api.Merchants.Geo.Cache.{Reaches, Reaches-lookup_country}
use facilpay_api.Merchants.Ip.{Net, normalize_ip, matches_cidr, is_ip_allowed}
use facilpay_api.Merchants.Restrictions.{
  MerchantGeoRestriction, MerchantIpAllowlist, Repositories, State, is_refused, admit,
  enforce_config, enforce_geo_restriction, upsert_ip_allowlist, enforce_ip_allowlist, new_allowlist,
}

-- The countries that a merchant admits; an unknown country is admitted.
abbrev pub Admits : MerchantGeoRestriction → Option ℕ → Type 0
Admits config none = Unit
Admits config (some country) =
    ((or_else config.allowed_countries [] ≡ []) ⊎ In country (or_else config.allowed_countries []))
    × ¬ In country (or_else config.blocked_countries [])

is_empty-eq : {A : Type 0} (l : List A) → is_empty l ≡ true → l ≡ []
is_empty-eq [] h = refl
is_empty-eq (x ∷ l) h = ground (arith, h)

admitted_iff :
    (country : ℕ) (allowed blocked : List ℕ)
    → (((not (is_empty allowed) && not (includes country allowed))
          || (not (is_empty blocked) && includes country blocked))
        ≡ false)
      ↔ (((allowed ≡ []) ⊎ In country allowed) × ¬ In country blocked)
admitted_iff country allowed blocked = (
  λ h. (
    elim (Bool-cases (is_empty allowed)) [
      | inl e ↦ inl (is_empty-eq allowed e)
      | inr e ↦ inr ((includes_iff country allowed).0 (ground (arith, h, e)))
    ],
    λ m. elim (Bool-cases (is_empty blocked)) [
      | inl e ↦ In-is_empty country blocked e m
      | inr e ↦ ground (arith, h, e, (includes_iff country blocked).1 m)
    ],
  ),
  λ h. elim (Bool-cases (includes country blocked)) [
    | inl found ↦ absurd (h.1 ((includes_iff country blocked).0 found))
    | inr free ↦ elim h.0 [
      | inl e ↦ ground (arith, e, free)
      | inr m ↦ ground (arith, (includes_iff country allowed).1 m, free)
    ]
  ],
)

admit_iff :
    (config : MerchantGeoRestriction) (country : Option ℕ)
    → (admit config country ≡ ok tt) ↔ Admits config country
unfolding admit is_refused
admit_iff config none = (λ h. tt, λ h. refl)
admit_iff config (some country) =
    let allowed = or_else config.allowed_countries [] in
    let blocked = or_else config.blocked_countries [] in
    let iff = admitted_iff country allowed blocked in
    (λ h. iff.0 (ground (arith, h)), λ h. ground (arith, iff.1 h))

module _ (repos : Repositories) where
  -- With a cache that lookups and evictions have made, a payment from an address passes the countries
  -- of a merchant who has a row exactly when it is a test that bypasses them, or the country that the
  -- database gives is not known, or it is in the list of allowed countries if that has entries, and
  -- not in the list of blocked ones.
  pub enforce_geo_restriction_iff :
      (lookup : Config) (geoip : ℕ → Option ℕ) (cache : Cache)
      → Reaches lookup geoip cache
      → (now merchant_id ip : ℕ) (is_test_mode : Bool) (s : State repos)
        (config : MerchantGeoRestriction)
      → repos.restrictions.find_one merchant_id s.tables.restrictions ≡ some config
      → ((enforce_geo_restriction repos lookup geoip now
            (some merchant_id)
            (some ip)
            is_test_mode
            s
            cache).0
          ≡ ok tt)
        ↔ (((is_test_mode && config.bypass_in_test_mode) ≡ true) ⊎ Admits config (geoip ip))
  unfolding enforce_geo_restriction enforce_config
  enforce_geo_restriction_iff lookup geoip cache r now merchant_id ip is_test_mode s config found =
      let answer = Reaches-lookup_country lookup geoip r now ip in
      let iff = admit_iff config (geoip ip) in
      elim (Bool-cases (is_test_mode && config.bypass_in_test_mode)) [
        | inl bypassed ↦ (λ h. inl bypassed, λ h. ground (arith, found, bypassed))
        | inr checked ↦ (
          λ h. inr (iff.0 (ground (arith, found, checked, answer, h))),
          λ h. elim h [
            | inl e ↦ ground (arith, e, checked)
            | inr admits ↦ ground (arith, found, checked, answer, iff.1 admits)
          ],
        )
      ]

any_iff :
    {A : Type 0} (p : A → Bool) (l : List A) → (any p l ≡ true) ↔ ((a : A) × In a l × (p a ≡ true))
any_iff p [] = (λ h. ground (arith, h), λ m. absurd (m.1))
any_iff p (x ∷ l) = (
  λ h. elim (Bool-cases (p x)) [
    | inl e ↦ (x, inl refl, e)
    | inr e ↦ let (a, m, q) = (any_iff p l).0 (ground (arith, e, h)) in (a, inr m, q)
  ],
  λ h.
      let (a, m, q) = h in
      elim m [
        | inl e ↦ let own : p x ≡ true = rw (← e) q in ground (arith, own)
        | inr m' ↦ ground (arith, (any_iff p l).1 (a, m', q))
      ],
)

-- An allowlist that is empty, or has an entry that the address matches.
abbrev pub Allows : Net → Text → List Text → Type 0
Allows net ip allowed =
    (allowed ≡ [])
    ⊎ ((entry : Text) × In entry allowed × (matches_cidr net (normalize_ip ip) entry ≡ true))

is_ip_allowed_iff :
    (net : Net) (ip : Text) (allowed : List Text)
    → ((not (is_empty allowed) && not (is_ip_allowed net ip allowed)) ≡ false)
      ↔ Allows net ip allowed
unfolding is_ip_allowed
is_ip_allowed_iff net ip allowed =
    let iff = any_iff (λ entry. matches_cidr net (normalize_ip ip) entry) allowed in
    elim (Bool-cases (is_empty allowed)) [
      | inl e ↦ (λ h. inl (is_empty-eq allowed e), λ h. ground (arith, e))
      | inr e ↦ (
        λ h. inr (iff.0 (ground (arith, e, h))),
        λ h. elim h [
          | inl none_ ↦ ground (arith, none_, e)
          | inr some_ ↦ ground (arith, e, iff.1 some_)
        ],
      )
    ]

module _ (repos : Repositories) where
  -- The row that is stored is the one of the merchant, with the list.
  upsert_ip_allowlist-stored :
      (new merchant_id : ℕ) (allowed : List Text) (s : State repos) (row : MerchantIpAllowlist)
      → (upsert_ip_allowlist repos new merchant_id allowed s).0 ≡ ok row
      → (stored : MerchantIpAllowlist) × (repos.allowlists.find_one merchant_id
            (upsert_ip_allowlist repos new merchant_id allowed s).1.tables.allowlists
          ≡ some stored)
        × (stored.allowed_ips ≡ allowed)
  unfolding upsert_ip_allowlist
  upsert_ip_allowlist-stored new merchant_id allowed s row h =
      let found = repos.allowlists.find_one merchant_id s.tables.allowlists in
      let old = or_else found (new_allowlist new merchant_id) in
      let stored : MerchantIpAllowlist = record old { allowed_ips = allowed } in
      let saved : (upsert_ip_allowlist repos new merchant_id allowed s).1.tables.allowlists
          ≡ repos.allowlists.save stored s.tables.allowlists =
        ground (arith, h) in
      let key : stored.merchant_id ≡ merchant_id = elim (Option-cases found) [
        | inl e ↦ ground (arith, e)
        | inr (a, e) ↦
            ground (arith, e, repos.allowlists.key-find_one merchant_id s.tables.allowlists a e)
      ] in
      (
        stored,
        rw (saved) (
            subst
              (λ k.
                repos.allowlists.find_one k (repos.allowlists.save stored s.tables.allowlists)
                ≡ some stored)
              key (find_one-saved repos.allowlists stored s.tables.allowlists)),
        refl,
      )

  -- When an allowlist was stored, exactly the addresses that match one of its entries pass, or all of them
  -- if it is empty.
  enforce_ip_allowlist-upsert :
      (net : Net) (new merchant_id : ℕ) (allowed : List Text) (ip : Text) (s : State repos)
      (row : MerchantIpAllowlist)
      → (upsert_ip_allowlist repos new merchant_id allowed s).0 ≡ ok row
      → ((enforce_ip_allowlist repos net merchant_id
            (some ip)
            (upsert_ip_allowlist repos new merchant_id allowed s).1).0
          ≡ ok tt)
        ↔ Allows net ip allowed
  unfolding enforce_ip_allowlist
  enforce_ip_allowlist-upsert net new merchant_id allowed ip s row h =
      let (stored, found, same) = upsert_ip_allowlist-stored new merchant_id allowed s row h in
      let iff = is_ip_allowed_iff net ip allowed in
      (
        λ passed. iff.0 (ground (arith, found, same, passed)),
        λ allows. ground (arith, found, same, iff.1 allows),
      )
