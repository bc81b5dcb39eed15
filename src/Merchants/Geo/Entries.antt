-- ===== src/Merchants/Geo/Entries.antt =====
-- Lists of cache entries under the operations of a Map.
use facilpay_api.Common.{
  ℕ, ◌+◌, ◌≤◌, ◌≡◌, refl, inl, inr, Bool, false, not, none, some, [], ◌∷◌, ◌++◌, ◌==◌, ltb, length,
  filter, All, arith, Bool-cases,
}
use facilpay_api.Merchants.Geo.{CacheEntry, Cache, get, delete, set_new, enforce_max_size}

-- No address has two entries.
abbrev pub HasNo : ℕ → Cache → Type 0
HasNo ip cache = All (λ e. (e.0 == ip) ≡ false) cache

abbrev pub AllDistinct : Cache → Type 0
AllDistinct [] = Unit
AllDistinct (e ∷ rest) = HasNo e.0 rest × AllDistinct rest

pub length-append :
    (cache : Cache) (e : ℕ × CacheEntry) → length (cache ++ e ∷ []) ≡ length cache + 1
length-append [] e = refl
length-append (x ∷ rest) e = omega (arith, length-append rest e)

pub length-filter :
    (p : ℕ × CacheEntry → Bool) (cache : Cache) → length (filter p cache) ≤ length cache
length-filter p [] = omega arith
length-filter p (e ∷ rest) = ground (arith, length-filter p rest)

pub All-filter :
    (P : ℕ × CacheEntry → Type 0) (p : ℕ × CacheEntry → Bool) (cache : Cache)
    → All P cache
    → All P (filter p cache)
All-filter P p [] h = tt
All-filter P p (e ∷ rest) h = elim (Bool-cases (p e)) [
  | inl kept ↦ rw (kept) (h.0, All-filter P p rest h.1)
  | inr gone ↦ rw (gone) (All-filter P p rest h.1)
]

pub All-append :
    (P : ℕ × CacheEntry → Type 0) (cache : Cache) (e : ℕ × CacheEntry)
    → All P cache
    → P e
    → All P (cache ++ e ∷ [])
All-append P [] e h g = (g, tt)
All-append P (x ∷ rest) e h g = (h.0, All-append P rest e h.1 g)

pub filter-AllDistinct :
    (p : ℕ × CacheEntry → Bool) (cache : Cache) → AllDistinct cache → AllDistinct (filter p cache)
filter-AllDistinct p [] h = tt
filter-AllDistinct p (e ∷ rest) h = elim (Bool-cases (p e)) [
  | inl kept ↦
      rw (kept) (All-filter (λ x. (x.0 == e.0) ≡ false) p rest h.0, filter-AllDistinct p rest h.1)
  | inr gone ↦ rw (gone) (filter-AllDistinct p rest h.1)
]

pub append-AllDistinct :
    (ip : ℕ) (entry : CacheEntry) (cache : Cache)
    → AllDistinct cache
    → HasNo ip cache
    → AllDistinct (set_new ip entry cache)
append-AllDistinct ip entry [] h g = (tt, tt)
append-AllDistinct ip entry (e ∷ rest) h g = (
  All-append (λ x. (x.0 == e.0) ≡ false) rest (ip, entry) h.0 (ground (arith, g.0)),
  append-AllDistinct ip entry rest h.1 g.1,
)

pub delete-HasNo : (ip : ℕ) (cache : Cache) → HasNo ip (delete ip cache)
delete-HasNo ip [] = tt
delete-HasNo ip (e ∷ rest) = elim (Bool-cases (e.0 == ip)) [
  | inl own ↦ rw (own) (delete-HasNo ip rest)
  | inr other ↦ rw (other) (other, delete-HasNo ip rest)
]

pub get-HasNo : (ip : ℕ) (cache : Cache) → get ip cache ≡ none → HasNo ip cache
get-HasNo ip [] h = tt
get-HasNo ip (e ∷ rest) h = elim (Bool-cases (e.0 == ip)) [
  | inl own ↦ ground (arith, own, h)
  | inr other ↦ (other, get-HasNo ip rest (ground (arith, other, h)))
]

-- An entry that is found makes room when it is deleted.
pub length-delete :
    (ip : ℕ) (entry : CacheEntry) (cache : Cache)
    → get ip cache ≡ some entry
    → length (delete ip cache) + 1 ≤ length cache
length-delete ip entry [] h = ground (arith, h)
length-delete ip entry (e ∷ rest) h = elim (Bool-cases (e.0 == ip)) [
  | inl own ↦ rw (own) (omega (arith, length-filter (λ x. not (x.0 == ip)) rest))
  | inr other ↦ rw (other) (omega (arith, length-delete ip entry rest (ground (arith, other, h))))
]

pub length-enforce_max_size : (max : ℕ) (cache : Cache) → length (enforce_max_size max cache) ≤ max
unfolding enforce_max_size
length-enforce_max_size max [] = omega arith
length-enforce_max_size max (e ∷ rest) = ground (arith, length-enforce_max_size max rest)

pub enforce_max_size-All :
    (P : ℕ × CacheEntry → Type 0) (max : ℕ) (cache : Cache)
    → All P cache
    → All P (enforce_max_size max cache)
unfolding enforce_max_size
enforce_max_size-All P max [] h = tt
enforce_max_size-All P max (e ∷ rest) h = elim (Bool-cases (ltb max (length (e ∷ rest)))) [
  | inl over ↦ rw (over) (enforce_max_size-All P max rest h.1)
  | inr within ↦ rw (within) h
]

pub enforce_max_size-AllDistinct :
    (max : ℕ) (cache : Cache) → AllDistinct cache → AllDistinct (enforce_max_size max cache)
unfolding enforce_max_size
enforce_max_size-AllDistinct max [] h = tt
enforce_max_size-AllDistinct max (e ∷ rest) h = elim (Bool-cases (ltb max (length (e ∷ rest)))) [
  | inl over ↦ rw (over) (enforce_max_size-AllDistinct max rest h.1)
  | inr within ↦ rw (within) h
]
