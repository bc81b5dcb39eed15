-- ===== src/Merchants/Ip/Laws.antt =====
-- An IPv4 block is a set of addresses with the same leading bits, and a client cannot choose its
-- address by entries that it puts in front of the header.
use Prim.Native.Nat.{bit_and}
use facilpay_api.Common.{
  ℕ, zero, suc, ◌-◌, ◌*◌, ◌/◌, ◌^◌, ◌≤◌, ◌<◌, ◌≡◌, refl, sym, ap, ◌∙◌, ◌↔◌, inl, inr, Bool, true,
  not, ◌&&◌, some, List, [], ◌∷◌, ◌++◌, map, ◌==◌, ==_iff, filter, is_empty, or_other, arith,
  Bool-cases,
}
use native.Mathlib.Nat.{div-lt_iff_lt-mul, one-le-pow, mul-div_cancel}
use mathlib.Core.Path.{subst}
use facilpay_api.Common.Bits.{bit_and-shifted, bit_and-ones}
use facilpay_api.Common.Text.{Text, split, split-append, trim}
use facilpay_api.Merchants.Ip.{
  Net, mask, ipv4_to_int, same_ipv4_block, normalize_ip, entries, last_untrusted, Request,
  extract_client_ip,
}

every_below : ℕ → (ℕ → Bool) → Bool
every_below zero p = true
every_below (suc n) p = p n && every_below n p

every_below_sound : (n : ℕ) (p : ℕ → Bool) (x : ℕ) → every_below n p ≡ true → x < n → p x ≡ true
unfolding every_below
every_below_sound zero p x h lt = absurd (omega (arith, lt))
every_below_sound (suc n) p x h lt = ground (arith, h, lt, every_below_sound n p x)

mask_table :
    every_below 33 (λ p. (mask p == (2 ^ p - 1) * 2 ^ (32 - p)) && (2 ^ 32 == 2 ^ p * 2 ^ (32 - p)))
    ≡ true
unfolding every_below mask
mask_table = refl

-- A mask of p ones, and p and the rest make 32 bits.
mask_facts :
    (p : ℕ) → p ≤ 32 → (mask p ≡ (2 ^ p - 1) * 2 ^ (32 - p)) × (2 ^ 32 ≡ 2 ^ p * 2 ^ (32 - p))
mask_facts p h = ground (arith, every_below_sound 33 _ p mask_table (omega (arith, h)))

below_word : (ip : Text) → ipv4_to_int ip < 2 ^ 32
unfolding ipv4_to_int
below_word ip = omega arith

bit_and-mask :
    (p a : ℕ) → p ≤ 32 → a < 2 ^ 32 → bit_and a (mask p) ≡ a / 2 ^ (32 - p) * 2 ^ (32 - p)
bit_and-mask p a le lt =
    let (ones, word) = mask_facts p le in
    let positive : 0 < 2 ^ (32 - p) = one-le-pow (32 - p) 2 (omega arith) in
    let high : a / 2 ^ (32 - p) < 2 ^ p =
      (div-lt_iff_lt-mul positive).1 (subst (λ w. a < w) word lt) in
    ap (bit_and a) ones
    ∙ bit_and-shifted (32 - p) a (2 ^ p - 1)
    ∙ ap (λ x. x * 2 ^ (32 - p)) (bit_and-ones p (a / 2 ^ (32 - p)) high)

cancel_mul : {x y k : ℕ} → 0 < k → x * k ≡ y * k → x ≡ y
cancel_mul {x = x} {y = y} {k = k} positive e =
    sym (mul-div_cancel x positive) ∙ ap (λ d. d / k) e ∙ mul-div_cancel y positive

-- For a prefix of at most 32 bits, the comparison under the mask tells whether the two numbers are
-- the same without their low bits.
pub same_ipv4_block_iff :
    (ip range : Text) (prefix : ℕ)
    → prefix ≤ 32
    → (same_ipv4_block ip range prefix ≡ true)
      ↔ (ipv4_to_int ip / 2 ^ (32 - prefix) ≡ ipv4_to_int range / 2 ^ (32 - prefix))
same_ipv4_block_iff ip range prefix le =
    let of_ip = bit_and-mask prefix (ipv4_to_int ip) le (below_word ip) in
    let of_range = bit_and-mask prefix (ipv4_to_int range) le (below_word range) in
    let positive : 0 < 2 ^ (32 - prefix) = one-le-pow (32 - prefix) 2 (omega arith) in
    let test =
      ==_iff (bit_and (ipv4_to_int ip) (mask prefix)) (bit_and (ipv4_to_int range) (mask prefix)) in
    (
      λ h. cancel_mul positive (sym of_ip ∙ test.0 h ∙ of_range),
      λ h. test.1 (of_ip ∙ ap (λ x. x * 2 ^ (32 - prefix)) h ∙ sym of_range),
    )

last_untrusted-append :
    (net : Net) (trusted a b : List Text)
    → last_untrusted net trusted (a ++ b)
      ≡ or_other (last_untrusted net trusted b) (last_untrusted net trusted a)
unfolding last_untrusted
last_untrusted-append net trusted [] b = ground arith
last_untrusted-append net trusted (entry ∷ a) b =
    ground (arith, last_untrusted-append net trusted a b)

map-append : {A B : Type 0} (f : A → B) (a b : List A) → map f (a ++ b) ≡ map f a ++ map f b
map-append f [] b = refl
map-append f (x ∷ a) b = ap (λ l. f x ∷ l) (map-append f a b)

filter-append :
    {A : Type 0} (p : A → Bool) (a b : List A) → filter p (a ++ b) ≡ filter p a ++ filter p b
filter-append p [] b = refl
filter-append p (x ∷ a) b = elim (Bool-cases (p x)) [
  | inl e ↦ rw (e) (ap (λ l. x ∷ l) (filter-append p a b))
  | inr e ↦ rw (e) (filter-append p a b)
]

-- The entries of a header that was put in front of another one, with a comma between them.
entries-append :
    (net : Net) (forged real : Text)
    → entries net (forged ++ 44 ∷ real) ≡ entries net forged ++ entries net real
unfolding entries
entries-append net forged real =
    let f : Text → Text = λ entry. normalize_ip (trim entry) in
    ap (λ l. filter (λ entry. not (is_empty entry)) (map f l)) (split-append 44 forged real)
    ∙ ap (filter (λ entry. not (is_empty entry))) (map-append f (split 44 forged) (split 44 real))
    ∙ filter-append (λ entry. not (is_empty entry)) (map f (split 44 forged))
        (map f (split 44 real))

-- If an entry of a header is no trusted proxy, the address that is taken from it does not depend on
-- what is put in front of the header, whichever proxies are trusted and whoever the peer is.
pub extract_client_ip_forged :
    (net : Net) (trusted : List Text) (req : Request) (forged real client : Text)
    → last_untrusted net trusted (entries net real) ≡ some client
    → extract_client_ip net (record req { forwarded = some (forged ++ 44 ∷ real) }) trusted
      ≡ extract_client_ip net (record req { forwarded = some real }) trusted
unfolding extract_client_ip
extract_client_ip_forged net trusted req forged real client h =
    let longer : last_untrusted net trusted (entries net (forged ++ 44 ∷ real)) ≡ some client =
      ap (last_untrusted net trusted) (entries-append net forged real)
      ∙ last_untrusted-append net trusted (entries net forged) (entries net real)
      ∙ ap (λ o. or_other o (last_untrusted net trusted (entries net forged))) h in
    rw (h, longer) refl
