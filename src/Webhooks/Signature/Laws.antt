-- ===== src/Webhooks/Signature/Laws.antt =====
-- What an accepted signature shows, and that it is not accepted twice with a nonce.
use Prim.Native.Nat.{bit_or, bit_xor}
use facilpay_api.Common.{
  ℕ, All, ◌+◌, ◌≤◌, ◌<◌, ◌≡◌, refl, ◌↔◌, ◌⊎◌, inl, inr, true, false, Option, none, some, [], ◌∷◌,
  length, arith, Option-cases, is_empty,
}
use facilpay_api.Common.Int.{ℤ, pos, pos_part, ◌<ℤ◌}
use facilpay_api.Common.Bits.{bit_or_zero, bit_xor_zero}
use facilpay_api.Webhooks.Signature.{
  Text, Nonces, Config, differences, constant_time_compare, has, prune_expired_nonces, distance,
  Request, generate_signature, check_nonce, compare_signature, verify_signature,
}

-- Once a bit has been set it stays.
differences_zero : (result : ℕ) (a b : Text) → differences result a b ≡ 0 → result ≡ 0
unfolding differences
differences_zero result [] b h = h
differences_zero result (x ∷ a) [] h = h
differences_zero result (x ∷ a) (y ∷ b) h =
    (bit_or_zero result (bit_xor x y) (differences_zero (bit_or result (bit_xor x y)) a b h)).0

differences-equal :
    (result : ℕ) (a b : Text) → length a ≡ length b → differences result a b ≡ 0 → a ≡ b
unfolding differences
differences-equal result [] [] l h = refl
differences-equal result [] (y ∷ b) l h = absurd (omega (arith, l))
differences-equal result (x ∷ a) [] l h = absurd (omega (arith, l))
differences-equal result (x ∷ a) (y ∷ b) l h =
    let next = bit_or result (bit_xor x y) in
    let same = (bit_xor_zero x y).0 (bit_or_zero result _ (differences_zero next a b h)).1 in
    let rest = differences-equal next a b (omega (arith, l)) h in cc (same, rest)

differences_self : (a : Text) → differences 0 a a ≡ 0
unfolding differences
differences_self [] = refl
differences_self (x ∷ a) = rw ((bit_xor_zero x x).1 refl) (differences_self a)

-- The comparison tells of any two texts whether they are equal.
constant_time_compare_iff : (a b : Text) → (constant_time_compare a b ≡ true) ↔ (a ≡ b)
unfolding constant_time_compare
constant_time_compare_iff a b = (
  λ h. differences-equal 0 a b (ground (arith, h)) (ground (arith, h)),
  λ h. rw (← h) (ground (arith, differences_self a)),
)

-- Each use of the nonce is older than the tolerance.
abbrev pub Outdated : ℕ → ℕ → ℕ → Nonces → Type 0
Outdated tolerance now nonce = All (λ entry. entry.0 ≡ nonce → entry.1 + tolerance < now)

has-prune :
    (tolerance now nonce : ℕ) (used : Nonces)
    → (has nonce (prune_expired_nonces tolerance now used) ≡ false)
      ↔ Outdated tolerance now nonce used
unfolding prune_expired_nonces
has-prune tolerance now nonce [] = (λ h. tt, λ h. refl)
has-prune tolerance now nonce (entry ∷ used) =
    let rest = has-prune tolerance now nonce used in
    (λ h. ground (arith, rest, h), λ h. ground (arith, rest, h))

module _ (hmac : ℕ → Text → Text) (number : Text → Option ℤ) (config : Config) where
  -- The request has a nonce that may be used, if the cache is enabled and it has one.
  abbrev pub IsFresh : ℕ → Option ℕ → Nonces → Type 0
  IsFresh now none used = Unit
  IsFresh now (some nonce) used =
      (config.nonce_replay_cache_enabled ≡ false)
      ⊎ Outdated config.timestamp_tolerance_ms now nonce used

  check_nonce-IsFresh :
      (now : ℕ) (nonce : Option ℕ) (used : Nonces)
      → ((check_nonce hmac number config now nonce used).0 ≡ true) ↔ IsFresh now nonce used
  unfolding check_nonce
  check_nonce-IsFresh now none used = (λ h. tt, λ h. refl)
  check_nonce-IsFresh now (some nonce) used =
      ground (arith, has-prune config.timestamp_tolerance_ms now nonce used)

  -- The signature is there and is that of the timestamp and the payload, and the timestamp is
  -- positive and within the tolerance.
  abbrev pub IsSigned : ℕ → Request → Type 0
  IsSigned now request =
      (secret : ℕ) × (t : ℤ) × (config.webhook_secret ≡ some secret)
      × (number request.timestamp ≡ some t)
      × (pos 0 <ℤ t)
      × (distance now (pos_part t) ≤ config.timestamp_tolerance_ms)
      × (is_empty request.signature ≡ false)
      × (request.signature
          ≡ generate_signature hmac number config secret request.payload request.timestamp)

  verify_signature_sound :
      (now : ℕ) (request : Request) (used : Nonces)
      → (verify_signature hmac number config now request used).0 ≡ true
      → IsSigned now request × IsFresh now request.nonce used
  unfolding verify_signature compare_signature
  verify_signature_sound now request used h = elim (Option-cases config.webhook_secret) [
    | inl e ↦ ground (arith, e, h)
    | inr (secret, e) ↦ elim (Option-cases (number request.timestamp)) [
      | inl missing ↦ ground (arith, e, missing, h)
      | inr (t, is_number) ↦
          let equal =
            constant_time_compare_iff request.signature
              (generate_signature hmac number config secret request.payload request.timestamp) in
          let fresh = check_nonce-IsFresh now request.nonce used in
          (
            (
              secret,
              t,
              e,
              is_number,
              ground (arith, e, is_number, h),
              ground (arith, e, is_number, h),
              ground (arith, e, is_number, h),
              equal.0 (ground (arith, e, is_number, h)),
            ),
            fresh.0 (ground (arith, e, is_number, h)),
          )
    ]
  ]

  -- A request is accepted exactly when the secret is set, the signature is not empty and is the HMAC
  -- of the timestamp and the payload, the timestamp is a positive number within the tolerance of
  -- the present, and the nonce, if the cache is enabled and the request has one, was not used within
  -- the tolerance.
  pub verify_signature_iff :
      (now : ℕ) (request : Request) (used : Nonces)
      → ((verify_signature hmac number config now request used).0 ≡ true)
        ↔ (IsSigned now request × IsFresh now request.nonce used)
  unfolding verify_signature compare_signature
  verify_signature_iff now request used = (
    verify_signature_sound now request used,
    λ ((secret, t, e, is_number, positive, near, given, signed), fresh).
        let equal =
          (constant_time_compare_iff request.signature
              (generate_signature hmac number config secret request.payload request.timestamp)).1
            signed in
        let checked = (check_nonce-IsFresh now request.nonce used).1 fresh in
        ground (arith, e, is_number, positive, near, given, equal, checked),
  )
