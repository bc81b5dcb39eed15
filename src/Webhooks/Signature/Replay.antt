-- ===== src/Webhooks/Signature/Replay.antt =====
-- A request that was accepted with a nonce is not accepted again.
use facilpay_api.Common.{
  ℕ, ◌+◌, ◌≤◌, ◌<◌, ◌≡◌, refl, ◌⊎◌, inl, inr, true, false, Option, some, List, [], ◌∷◌, All-In, In,
  arith, Bool-cases,
}
use mathlib.Core.Path.{subst}
use facilpay_api.Common.Int.{ℤ, pos_part}
use facilpay_api.Webhooks.Signature.{
  Text, Nonces, Config, prune_expired_nonces, Request, check_nonce, remember, compare_signature,
  verify_signature,
}
use facilpay_api.Webhooks.Signature.Laws.{IsFresh, IsSigned, verify_signature_iff}

prune-In :
    (tolerance now : ℕ) (entry : ℕ × ℕ) (used : Nonces)
    → In entry used
    → In entry (prune_expired_nonces tolerance now used) ⊎ (entry.1 + tolerance < now)
unfolding prune_expired_nonces
prune-In tolerance now entry [] m = absurd m
prune-In tolerance now entry (x ∷ used) (inl e) = ground (arith, e)
prune-In tolerance now entry (x ∷ used) (inr m) =
    ground (arith, prune-In tolerance now entry used m)

module _ (hmac : ℕ → Text → Text) (number : Text → Option ℤ) (config : Config) where
  -- The calls of verifySignature, each with its time, one after the other.
  pub run : List (ℕ × Request) → Nonces → Nonces
  run [] used = used
  run ((now, request) ∷ calls) used =
      run calls (verify_signature hmac number config now request used).1

  -- The clock does not go back, from a time over those of the calls to a last one.
  abbrev pub Rising : ℕ → List (ℕ × Request) → ℕ → Type 0
  Rising now [] later = now ≤ later
  Rising now (call ∷ calls) later = (now ≤ call.0) × Rising call.0 calls later

  -- An entry is kept until it is older than the tolerance.
  abbrev Kept : ℕ → ℕ × ℕ → Nonces → Type 0
  Kept now entry used = In entry used ⊎ (entry.1 + config.timestamp_tolerance_ms < now)

  verify-Kept :
      (now : ℕ) (request : Request) (entry : ℕ × ℕ) (used : Nonces)
      → In entry used
      → Kept now entry (verify_signature hmac number config now request used).1
  unfolding verify_signature compare_signature check_nonce remember
  verify-Kept now request entry used m =
      ground (arith, m, prune-In config.timestamp_tolerance_ms now entry used m)

  run-Kept :
      (now later : ℕ) (calls : List (ℕ × Request)) (entry : ℕ × ℕ) (used : Nonces)
      → Rising now calls later
      → Kept now entry used
      → Kept later entry (run calls used)
  unfolding run
  run-Kept now later [] entry used rising kept = ground (arith, kept)
  run-Kept now later ((at, request) ∷ calls) entry used (le, rising) (inl m) =
      run-Kept at later calls entry _ rising (verify-Kept at request entry used m)
  run-Kept now later ((at, request) ∷ calls) entry used (le, rising) (inr old) =
      run-Kept at later calls entry _ rising (inr (omega (arith, old, le)))

  accepted-In :
      (now nonce : ℕ) (t : ℤ) (request : Request) (used : Nonces)
      → config.nonce_replay_cache_enabled ≡ true
      → request.nonce ≡ some nonce
      → number request.timestamp ≡ some t
      → (verify_signature hmac number config now request used).0 ≡ true
      → In (nonce, pos_part t) (verify_signature hmac number config now request used).1
  unfolding verify_signature compare_signature check_nonce remember
  accepted-In now nonce t request used enabled has_nonce is_number h =
      ground (arith, enabled, has_nonce, is_number, h)

  -- A request with a nonce that is kept is not both signed and fresh.
  replayed_absurd :
      (now nonce : ℕ) (t : ℤ) (request : Request) (used : Nonces)
      → config.nonce_replay_cache_enabled ≡ true
      → request.nonce ≡ some nonce
      → number request.timestamp ≡ some t
      → Kept now (nonce, pos_part t) used
      → IsSigned hmac number config now request
      → IsFresh hmac number config now request.nonce used
      → ⊥
  replayed_absurd now nonce t request used enabled has_nonce is_number (inr old) signed fresh =
      ground (arith, old, is_number, signed.3, signed.5)
  replayed_absurd now nonce t request used enabled has_nonce is_number (inl m) signed fresh =
      let fresh_nonce = subst (λ n. IsFresh hmac number config now n used) has_nonce fresh in
      elim fresh_nonce [
        | inl disabled ↦ ground (arith, enabled, disabled)
        | inr outdated ↦
            let old = All-In _ (nonce, pos_part t) used outdated m refl in
            ground (arith, old, is_number, signed.3, signed.5)
      ]

  -- With the cache enabled, a request that was accepted with a nonce is refused with that nonce and
  -- that timestamp at any later time, whatever its payload and its signature are, and whatever
  -- requests came in between, as long as the clock does not go back.
  pub verify_signature_replay :
      (now later nonce : ℕ) (request replayed : Request) (calls : List (ℕ × Request))
      (used : Nonces)
      → config.nonce_replay_cache_enabled ≡ true
      → request.nonce ≡ some nonce
      → (verify_signature hmac number config now request used).0 ≡ true
      → Rising now calls later
      → replayed.nonce ≡ some nonce
      → replayed.timestamp ≡ request.timestamp
      → (verify_signature hmac number config later replayed
          (run calls (verify_signature hmac number config now request used).1)).0
        ≡ false
  verify_signature_replay now later nonce request replayed calls used enabled has_nonce accepted
        rising same_nonce same_time =
      let after = run calls (verify_signature hmac number config now request used).1 in
      let (signed, was_fresh) =
        (verify_signature_iff hmac number config now request used).0 accepted in
      let kept =
        run-Kept now later calls (nonce, pos_part signed.1) _ rising
          (inl (accepted-In now nonce signed.1 request used enabled has_nonce signed.3 accepted)) in
      elim (Bool-cases (verify_signature hmac number config later replayed after).0) [
        | inr refused ↦ refused
        | inl again ↦
            let (signed_again, fresh) =
              (verify_signature_iff hmac number config later replayed after).0 again in
            absurd (
              replayed_absurd later nonce signed.1 replayed after enabled same_nonce
                (ground (arith, same_time, signed.3)) kept signed_again fresh)
      ]
