-- ===== src/Webhooks/Signature.antt =====
-- modules/payments/webhook-signature.service.ts and webhook.guard.ts: the signature of an incoming
-- webhook. Texts are lists of UTF-16 codes, times are milliseconds. The HMAC of node's crypto and the
-- conversion `Number` are parameters: `number` gives the value of a text in thousandths, and none
-- where it is not finite.
use Prim.Native.Nat.{bit_or, bit_xor}
use facilpay_api.Common.{
  ℕ, ◌+◌, ◌-◌, ◌*◌, Bool, true, false, not, ◌&&◌, Option, none, some, List, [], ◌∷◌, ◌++◌, ltb,
  ◌==◌, if◌then◌else◌, length, any, filter, is_some, is_empty,
}
use facilpay_api.Common.Action.{Result, ok, err, bad_request}
use facilpay_api.Common.Int.{ℤ, pos, pos_part, leb_ℤ}
pub mod Laws
pub mod Replay

abbrev pub Text : Type 0
Text = List ℕ

-- `usedNonces`: nonces, each with the time of the signature that used it
abbrev pub Nonces : Type 0
Nonces = List (ℕ × ℕ)

pub record Config : Type 0 where
  -- none where the secret is not set, or empty
  pub webhook_secret : Option ℕ
  pub timestamp_tolerance_ms : ℕ
  pub nonce_replay_cache_enabled : Bool

-- The constructor, from the secret, the tolerance in minutes and whether the cache is enabled.
abbrev pub configure : Option ℕ → ℤ → Bool → Config
configure secret tolerance_minutes enabled = record {
  webhook_secret = secret;
  timestamp_tolerance_ms = pos_part tolerance_minutes * 60 * 1000;
  nonce_replay_cache_enabled = enabled;
}

-- The loop: `result |= a.charCodeAt(i) ^ b.charCodeAt(i)`
unfoldable pub differences : ℕ → Text → Text → ℕ
differences result [] b = result
differences result (x ∷ a) [] = result
differences result (x ∷ a) (y ∷ b) = differences (bit_or result (bit_xor x y)) a b

unfoldable pub constant_time_compare : Text → Text → Bool
constant_time_compare a b = if not (length a == length b) then false else differences 0 a b == 0

abbrev pub has : ℕ → Nonces → Bool
has nonce = any (λ entry. entry.0 == nonce)

unfoldable pub prune_expired_nonces : ℕ → ℕ → Nonces → Nonces
prune_expired_nonces tolerance now = filter (λ entry. not (ltb (entry.1 + tolerance) now))

-- `Math.abs(a - b)`
abbrev pub distance : ℕ → ℕ → ℕ
distance a b = (a - b) + (b - a)

pub record Request : Type 0 where
  pub payload : Text
  -- the headers, where they are there
  pub signature : Text
  pub timestamp : Text
  -- `X-Signature-Nonce`: none where it is missing or empty
  pub nonce : Option ℕ

module _ (hmac : ℕ → Text → Text) (number : Text → Option ℤ) (config : Config) where
  -- The code of the full stop is 46.
  unfoldable pub generate_signature : ℕ → Text → Text → Text
  generate_signature secret payload timestamp = hmac secret (timestamp ++ 46 ∷ payload)

  -- The nonces are pruned and looked at, if the cache is enabled and the request has one.
  unfoldable pub check_nonce : ℕ → Option ℕ → Nonces → Bool × Nonces
  check_nonce now none used = (true, used)
  check_nonce now (some nonce) used =
      let kept = prune_expired_nonces config.timestamp_tolerance_ms now used in
      if config.nonce_replay_cache_enabled then (not (has nonce kept), kept) else (true, used)

  -- A nonce is set only where it is absent, so that it has one entry.
  unfoldable pub remember : Option ℕ → ℕ → Nonces → Nonces
  remember none timestamp_ms used = used
  remember (some nonce) timestamp_ms used =
      if config.nonce_replay_cache_enabled then (nonce, timestamp_ms) ∷ used else used

  -- From the nonce on: the comparison, and the new nonce.
  unfoldable pub compare_signature : ℕ → ℕ → ℕ → Request → Nonces → Bool × Nonces
  compare_signature secret now timestamp_ms request used =
      let (fresh, kept) = check_nonce now request.nonce used in
      let is_valid =
        constant_time_compare request.signature
          (generate_signature secret request.payload request.timestamp) in
      if not fresh
      then (false, kept)
      else if is_valid
      then (true, remember request.nonce timestamp_ms kept)
      else (false, kept)

  unfoldable pub verify_signature : ℕ → Request → Nonces → Bool × Nonces
  verify_signature now request used = elim config.webhook_secret [
    | none ↦ (false, used)
    | some secret ↦
        if is_empty request.signature then (false, used) else elim (number request.timestamp) [
          | none ↦ (false, used)
          | some t ↦
              if leb_ℤ t (pos 0)
              then (false, used)
              else if ltb config.timestamp_tolerance_ms (distance now (pos_part t))
              then (false, used)
              else compare_signature secret now (pos_part t) request used
        ]
  ]

  -- WebhookGuard: a missing header is an empty text.
  unfoldable pub can_activate : ℕ → Request → Nonces → Result Bool × Nonces
  can_activate now request used =
      let (is_valid, kept) = verify_signature now request used in
      if is_empty request.signature
      then (err bad_request, used)
      else if is_empty request.timestamp
      then (err bad_request, used)
      else if is_valid
      then (ok true, kept)
      else (err bad_request, kept)
