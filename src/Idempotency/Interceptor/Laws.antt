-- ===== src/Idempotency/Interceptor/Laws.antt =====
-- Two requests with one idempotency key.
use facilpay_api.Common.{
  ℕ, ◌+◌, ◌*◌, ◌≡◌, ◌≢◌, ◌≤◌, refl, inl, inr, true, false, none, some, List, [], ◌==◌, arith,
  Option-cases,
}
use facilpay_api.Common.Action.{Result, ok, err, unprocessable}
use facilpay_api.Repository.{Repository}
use facilpay_api.Idempotency.{
  Response, null, value, IdempotencyKey, returned, is_expired, check_row, new_claim, Round, remove,
  check_then, claim, check_or_claim_key, update_response,
}
use facilpay_api.Idempotency.Interceptor.{intercept}

module _ (repo : Repository IdempotencyKey (λ r. r.key)) where
  -- No row of the key that still counts.
  abbrev pub IsFree : ℕ → ℕ → repo.Table → Type 0
  IsFree now key t =
      (row : IdempotencyKey) → repo.find_one key t ≡ some row → is_expired now row ≡ true

  module _ (now ttl_hours key hash : ℕ) (t : repo.Table) (free : IsFree now key t) where
    free_claims :
        (u : repo.Table) × (check_or_claim_key repo now ttl_hours key hash [] t
          ≡ (ok none, repo.save (new_claim now ttl_hours key hash) u))
    unfolding check_or_claim_key check_then claim
    free_claims = elim (Option-cases (repo.find_one key t)) [
      | inl e ↦ (t, ground (arith, e))
      | inr (row, e) ↦ (remove repo key t, ground (arith, e, free row e))
    ]

    abbrev answer : Response → IdempotencyKey
    answer response = record {
      key = key;
      request_hash = hash;
      response = response;
      expires_at = now + ttl_hours * 3600000;
    }

    -- The row that a first request leaves.
    answered :
        (response : Response)
        → repo.find_one key (intercept repo [] now ttl_hours key hash (ok response) t).table
          ≡ some (answer response)
    unfolding intercept update_response new_claim
    answered response =
        let (u, e) = free_claims in
        let claimed = new_claim now ttl_hours key hash in
        ground (
          arith,
          e,
          repo.find_one-save claimed key u,
          repo.find_one-update (λ r. r.key == key) (λ r. record r { response = response }) key
              (repo.save claimed u) (λ a. refl),
        )

    -- The handler of a first request runs, and its response is the reply.
    first_runs :
        (response : Response)
        → ((intercept repo [] now ttl_hours key hash (ok response) t).ran ≡ true)
          × ((intercept repo [] now ttl_hours key hash (ok response) t).reply
              ≡ ok (returned response))
    unfolding intercept
    first_runs response = let (u, e) = free_claims in (ground (arith, e), ground (arith, e))

    module _ (later ttl_hours' : ℕ) (handler : Result Response) (rounds : List (Round repo))
        (in_time : later ≤ now + ttl_hours * 3600000) where
      -- After a request with a key that no valid row has, whose handler returned a response, a
      -- second request with the key and the same body, in time, is given that response, and its
      -- handler does not run.
      pub intercept_twice :
          (v : ℕ)
          → let first = intercept repo [] now ttl_hours key hash (ok (value v)) t in
            let second = intercept repo rounds later ttl_hours' key hash handler first.table in
            (first.ran ≡ true)
            × (first.reply ≡ ok (some v))
            × (second.ran ≡ false)
            × (second.reply ≡ first.reply)
      unfolding intercept check_or_claim_key check_then check_row
      intercept_twice v =
          let (ran, reply) = first_runs (value v) in
          let kept = answered (value v) in
          (ran, reply, ground (arith, kept), ground (arith, kept, reply))

      -- After a request with a key that no valid row has, whose handler returned a response, a
      -- second request with the key and another body, in time, is refused, and its handler does
      -- not run.
      pub intercept_other_body :
          (other : ℕ) (response : Response)
          → other ≢ hash
          → let first = intercept repo [] now ttl_hours key hash (ok response) t in
            let second = intercept repo rounds later ttl_hours' key other handler first.table in
            (second.ran ≡ false) × (second.reply ≡ err unprocessable)
      unfolding intercept check_or_claim_key check_then check_row
      intercept_other_body other response ne =
          let kept = answered response in (ground (arith, kept, ne), ground (arith, kept, ne))

      -- After a request with a key that no valid row has, whose handler returned null, a second
      -- request with the key and the same body, in time, runs its handler again.
      intercept_null_again :
          let first = intercept repo [] now ttl_hours key hash (ok null) t in
          (intercept repo rounds later ttl_hours' key hash handler first.table).ran ≡ true
      unfolding intercept check_or_claim_key check_then check_row
      intercept_null_again = let kept = answered null in ground (arith, kept)
