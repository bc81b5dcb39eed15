-- ===== src/Idempotency.antt =====
-- modules/payments/idempotency.service.ts, idempotency.interceptor.ts and idempotency.entity.ts.
-- The hash of a request body is given by its number, times are milliseconds. Other processes work on
-- the same table: what they do between the database calls of one request is an argument, one round
-- for each attempt to insert.
pub mod Laws
pub mod Interceptor
use facilpay_api.Common.{
  ℕ, ◌+◌, ◌*◌, Bool, true, false, not, Option, none, some, List, [], ◌∷◌, ◌==◌, ltb, if◌then◌else◌,
  ⊤,
}
use facilpay_api.Common.Action.{Error, Result, ok, err, conflict, unprocessable}
use facilpay_api.Repository.{Repository}

-- The `response` column: the placeholder, JSON null, or a response.
pub data Response : Type 0 where
  in_progress null : Response
  value : ℕ → Response

pub record IdempotencyKey : Type 0 where
  pub key : ℕ
  pub request_hash : ℕ
  pub response : Response
  pub expires_at : ℕ

-- What is returned of a stored response; `none` is `null`.
abbrev pub returned : Response → Option ℕ
returned (value v) = some v
returned _ = none

abbrev pub is_in_progress : Response → Bool
is_in_progress in_progress = true
is_in_progress _ = false

abbrev pub is_expired : ℕ → IdempotencyKey → Bool
is_expired now row = ltb row.expires_at now

-- A row that has not expired: the hash is compared, and a request in progress is refused.
pub check_row : ℕ → IdempotencyKey → Result (Option ℕ)
check_row hash row =
    if row.request_hash == hash
    then (if is_in_progress row.response then err conflict else ok (returned row.response))
    else err unprocessable

pub new_claim : ℕ → ℕ → ℕ → ℕ → IdempotencyKey
new_claim now ttl_hours key hash = record {
  key = key;
  request_hash = hash;
  response = in_progress;
  expires_at = now + ttl_hours * 3600000;
}

module _ (repo : Repository IdempotencyKey (λ r. r.key)) where
  -- What other processes do before the insert, and before the look-up that follows a failed one.
  pub record Round : Type 0 where
    pub before_insert : repo.Table → repo.Table
    pub before_find : repo.Table → repo.Table

  abbrev pub remove : ℕ → repo.Table → repo.Table
  remove key = repo.delete (λ r. r.key == key)

  module _ (now ttl_hours key hash : ℕ) where
    -- Steps 1 to 5 of `checkOrClaimKey`; `claim` is the rest of it.
    pub check_then :
        (repo.Table → Result (Option ℕ) × repo.Table) → repo.Table → Result (Option ℕ) × repo.Table
    check_then claim t = elim (repo.find_one key t) [
      | none ↦ claim t
      | some row ↦ if is_expired now row then claim (remove key t) else (check_row hash row, t)
    ]

    -- `handleConflict`; `again` is `checkOrClaimKey`.
    pub handle_conflict :
        (repo.Table → Result (Option ℕ) × repo.Table) → repo.Table → Result (Option ℕ) × repo.Table
    handle_conflict again t = elim (repo.find_one key t) [
      | none ↦ again t
      | some row ↦ if is_expired now row then again (remove key t) else (check_row hash row, t)
    ]

    -- Step 6: the insert, which the primary key lets through only if no row has the key. With no round
    -- left nobody interferes: the check has just found no row of the key, so the insert succeeds.
    pub claim : List Round → repo.Table → Result (Option ℕ) × repo.Table
    claim [] t = (ok none, repo.save (new_claim now ttl_hours key hash) t)
    claim (round ∷ rounds) t =
        let seen = round.before_insert t in
        let retried = handle_conflict (check_then (claim rounds)) (round.before_find seen) in
        elim (repo.find_one key seen) [
          | none ↦ (ok none, repo.save (new_claim now ttl_hours key hash) seen)
          | some _ ↦ retried
        ]

    pub check_or_claim_key : List Round → repo.Table → Result (Option ℕ) × repo.Table
    check_or_claim_key rounds = check_then (claim rounds)

    -- `checkKey`, which does not claim: the stored response as it is, or null.
    unfoldable pub check_key : repo.Table → Result Response × repo.Table
    check_key t = elim (repo.find_one key t) [
      | none ↦ (ok null, t)
      | some row ↦
          if is_expired now row
          then (ok null, remove key t)
          else (if row.request_hash == hash then ok row.response else err unprocessable, t)
    ]

    -- `storeKey`
    pub store_key : Response → repo.Table → repo.Table
    store_key response t =
        let claimed = new_claim now ttl_hours key hash in
        repo.save (record claimed { response = response }) t

  pub update_response : ℕ → Response → repo.Table → repo.Table
  update_response key response =
      repo.update (λ r. r.key == key) (λ r. record r { response = response })

  pub delete_key : ℕ → repo.Table → repo.Table
  delete_key key = remove key

  pub cleanup_expired : ℕ → repo.Table → repo.Table
  cleanup_expired now = repo.delete (is_expired now)
