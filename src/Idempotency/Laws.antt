-- ===== src/Idempotency/Laws.antt =====
-- What a request with an idempotency key is told, whatever other processes do meanwhile.
use facilpay_api.Common.{
  ℕ, ◌≡◌, refl, sym, ◌⊎◌, inl, inr, false, Option, none, some, List, [], ◌∷◌, arith, Option-cases,
  Bool-cases,
}
use mathlib.Core.Path.{subst}
use facilpay_api.Common.Action.{Result, ok}
use facilpay_api.Repository.{Repository}
use facilpay_api.Idempotency.{
  IdempotencyKey, is_expired, check_row, new_claim, Round, remove, check_then, handle_conflict,
  claim, check_or_claim_key, cleanup_expired,
}

module _ (repo : Repository IdempotencyKey (λ r. r.key)) where
  module _ (now ttl_hours key hash : ℕ) where
    -- The row of the key after a call explains its result: it is the claim that the call made, or a
    -- row that has not expired and was checked.
    abbrev pub Explains : Result (Option ℕ) × repo.Table → Type 0
    Explains (r, t) =
        (row : IdempotencyKey) × (repo.find_one key t ≡ some row)
        × (((row ≡ new_claim now ttl_hours key hash) × (r ≡ ok none))
            ⊎ ((is_expired now row ≡ false) × (r ≡ check_row hash row)))

    claimed-Explains :
        (t : repo.Table) → Explains (ok none, repo.save (new_claim now ttl_hours key hash) t)
    unfolding new_claim
    claimed-Explains t = (
      new_claim now ttl_hours key hash,
      ground (arith, repo.find_one-save (new_claim now ttl_hours key hash) key t),
      inl (refl, refl),
    )

    -- A row is checked where it is there, or the rest of the call goes on.
    check-Explains :
        (rest : repo.Table → Result (Option ℕ) × repo.Table) (t : repo.Table)
        → ((u : repo.Table) → Explains (rest u))
        → Explains (check_then repo now ttl_hours key hash rest t)
    unfolding check_then
    check-Explains rest t h = elim (Option-cases (repo.find_one key t)) [
      | inl e ↦
          let absent : check_then repo now ttl_hours key hash rest t ≡ rest t = ground (arith, e) in
          subst Explains (sym absent) (h t)
      | inr (row, e) ↦ elim (Bool-cases (is_expired now row)) [
        | inl old ↦
            let removed : check_then repo now ttl_hours key hash rest t ≡ rest (remove repo key t) =
              ground (arith, e) in
            subst Explains (sym removed) (h (remove repo key t))
        | inr fresh ↦
            let checked : check_then repo now ttl_hours key hash rest t ≡ (check_row hash row, t) =
              ground (arith, e) in
            subst Explains (sym checked) (row, e, inr (fresh, refl))
      ]
    ]

    conflict-Explains :
        (again : repo.Table → Result (Option ℕ) × repo.Table) (t : repo.Table)
        → ((u : repo.Table) → Explains (again u))
        → Explains (handle_conflict repo now ttl_hours key hash again t)
    unfolding handle_conflict
    conflict-Explains again t h = elim (Option-cases (repo.find_one key t)) [
      | inl e ↦
          let absent : handle_conflict repo now ttl_hours key hash again t ≡ again t =
            ground (arith, e) in
          subst Explains (sym absent) (h t)
      | inr (row, e) ↦ elim (Bool-cases (is_expired now row)) [
        | inl old ↦
            let removed : handle_conflict repo now ttl_hours key hash again t
                ≡ again (remove repo key t) =
              ground (arith, e) in
            subst Explains (sym removed) (h (remove repo key t))
        | inr fresh ↦
            let checked : handle_conflict repo now ttl_hours key hash again t
                ≡ (check_row hash row, t) =
              ground (arith, e) in
            subst Explains (sym checked) (row, e, inr (fresh, refl))
      ]
    ]

    claim-Explains :
        (rounds : List (Round repo)) (t : repo.Table)
        → Explains (claim repo now ttl_hours key hash rounds t)
    unfolding claim
    claim-Explains [] t = claimed-Explains t
    claim-Explains (round ∷ rounds) t =
        let seen = round.before_insert t in
        elim (Option-cases (repo.find_one key seen)) [
          | inl e ↦
              let inserted : claim repo now ttl_hours key hash (round ∷ rounds) t
                  ≡ (ok none, repo.save (new_claim now ttl_hours key hash) seen) =
                ground (arith, e) in
              subst Explains (sym inserted) (claimed-Explains seen)
          | inr (row, e) ↦
              let again =
                check_then repo now ttl_hours key hash (claim repo now ttl_hours key hash rounds) in
              let refused : claim repo now ttl_hours key hash (round ∷ rounds) t
                  ≡ handle_conflict repo now ttl_hours key hash again (round.before_find seen) =
                ground (arith, e) in
              subst Explains (sym refused) (
                conflict-Explains again (round.before_find seen)
                  (λ u. check-Explains _ u (claim-Explains rounds)))
        ]

    -- Whatever other processes do between the database calls, a call ends, and the row that the key
    -- has then explains its result: either the call claimed the key and returns null, or the row is
    -- not expired and the result is what its hash and its response say.
    pub check_or_claim_key-Explains :
        (rounds : List (Round repo)) (t : repo.Table)
        → Explains (check_or_claim_key repo now ttl_hours key hash rounds t)
    unfolding check_or_claim_key
    check_or_claim_key-Explains rounds t = check-Explains _ t (claim-Explains rounds)

  -- The clean-up does not change what a later call is told: an expired row counts as none.
  pub check_or_claim_key-cleanup :
      (now ttl_hours key hash : ℕ) (t : repo.Table)
      → (check_or_claim_key repo now ttl_hours key hash [] (cleanup_expired repo now t)).0
        ≡ (check_or_claim_key repo now ttl_hours key hash [] t).0
  unfolding check_or_claim_key check_then claim cleanup_expired
  check_or_claim_key-cleanup now ttl_hours key hash t =
      ground (arith, repo.find_one-delete (is_expired now) key t)
