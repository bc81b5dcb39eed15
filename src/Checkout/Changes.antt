-- ===== src/Checkout/Changes.antt =====
-- What the calls of the service do to the table of sessions.
use facilpay_api.Common.{
  ℕ, ◌≡◌, refl, sym, ◌∙◌, ap, ◌⊎◌, inl, inr, true, false, none, some, ◌==◌, All, arith,
  Option-cases, Bool-cases, List-cases, ==_iff, or_else,
}
use mathlib.Core.Path.{subst}
use facilpay_api.Common.Action.{ok, Result-cases, bind_step}
use facilpay_api.Repository.{Repository}
use facilpay_api.Checkout.{
  CheckoutSession, CreateCheckoutSessionDto, Outside, State, is_open, is_stale, expired_session,
  completed_session, new_session, create, find_by_id, find_by_public_id, is_expired, owned,
  get_public_session, expire_session, expire, pay_session, complete_session, expire_stale_sessions,
}

module _ (repo : Repository CheckoutSession (λ r. r.public_id)) where
  -- The session of a public identifier is there, and is not open.
  abbrev pub IsClosed : ℕ → CheckoutSession → State repo → Type 0
  IsClosed public_id session s =
      (repo.find_one public_id s.tables ≡ some session) × (is_open session ≡ false)

  -- What a call does to the table: nothing, a row that is saved over an open one or is new, or the
  -- stale rows.
  pub data Change (before after : repo.Table) : Type 0 where
    same : after ≡ before → Change before after
    saves :
        (session : CheckoutSession)
        → after ≡ repo.save session before
        → ((old : CheckoutSession)
            → repo.find_one session.public_id before ≡ some old
            → is_open old ≡ true)
        → Change before after
    closes :
        (now : ℕ) → after ≡ repo.update (is_stale now) expired_session before → Change before after

  pub Change-IsClosed :
      (public_id : ℕ) (session : CheckoutSession) (s t : State repo)
      → Change s.tables t.tables
      → IsClosed public_id session s
      → IsClosed public_id session t
  Change-IsClosed public_id session s t (same e) (found, closed) = (rw (e) found, closed)
  Change-IsClosed public_id session s t (saves x e over_open) (found, closed) =
      elim (Bool-cases (x.public_id == public_id)) [
        | inl is_key ↦
            let key = (==_iff x.public_id public_id).0 is_key in
            let was_open = over_open session (rw (key) found) in ground (arith, was_open, closed)
        | inr other ↦
            (ground (arith, e, other, found, repo.find_one-save x public_id s.tables), closed)
      ]
  Change-IsClosed public_id session s t (closes now e) (found, closed) = (
    ground (
      arith,
      e,
      found,
      closed,
      repo.find_one-update (is_stale now) expired_session public_id s.tables (λ a. refl),
    ),
    closed,
  )

  pub create-Change :
      (new public_id now merchant_id : ℕ) (dto : CreateCheckoutSessionDto) (s : State repo)
      → repo.find_one public_id s.tables ≡ none
      → Change s.tables (create repo new public_id now merchant_id dto s).1.tables
  unfolding create new_session
  create-Change new public_id now merchant_id dto s absent =
      let row = new_session new public_id now merchant_id dto in
      let after = (create repo new public_id now merchant_id dto s).1.tables in
      let effect : (after ≡ s.tables) ⊎ (after ≡ repo.save row s.tables) = ground arith in
      elim effect [
        | inl e ↦ same e
        | inr e ↦ saves row e (λ old found. ground (arith, absent, found))
      ]

  -- An operation on the current row of a session that saves it only if it is open.
  saved-Change :
      (session after : CheckoutSession) (s t : State repo)
      → repo.find_one session.public_id s.tables ≡ some session
      → after.public_id ≡ session.public_id
      → (is_open session ≡ false → t.tables ≡ s.tables)
      → (t.tables ≡ s.tables) ⊎ (t.tables ≡ repo.save after s.tables)
      → Change s.tables t.tables
  saved-Change session after s t found key shut effect = elim effect [
    | inl e ↦ same e
    | inr e ↦ elim (Bool-cases (is_open session)) [
      | inr closed ↦ same (shut closed)
      | inl was_open ↦ saves after e (λ old here.
          let is_same : some session ≡ some old = sym found ∙ rw (← key) here in
          subst (λ x. is_open x ≡ true) (ap (λ o. or_else o session) is_same) was_open)
    ]
  ]

  expire_session-Change :
      (outside : Outside) (session : CheckoutSession) (s : State repo)
      → repo.find_one session.public_id s.tables ≡ some session
      → Change s.tables (expire_session repo outside session s).1.tables
  unfolding expire_session
  expire_session-Change outside session s found =
      saved-Change session (expired_session session) s (expire_session repo outside session s).1
        found refl (λ closed. ground (arith, closed)) (ground arith)

  pay_session-Change :
      (outside : Outside) (session : CheckoutSession) (s : State repo)
      → repo.find_one session.public_id s.tables ≡ some session
      → Change s.tables (pay_session repo outside session s).1.tables
  unfolding pay_session
  pay_session-Change outside session s found = elim (Result-cases outside.payment) [
    | inl (payment_id, e) ↦
        saved-Change session (completed_session payment_id session) s
          (pay_session repo outside session s).1 found refl (λ closed. ground (arith, closed))
          (ground (arith, e))
    | inr (x, e) ↦
        saved-Change session session s (pay_session repo outside session s).1 found refl
          (λ closed. ground (arith, closed)) (inl (ground (arith, e)))
  ]

  pub expire-Change :
      (outside : Outside) (id merchant_id : ℕ) (s : State repo)
      → Change s.tables (expire repo outside id merchant_id s).1.tables
  unfolding expire find_by_id
  expire-Change outside id merchant_id s =
      let sound = repo.find_sound (owned repo id merchant_id) s.tables in
      elim (List-cases (repo.find (owned repo id merchant_id) s.tables)) [
        | inl e ↦ same (ground (arith, e))
        | inr (session, rest, e) ↦
            let (matches, found) = (subst (All _) e sound).0 in
            let unchanged : (find_by_id repo id merchant_id s).1 ≡ s = ground (arith, e) in
            let run : expire repo outside id merchant_id s ≡ expire_session repo outside session s =
              bind_step (find_by_id repo id merchant_id) (expire_session repo outside) s session
                (ground (arith, e))
              ∙ ap (expire_session repo outside session) unchanged in
            subst (λ r. Change s.tables r.1.tables) (sym run)
              (expire_session-Change outside session s found)
      ]

  -- Asking for a session changes nothing, and a session that is given is the current one.
  pub get_public_session_found :
      (outside : Outside) (public_id : ℕ) (s : State repo)
      → let (r, t) = get_public_session repo outside public_id s in
        (t ≡ s)
        × ((session : CheckoutSession)
            → r ≡ ok session
            → repo.find_one public_id s.tables ≡ some session)
  unfolding get_public_session find_by_public_id
  get_public_session_found outside public_id s =
      elim (Option-cases (repo.find_one public_id s.tables)) [
        | inl e ↦ (ground (arith, e), λ session h. ground (arith, e, h))
        | inr (row, e) ↦ elim (Bool-cases (is_expired repo outside.now row)) [
          | inl old ↦ (ground (arith, e, old), λ session h. ground (arith, e, old, h))
          | inr fresh ↦ (ground (arith, e, fresh), λ session h. ground (arith, e, fresh, h))
        ]
      ]

  completes_found :
      (outside : Outside) (public_id : ℕ) (session : CheckoutSession) (s : State repo)
      → (get_public_session repo outside public_id s).0 ≡ ok session
      → (get_public_session repo outside public_id s).1 ≡ s
      → complete_session repo outside public_id s ≡ pay_session repo outside session s
  unfolding complete_session
  completes_found outside public_id session s e unchanged =
      bind_step (get_public_session repo outside public_id) (pay_session repo outside) s session e
      ∙ ap (pay_session repo outside session) unchanged

  pub sweep-Change :
      (now : ℕ) (s : State repo) → Change s.tables (expire_stale_sessions repo now s).1.tables
  unfolding expire_stale_sessions
  sweep-Change now s =
      let after = (expire_stale_sessions repo now s).1.tables in
      let effect : (after ≡ s.tables)
          ⊎ (after ≡ repo.update (is_stale now) expired_session s.tables) =
        ground arith in
      elim effect [ inl e ↦ same e | inr e ↦ closes now e ]

  pub complete_session-Change :
      (outside : Outside) (public_id : ℕ) (s : State repo)
      → Change s.tables (complete_session repo outside public_id s).1.tables
  unfolding complete_session
  complete_session-Change outside public_id s =
      let get = get_public_session repo outside public_id in
      let (unchanged, found) = get_public_session_found outside public_id s in
      elim (Result-cases (get s).0) [
        | inr (x, e) ↦ same (ground (arith, e, unchanged))
        | inl (session, e) ↦
            let run = completes_found outside public_id session s e unchanged in
            subst (λ r. Change s.tables r.1.tables) (sym run)
              (pay_session-Change outside session s (
                ap (λ k. repo.find_one k s.tables)
                  (repo.key-find_one public_id s.tables session (found session e))
                ∙ found session e))
      ]
