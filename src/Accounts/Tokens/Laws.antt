-- ===== src/Accounts/Tokens/Laws.antt =====
-- A refresh token is used once.
use facilpay_api.Common.{
  ℕ, ◌≡◌, ◌≢◌, refl, ◌∙◌, ap, inl, inr, true, false, Option, none, some, ltb, ◌==◌, arith,
  Option-cases, Bool-cases,
}
use facilpay_api.Common.Action.{Result, ok, is_ok, Result-cases, bind_ok, ◌>>=◌, ◌>>◌}
use facilpay_api.Accounts.Entities.{RefreshToken, User}
use facilpay_api.Accounts.State.{Accounts, Tables, State, Library, Event, write}
use facilpay_api.Common.Store.{write_ok}
use facilpay_api.Accounts.Users.{find_listed}
use facilpay_api.Accounts.Sessions.{SessionMetadata, create_session, touch_session}
use facilpay_api.Accounts.Tokens.{
  Fresh, new_token, revoked_token, token_transaction, generate_refresh_token, continue_session,
  check_token, rotate, refresh,
}

module _ {db : Accounts} (library : Library) where
  -- Whatever is thrown, the tables stay, and so the other tokens of the user stay valid.
  abbrev pub IsRefused : {A : Type 0} → Result A × State db → State db → Type 0
  IsRefused call s = (is_ok call.0 ≡ false) × (call.1.tables ≡ s.tables)

  -- A revoked token that is presented again is refused. The revocation of all tokens of its user is
  -- rolled back: no table changes.
  refresh_revoked :
      (fresh : Fresh) (now raw : ℕ) (meta : SessionMetadata) (found : RefreshToken) (s : State db)
      → db.refresh_tokens.find_one (library.sha256 raw) s.tables.refresh_tokens ≡ some found
      → found.revoked ≡ true
      → IsRefused (refresh library fresh now raw meta s) s
  unfolding refresh token_transaction check_token
  refresh_revoked fresh now raw meta found s here revoked =
      elim (Bool-cases (ltb found.expires_at now)) [
        | inl old ↦ ground (arith, here, revoked, old)
        | inr valid ↦ ground (arith, here, revoked, valid)
      ]

  continue_session_tokens :
      (fresh : Fresh) (now user_id : ℕ) (meta : SessionMetadata) (linked : Option ℕ) (s : State db)
      → (continue_session library fresh now meta user_id linked s).1.tables.refresh_tokens
        ≡ s.tables.refresh_tokens
  unfolding continue_session create_session touch_session
  continue_session_tokens fresh now user_id meta none s = ground arith
  continue_session_tokens fresh now user_id meta (some id) s =
      elim (Option-cases (db.sessions.find_one id s.tables.sessions)) [
        | inl e ↦ ground (arith, e)
        | inr (session, e) ↦ ground (arith, e)
      ]

  -- The tokens after a rotation: the old one is revoked, and a new one is saved.
  abbrev IsRotated : Fresh → ℕ → RefreshToken → State db → State db → Type 0
  IsRotated fresh now found s s' =
      (user_id : ℕ) × (session_id : Option ℕ) × (s'.tables.refresh_tokens
        ≡ db.refresh_tokens.save (new_token library fresh now user_id session_id) (
            db.refresh_tokens.update (λ r. r.id == found.id) revoked_token s.tables.refresh_tokens))

  revoke_one : RefreshToken → Tables db → Tables db
  revoke_one found t = record t {
    refresh_tokens =
        db.refresh_tokens.update (λ r. r.id == found.id) revoked_token t.refresh_tokens;
  }

  generate-saves :
      (fresh : Fresh) (now user_id : ℕ) (session_id : Option ℕ) (new : ℕ) (s : State db)
      → (generate_refresh_token library fresh now user_id session_id s).0 ≡ ok new
      → (generate_refresh_token library fresh now user_id session_id s).1.tables.refresh_tokens
        ≡ db.refresh_tokens.save
            (new_token library fresh now user_id session_id)
            s.tables.refresh_tokens
  unfolding generate_refresh_token
  generate-saves fresh now user_id session_id new s h = ground (arith, h)

  rotated :
      (fresh : Fresh) (now : ℕ) (meta : SessionMetadata) (found : RefreshToken) (new : ℕ)
      (user : User) (s : State db)
      → find_listed library found.user_id s.tables ≡ some user
      → (rotate library fresh now meta found s).0 ≡ ok new
      → IsRotated fresh now found s (rotate library fresh now meta found s).1
  unfolding rotate revoke_one
  rotated fresh now meta found new user s e h =
      let revoke = write {E = Event} (revoke_one found) in
      let next : ℕ → State db → Result ℕ × State db =
        λ id. generate_refresh_token library fresh now user.id (some id) in
      let continue = continue_session library fresh now meta user.id found.session_id in
      let listed : rotate library fresh now meta found s ≡ (revoke >> (continue >>= next)) s =
        rw (e) refl in
      let returned : ((revoke >> (continue >>= next)) s).0 ≡ ok new = rw (← listed) h in
      let (u, wrote, one) = bind_ok revoke (λ _. continue >>= next) s new returned in
      let (id, linked, two) = bind_ok continue next (revoke s).1 new (rw (← one) returned) in
      let saved =
        generate-saves fresh now user.id (some id) new (continue (revoke s).1).1
          (rw (← two, ← one) returned) in
      (
        user.id,
        some id,
        rw (listed, one, two)
            (saved
              ∙ ap (db.refresh_tokens.save (new_token library fresh now user.id (some id))) (
                  continue_session_tokens fresh now user.id meta found.session_id (revoke s).1
                  ∙ ap (λ t. t.refresh_tokens) (write_ok (revoke_one found) s u wrote))),
      )

  rotate-IsRotated :
      (fresh : Fresh) (now : ℕ) (meta : SessionMetadata) (found : RefreshToken) (new : ℕ)
      (s : State db)
      → (rotate library fresh now meta found s).0 ≡ ok new
      → IsRotated fresh now found s (rotate library fresh now meta found s).1
  unfolding rotate generate_refresh_token
  rotate-IsRotated fresh now meta found new s h =
      elim (Option-cases (find_listed library found.user_id s.tables)) [
        | inl e ↦ ground (arith, e, h)
        | inr (user, e) ↦ rotated fresh now meta found new user s e h
      ]

  transaction_ok :
      {A : Type 0} (body : State db → Result A × State db) (a : A) (s : State db)
      → (token_transaction body s).0 ≡ ok a
      → ((body s).0 ≡ ok a) × ((token_transaction body s).1.tables ≡ (body s).1.tables)
  unfolding token_transaction
  transaction_ok body a s h = elim (Result-cases (body s).0) [
    | inl (b, e) ↦ ground (arith, e, h)
    | inr (x, e) ↦ ground (arith, e, h)
  ]

  check_token_ok :
      (raw now : ℕ) (found : RefreshToken) (s : State db)
      → (check_token library raw now s).0 ≡ ok found
      → (db.refresh_tokens.find_one (library.sha256 raw) s.tables.refresh_tokens ≡ some found)
        × ((check_token library raw now s).1 ≡ s)
  unfolding check_token
  check_token_ok raw now found s h =
      elim (Option-cases
        (db.refresh_tokens.find_one (library.sha256 raw) s.tables.refresh_tokens)) [
          | inl e ↦ ground (arith, e, h)
          | inr (r, e) ↦ elim (Bool-cases (ltb r.expires_at now)) [
            | inl old ↦ ground (arith, e, old, h)
            | inr valid ↦ elim (Bool-cases r.revoked) [
              | inl revoked ↦ ground (arith, e, valid, revoked, h)
              | inr fresh ↦ ground (arith, e, valid, fresh, h)
            ]
          ]
        ]

  rotated_row :
      (fresh : Fresh) (now raw : ℕ) (found : RefreshToken) (user_id : ℕ) (session_id : Option ℕ)
      (t : Tables db)
      → library.sha256 fresh.raw_token ≢ library.sha256 raw
      → db.refresh_tokens.find_one (library.sha256 raw) t.refresh_tokens ≡ some found
      → db.refresh_tokens.find_one (library.sha256 raw) (
          db.refresh_tokens.save
            (new_token library fresh now user_id session_id)
            (db.refresh_tokens.update (λ r. r.id == found.id) revoked_token t.refresh_tokens))
        ≡ some (revoked_token found)
  unfolding new_token
  rotated_row fresh now raw found user_id session_id t other here = ground (
    arith,
    other,
    here,
    db.refresh_tokens.find_one-save (new_token library fresh now user_id session_id)
        (library.sha256 raw)
        (db.refresh_tokens.update (λ r. r.id == found.id) revoked_token t.refresh_tokens),
    db.refresh_tokens.find_one-update (λ r. r.id == found.id) revoked_token (library.sha256 raw)
        t.refresh_tokens (λ a. refl),
  )

  -- After a refresh that returned, the row of the old token is revoked.
  refresh_revokes :
      (fresh : Fresh) (now raw new : ℕ) (meta : SessionMetadata) (s : State db)
      → library.sha256 fresh.raw_token ≢ library.sha256 raw
      → (refresh library fresh now raw meta s).0 ≡ ok new
      → (found : RefreshToken) × (db.refresh_tokens.find_one
            (library.sha256 raw)
            (refresh library fresh now raw meta s).1.tables.refresh_tokens
          ≡ some found)
        × (found.revoked ≡ true)
  unfolding refresh
  refresh_revokes fresh now raw new meta s other h =
      let check = check_token library raw now in
      let next = rotate library fresh now meta in
      let (returned, tables) = transaction_ok (check >>= next) new s h in
      let (found, checked, one) = bind_ok check next s new returned in
      let (here, same) = check_token_ok raw now found s checked in
      let both : (check >>= next) s ≡ next found s = one ∙ ap (next found) same in
      let rotated = rotate-IsRotated fresh now meta found new s (rw (← both) returned) in
      (
        revoked_token found,
        ap (λ t. db.refresh_tokens.find_one (library.sha256 raw) t.refresh_tokens) tables
            ∙ ap (λ p. db.refresh_tokens.find_one (library.sha256 raw) p.1.tables.refresh_tokens)
                both
            ∙ ap (db.refresh_tokens.find_one (library.sha256 raw)) rotated.2
            ∙ rotated_row fresh now raw found rotated.0 rotated.1 s.tables other here,
        refl,
      )

  -- After a refresh that returned, the same token is refused at any later time, whatever is new then
  -- and whatever write fails, if the hash of the new token is another one; and that call changes no
  -- table, so that it revokes no token of the user, although the code means to revoke all of them.
  pub refresh_twice :
      (fresh fresh' : Fresh) (now later raw new : ℕ) (meta meta' : SessionMetadata) (s : State db)
      → library.sha256 fresh.raw_token ≢ library.sha256 raw
      → (refresh library fresh now raw meta s).0 ≡ ok new
      → IsRefused
          (refresh library fresh' later raw meta' (refresh library fresh now raw meta s).1)
          (refresh library fresh now raw meta s).1
  refresh_twice fresh fresh' now later raw new meta meta' s other h =
      let (found, here, revoked) = refresh_revokes fresh now raw new meta s other h in
      refresh_revoked fresh' later raw meta' found _ here revoked
