-- ===== src/Accounts/Passwords/Laws.antt =====
-- A token that reset a password does not reset another one, and the sessions of the user end.
use facilpay_api.Common.{
  ℕ, ◌≡◌, ◌≤◌, refl, sym, ap, ◌∙◌, inl, inr, true, false, some, List, ◌==◌, All, arith,
  Option-cases, List-cases, ⊤,
}
use mathlib.Core.Path.{subst}
use facilpay_api.Common.Action.{ok, err, bad_request, bind_ok, ◌>>◌}
use facilpay_api.Accounts.Entities.{User, RefreshToken, PasswordResetToken, PasswordHistory}
use facilpay_api.Accounts.State.{Accounts, Tables, State, Library}
use facilpay_api.Accounts.Users.{find_listed}
use facilpay_api.Accounts.Passwords.{
  Reset, ResetPasswordDto, check_reset, store_password, finish_reset, reset_password,
}

module _ {db : Accounts} (library : Library)
    (newest_first : List PasswordHistory → List PasswordHistory) where
  -- Each token row of the text has been used.
  abbrev IsSpent : ℕ → Tables db → Type 0
  IsSpent token t =
      (k : ℕ) (r : PasswordResetToken)
      → db.reset_tokens.find_one k t.reset_tokens ≡ some r
      → r.token_hash ≡ library.sha256 token
      → r.used ≡ true

  -- No refresh token of the user is valid.
  abbrev pub IsLoggedOut : ℕ → Tables db → Type 0
  IsLoggedOut user_id t =
      (k : ℕ) (r : RefreshToken)
      → db.refresh_tokens.find_one k t.refresh_tokens ≡ some r
      → r.user_id ≡ user_id
      → r.revoked ≡ true

  finish_reset_tables :
      (dto : ResetPasswordDto) (user : User) (u : ⊤) (s : State db)
      → (finish_reset library newest_first dto user s).0 ≡ ok u
      → let t = (finish_reset library newest_first dto user s).1.tables in
        (t.reset_tokens
          ≡ db.reset_tokens.update
              (λ r. r.token_hash == library.sha256 dto.token)
              (λ r. record r { used = true })
              s.tables.reset_tokens)
        × (t.refresh_tokens
            ≡ db.refresh_tokens.update
                (λ r. r.user_id == user.id)
                (λ r. record r { revoked = true })
                s.tables.refresh_tokens)
  unfolding finish_reset
  finish_reset_tables dto user u s h = ground (arith, h)

  update-IsSpent :
      (token : ℕ) (t t' : Tables db)
      → t'.reset_tokens
        ≡ db.reset_tokens.update
            (λ r. r.token_hash == library.sha256 token)
            (λ r. record r { used = true })
            t.reset_tokens
      → IsSpent token t'
  update-IsSpent token t t' e k r found hash =
      elim (Option-cases (db.reset_tokens.find_one k t.reset_tokens)) [
        | inl absent ↦ ground (
          arith,
          e,
          absent,
          found,
          db.reset_tokens.find_one-update (λ r. r.token_hash == library.sha256 token)
              (λ r. record r { used = true }) k t.reset_tokens (λ a. refl),
        )
        | inr (before, here) ↦ ground (
          arith,
          e,
          here,
          found,
          hash,
          db.reset_tokens.find_one-update (λ r. r.token_hash == library.sha256 token)
              (λ r. record r { used = true }) k t.reset_tokens (λ a. refl),
        )
      ]

  update-IsLoggedOut :
      (user_id : ℕ) (t t' : Tables db)
      → t'.refresh_tokens
        ≡ db.refresh_tokens.update
            (λ r. r.user_id == user_id)
            (λ r. record r { revoked = true })
            t.refresh_tokens
      → IsLoggedOut user_id t'
  update-IsLoggedOut user_id t t' e k r found owner =
      elim (Option-cases (db.refresh_tokens.find_one k t.refresh_tokens)) [
        | inl absent ↦ ground (
          arith,
          e,
          absent,
          found,
          db.refresh_tokens.find_one-update (λ r. r.user_id == user_id)
              (λ r. record r { revoked = true }) k t.refresh_tokens (λ a. refl),
        )
        | inr (before, here) ↦ ground (
          arith,
          e,
          here,
          found,
          owner,
          db.refresh_tokens.find_one-update (λ r. r.user_id == user_id)
              (λ r. record r { revoked = true }) k t.refresh_tokens (λ a. refl),
        )
      ]

  -- A token that is spent resets no password.
  spent_refused :
      (reset : Reset) (dto : ResetPasswordDto) (s : State db)
      → IsSpent dto.token s.tables
      → reset_password library newest_first reset dto s ≡ (err bad_request, s)
  unfolding reset_password check_reset
  spent_refused reset dto s spent =
      let sound =
        db.reset_tokens.find_sound (λ r. r.token_hash == library.sha256 dto.token)
          s.tables.reset_tokens in
      elim (List-cases (
        db.reset_tokens.find (λ r. r.token_hash == library.sha256 dto.token)
          s.tables.reset_tokens)) [
            | inl e ↦ ground (arith, e)
            | inr (r, rest, e) ↦
                let (matches, here) = (subst (All _) e sound).0 in
                let used : r.used ≡ true = spent r.id r here (ground (arith, matches)) in
                ground (arith, e, used)
          ]

  -- The row of a reset token for the text, which was not used and not too old, and the user who owns
  -- it: the one that is stored under the identifier that the row names, with the email of the request.
  pub record IsOwner (now : ℕ) (dto : ResetPasswordDto) (t : Tables db) (user : User) : Type 0 where
    pub row : PasswordResetToken
    pub stored : db.reset_tokens.find_one row.id t.reset_tokens ≡ some row
    pub hash : row.token_hash ≡ library.sha256 dto.token
    pub unused : row.used ≡ false
    pub in_time : now ≤ row.expires_at
    pub found : db.users.find_one row.user_id t.users ≡ some user
    pub email : user.email ≡ dto.email

  check_reset-IsOwner :
      (reset : Reset) (dto : ResetPasswordDto) (user : User) (s : State db)
      → (check_reset library newest_first reset dto s).0 ≡ ok user
      → IsOwner reset.now dto s.tables user
  unfolding check_reset find_listed
  check_reset-IsOwner reset dto user s h =
      let sound =
        db.reset_tokens.find_sound (λ r. r.token_hash == library.sha256 dto.token)
          s.tables.reset_tokens in
      elim (List-cases (
        db.reset_tokens.find (λ r. r.token_hash == library.sha256 dto.token)
          s.tables.reset_tokens)) [
            | inl e ↦ absurd (ground (arith, e, h))
            | inr (r, rest, e) ↦
                let (matches, here) = (subst (All _) e sound).0 in
                elim (Option-cases (db.users.find_one r.user_id s.tables.users)) [
                  | inl absent ↦ absurd (ground (arith, e, absent, h))
                  | inr (owner, found) ↦
                      let is_owner : owner ≡ user = ground (arith, e, found, h) in
                      record {
                        row = r;
                        stored = here;
                        hash = ground (arith, matches);
                        unused = ground (arith, e, h);
                        in_time = ground (arith, e, h);
                        found = found ∙ ap some is_owner;
                        email = ground (arith, e, found, h);
                      }
                ]
          ]

  -- After a reset that returned, there is the user who owns the row of the token, and has the email of
  -- the request, and every refresh token of that user is revoked; and a second reset with the same token, whatever the rest of the request and whichever
  -- write fails, is refused and changes nothing.
  pub reset_password_once :
      (reset : Reset) (dto : ResetPasswordDto) (u : ⊤) (s : State db)
      → (reset_password library newest_first reset dto s).0 ≡ ok u
      → let s' = (reset_password library newest_first reset dto s).1 in
        ((user : User) × IsOwner reset.now dto s.tables user × IsLoggedOut user.id s'.tables)
        × ((reset' : Reset) (dto' : ResetPasswordDto)
            → dto'.token ≡ dto.token
            → reset_password library newest_first reset' dto' s' ≡ (err bad_request, s'))
  unfolding reset_password
  reset_password_once reset dto u s h =
      let check = check_reset library newest_first reset dto in
      let store = store_password library newest_first reset dto in
      let finish = finish_reset library newest_first dto in
      let (user, checked, one) = bind_ok check (λ x. store x >> finish x) s u h in
      let (v, stored, two) = bind_ok (store user) (λ _. finish user) (check s).1 u (rw (← one) h) in
      let s2 = (store user (check s).1).1 in
      let same = one ∙ two in
      let tables = finish_reset_tables dto user u s2 (rw (← same) h) in
      let logged_out : IsLoggedOut user.id (finish user s2).1.tables =
        update-IsLoggedOut user.id s2.tables (finish user s2).1.tables tables.1 in
      let spent : IsSpent dto.token (finish user s2).1.tables =
        update-IsSpent dto.token s2.tables (finish user s2).1.tables tables.0 in
      rw (same) (
        (user, check_reset-IsOwner reset dto user s checked, logged_out),
        λ reset' dto' token.
            spent_refused reset' dto' (finish user s2).1
              (subst (λ k. IsSpent k (finish user s2).1.tables) (sym token) spent),
      )
