-- ===== src/Accounts/Passwords.antt =====
-- modules/auth: forgotPassword and resetPassword of auth.service.ts, and password-history.service.ts.
-- The hash that bcrypt gives a new password, and what the check of its strength throws, are given; so
-- is the order of the history, newest first.
use facilpay_api.Common.{
  ℕ, suc, zero, ◌+◌, ◌*◌, Bool, true, false, not, ◌||◌, Option, none, some, List, [], ◌∷◌, ltb,
  ◌==◌, map, includes, if◌then◌else◌, first, take, any, is_empty, ⊤,
}
use facilpay_api.Common.Action.{
  Result, ok, err, bad_request, ◌>>=◌, ◌>>◌, pure, or_throw, throw_if, gets,
}
use facilpay_api.Accounts.Entities.{User, RefreshToken, PasswordResetToken, PasswordHistory}
use facilpay_api.Accounts.State.{
  Accounts, Tables, State, Library, Event, mail, Mail, AuditAction, write, emit, record_audit,
}
use facilpay_api.Accounts.Users.{find_listed, find_by_email, update_password}
use facilpay_api.Accounts.Tokens.{revoke_tokens}
pub mod Laws

abbrev pub password_history_limit : ℕ
password_history_limit = 5

-- `list.slice(n)`
abbrev pub drop : {A : Type 0} → ℕ → List A → List A
drop zero xs = xs
drop (suc n) [] = []
drop (suc n) (x ∷ xs) = drop n xs

pub record ResetPasswordDto : Type 0 where
  pub token : ℕ
  pub email : ℕ
  pub new_password : ℕ

-- What a reset is given from outside: the time, the hash of the new password, the identifier of the
-- row in the history, and the check of the strength.
pub record Reset : Type 0 where
  pub now : ℕ
  pub hashed_password : ℕ
  pub history_id : ℕ
  pub validate_and_score : ℕ → Result ⊤

module _ {db : Accounts} (library : Library) where
  pub forgot_password : ℕ → ℕ → ℕ → ℕ → State db → Result ⊤ × State db
  forgot_password new raw_token now email s = elim (find_by_email library email s.tables) [
    | none ↦ record_audit AuditAction.password_reset_requested none s
    | some user ↦
        (do
          write (λ t. record t {
            reset_tokens =
                db.reset_tokens.save
                  (record {
                    id = new;
                    user_id = user.id;
                    token_hash = library.sha256 raw_token;
                    expires_at = now + 60 * 60 * 1000;
                    used = false;
                    created_at = now;
                  })
                  t.reset_tokens;
          })
          emit (mail Mail.password_reset user.email ∷ [])
          record_audit AuditAction.password_reset_requested (some user.id))
          s
  ]

  module _ (newest_first : List PasswordHistory → List PasswordHistory) where
    -- `find({ where: { userId }, order: { createdAt: 'DESC' } })`
    abbrev pub history_of : ℕ → Tables db → List PasswordHistory
    history_of user_id t =
        newest_first (db.password_history.find (λ h. h.user_id == user_id) t.password_history)

    -- The hash of the new password is what the code compares with the old hashes.
    unfoldable pub validate_password_not_reused : ℕ → ℕ → State db → Result ⊤ × State db
    validate_password_not_reused user_id new_password_hash s =
        let history = take password_history_limit (history_of user_id s.tables) in
        throw_if (any (λ entry. library.compare new_password_hash entry.password_hash) history)
          bad_request s

    unfoldable pub clean_history : ℕ → State db → Result ⊤ × State db
    clean_history user_id s =
        let to_delete =
          map (λ h. h.id) (drop password_history_limit (history_of user_id s.tables)) in
        if is_empty to_delete
        then (ok tt, s)
        else write
            (λ t. record t {
              password_history =
                  db.password_history.delete (λ h. includes h.id to_delete) t.password_history;
            })
            s

    unfoldable pub record_password_change : Reset → ℕ → State db → Result ⊤ × State db
    record_password_change reset user_id = do
      write (λ t. record t {
        password_history =
            db.password_history.save
              (record {
                id = reset.history_id;
                user_id = user_id;
                password_hash = reset.hashed_password;
                created_at = reset.now;
              })
              t.password_history;
      })
      clean_history user_id

    -- The first row of the hash; `tokenHash` is no unique column.
    abbrev pub find_reset_token : ℕ → Tables db → Option PasswordResetToken
    find_reset_token token_hash t =
        first (db.reset_tokens.find (λ r. r.token_hash == token_hash) t.reset_tokens)

    -- The tests before anything is written: the user whose password is reset.
    unfoldable pub check_reset : Reset → ResetPasswordDto → State db → Result User × State db
    check_reset reset dto = do
      t ← gets (λ s. s.tables)
      token ← or_throw (find_reset_token (library.sha256 dto.token) t) bad_request
      throw_if (token.used || ltb token.expires_at reset.now) bad_request
      user ← or_throw (find_listed library token.user_id t) bad_request
      throw_if (not (user.email == dto.email)) bad_request
      pure user

    unfoldable pub store_password : Reset → ResetPasswordDto → User → State db → Result ⊤ × State db
    store_password reset dto user = do
      λ s. (reset.validate_and_score dto.new_password, s)
      validate_password_not_reused user.id reset.hashed_password
      update_password reset.now reset.hashed_password user.id
      record_password_change reset user.id
      emit (mail Mail.password_changed user.email ∷ [])

    unfoldable pub finish_reset : ResetPasswordDto → User → State db → Result ⊤ × State db
    finish_reset dto user = do
      write (λ t. record t {
        reset_tokens =
            db.reset_tokens.update (λ r. r.token_hash == library.sha256 dto.token)
              (λ r. record r { used = true }) t.reset_tokens;
      })
      revoke_tokens (λ r. r.user_id == user.id)
      record_audit AuditAction.password_reset_completed (some user.id)

    unfoldable pub reset_password : Reset → ResetPasswordDto → State db → Result ⊤ × State db
    reset_password reset dto = do
      user ← check_reset reset dto
      store_password reset dto user
      finish_reset dto user
