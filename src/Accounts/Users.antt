-- ===== src/Accounts/Users.antt =====
-- modules/users/users.service.ts: the operations on users that log-in, two-factor codes and passwords
-- rest on, and the administration of accounts.
use facilpay_api.Common.{
  ℕ, ◌+◌, ◌*◌, ◌-◌, ◌/◌, Bool, true, false, not, ◌&&◌, ◌||◌, Option, none, some, List, [], ◌∷◌, leb,
  ltb, ◌==◌, if◌then◌else◌, first, is_some, ⊤,
}
use facilpay_api.Common.Action.{
  Result, ok, err, Error, not_found, ◌>>=◌, ◌>>◌, pure, throw, or_throw, gets,
}
use facilpay_api.Accounts.Entities.{UserRole, User}
use facilpay_api.Accounts.State.{
  Accounts, Tables, State, Library, is_listed, Event, audit, mail, AuditAction, Mail, write, emit,
  record_audit,
}
pub mod Laws

-- `date && date > now`
abbrev pub is_after : ℕ → Option ℕ → Bool
is_after now none = false
is_after now (some until) = ltb now until

-- The user after one more wrong attempt.
unfoldable pub failed_once : ℕ → ℕ → ℕ → User → User
failed_once now max_attempts lock_minutes user =
    let count = user.failed_login_attempts + 1 in
    record user {
      failed_login_attempts = count;
      updated_at = now;
      locked_until =
          (if leb max_attempts count && not (is_after now user.locked_until)
            then some (now + lock_minutes * 60 * 1000)
            else user.locked_until);
    }

pub cleared : ℕ → User → User
cleared now user = record user { failed_login_attempts = 0; locked_until = none; updated_at = now }

-- What `isAccountLocked` leaves in the object it is given.
unfoldable pub unlocked_if_expired : ℕ → User → User
unlocked_if_expired now user =
    if is_some user.locked_until && not (is_after now user.locked_until)
    then record user { locked_until = none; failed_login_attempts = 0 }
    else user

pub deleted : ℕ → User → User
deleted now user = record user { deleted_at = some now; is_active = false; updated_at = now }

pub restored : ℕ → User → User
restored now user = record user { deleted_at = none; is_active = true; updated_at = now }

abbrev pub with_password : ℕ → ℕ → User → User
with_password now hash user = record user { password = hash; updated_at = now }

-- `Math.max(0, Math.ceil((lockedUntil - now) / 1000))`
pub get_seconds_until_unlock : ℕ → User → ℕ
get_seconds_until_unlock now user = elim user.locked_until [
  | none ↦ 0
  | some until ↦ (until - now + 999) / 1000
]

-- `isAccountLocked`, as a test
abbrev pub is_locked : ℕ → User → Bool
is_locked now user = is_after now user.locked_until

-- The hashes without the first one that matches, if one does.
pub without_match : Library → ℕ → List ℕ → Option (List ℕ)
without_match library code [] = none
without_match library code (hash ∷ rest) =
    if library.compare code hash
    then some rest
    else elim (without_match library code rest) [ none ↦ none | some l ↦ some (hash ∷ l) ]

abbrev remaining_codes : Library → ℕ → Option User → Option (User × List ℕ)
remaining_codes library code none = none
remaining_codes library code (some user) = elim user.backup_codes [
  | none ↦ none
  | some codes ↦ elim (without_match library code codes) [
    | none ↦ none
    | some rest ↦ some (user, rest)
  ]
]

module _ {db : Accounts} where
  abbrev pub save_user : User → State db → Result ⊤ × State db
  save_user user = write (λ t. record t { users = db.users.save user t.users })

  -- `findOne({ where: { id } })`
  abbrev pub find_user : ℕ → State db → Result User × State db
  find_user id s = or_throw (db.users.find_one id s.tables.users) not_found s

  -- A row that is found, changed and saved.
  abbrev pub change_user : (User → User) → ℕ → State db → Result User × State db
  change_user f id = do user ← find_user id; save_user (f user); pure (f user)

  -- `this.mailService`, which the class does not have, is undefined: no mail of the lock is sent.
  unfoldable pub increment_failed_login_attempts : ℕ → ℕ → ℕ → ℕ → State db → Result ℕ × State db
  increment_failed_login_attempts now max_attempts lock_minutes id = do
    user ← find_user id
    let failed = failed_once now max_attempts lock_minutes user
    save_user failed
    pure failed.failed_login_attempts

  pub reset_failed_login_attempts : ℕ → ℕ → State db → Result ⊤ × State db
  reset_failed_login_attempts now id = do
    user ← find_user id
    if ltb 0 user.failed_login_attempts || is_some user.locked_until
        then save_user (cleared now user)
        else pure tt

  -- The result, the object that the caller goes on with, and the save that is not waited for: its
  -- failure throws nowhere.
  unfoldable pub is_account_locked : ℕ → User → State db → Result (Bool × User) × State db
  is_account_locked now user s =
      let user' = unlocked_if_expired now user in
      let expired = is_some user.locked_until && not (is_locked now user) in
      (ok (is_locked now user, user'), (if expired then (save_user user' s).1 else s))

  pub unlock_account : ℕ → Option ℕ → ℕ → State db → Result User × State db
  unlock_account now actor_id id = do
    user ← change_user (cleared now) id
    record_audit AuditAction.user_unlocked (some id)
    pure user

  unfoldable pub update_password : ℕ → ℕ → ℕ → State db → Result User × State db
  update_password now hash = change_user (with_password now hash)

  pub set_two_factor_secret : ℕ → ℕ → State db → Result User × State db
  set_two_factor_secret secret = change_user (λ u. record u { two_factor_secret = some secret })

  pub enable_two_factor : ℕ → State db → Result User × State db
  enable_two_factor = change_user (λ u. record u { two_factor_enabled = true })

  pub disable_two_factor : ℕ → State db → Result User × State db
  disable_two_factor =
      change_user (λ u. record u {
        two_factor_enabled = false;
        two_factor_secret = none;
        backup_codes = none;
      })

  pub update_backup_codes : List ℕ → ℕ → State db → Result User × State db
  update_backup_codes codes = change_user (λ u. record u { backup_codes = some codes })

  pub update_rate_limit : ℕ → Bool → Option ℕ → Option ℕ → ℕ → State db → Result User × State db
  update_rate_limit now enabled limit ttl = change_user (λ u. record u {
    rate_limit_enabled = enabled;
    rate_limit_limit = limit;
    rate_limit_ttl = ttl;
    updated_at = now;
  })

  module _ (library : Library) where
    -- `findOne({ where: { id, deletedAt: null } })`
    unfoldable pub find_listed : ℕ → Tables db → Option User
    find_listed id t = elim (db.users.find_one id t.users) [
      | none ↦ none
      | some user ↦ if is_listed library user then some user else none
    ]

    abbrev pub find_by_id_with_secrets : ℕ → State db → Result User × State db
    find_by_id_with_secrets id s = or_throw (find_listed id s.tables) not_found s

    -- `email` is a unique column.
    unfoldable pub find_by_email : ℕ → Tables db → Option User
    find_by_email email t = first (
        db.users.find (λ u. (u.email == library.normalize_email email) && is_listed library u)
          t.users)

    unfoldable pub verify_email : ℕ → ℕ → State db → Result ⊤ × State db
    verify_email now id = do
      user ← find_by_id_with_secrets id
      save_user (record user { is_email_verified = true; updated_at = now })

    pub restore : ℕ → ℕ → State db → Result User × State db
    restore now id = do
      user ← find_by_id_with_secrets id
      save_user (restored now user)
      pure (restored now user)

    pub soft_delete : ℕ → ℕ → State db → Result ⊤ × State db
    soft_delete now id = do
      user ← find_by_id_with_secrets id
      save_user (deleted now user)
      write (λ t. record t {
        refresh_tokens =
            db.refresh_tokens.update (λ r. r.user_id == id) (λ r. record r { revoked = true })
              t.refresh_tokens;
      })
      record_audit AuditAction.user_deleted (some id)

    pub consume_backup_code : ℕ → ℕ → State db → Result Bool × State db
    consume_backup_code code id s =
        elim (remaining_codes library code (db.users.find_one id s.tables.users)) [
          | none ↦ (ok false, s)
          | some (user, rest) ↦
              (save_user (record user { backup_codes = some rest }) >> pure true) s
        ]
