-- ===== src/Accounts/Profile.antt =====
-- modules/users/users.service.ts: creating a user, reading and changing a profile. The hash that
-- bcrypt gives a new password is an argument. A field that is missing or the empty text is `none`.
use facilpay_api.Common.{
  ℕ, Bool, true, false, not, ◌&&◌, Option, none, some, [], ◌∷◌, ◌==◌, if◌then◌else◌, any, first,
  is_some, ⊤,
}
use facilpay_api.Common.Action.{
  Result, ok, conflict, forbidden, unauthorized, failure, ◌>>=◌, ◌>>◌, pure, or_throw, throw_if,
}
use facilpay_api.Accounts.Entities.{UserRole, User}
use facilpay_api.Accounts.State.{Accounts, Tables, State, Library, is_listed}
use facilpay_api.Accounts.Users.{find_by_id_with_secrets, save_user}
use facilpay_api.Accounts.Tokens.{revoke_tokens}

pub record CreateUserDto : Type 0 where
  pub email : ℕ
  pub password : ℕ

pub record UpdateUserDto : Type 0 where
  pub name : Option ℕ
  pub email : Option ℕ
  pub password : Option ℕ
  pub current_password : Option ℕ

unfoldable pub new_user : Library → ℕ → ℕ → ℕ → CreateUserDto → User
new_user library new now hashed_password dto = record {
  id = new;
  email = library.normalize_email dto.email;
  password = hashed_password;
  name = none;
  roles = UserRole.user ∷ [];
  role_id = none;
  is_email_verified = false;
  is_active = true;
  two_factor_secret = none;
  two_factor_enabled = false;
  backup_codes = none;
  deleted_at = none;
  failed_login_attempts = 0;
  locked_until = none;
  rate_limit_enabled = false;
  rate_limit_limit = none;
  rate_limit_ttl = none;
  created_at = now;
  updated_at = now;
}

pub is_admin_role : UserRole → Bool
is_admin_role UserRole.admin = true
is_admin_role UserRole.user = false

pub is_admin : User → Bool
is_admin user = any is_admin_role user.roles

pub renamed : Option ℕ → User → User
renamed none user = user
renamed (some name) user = record user { name = some name }

module _ {db : Accounts} (library : Library) where
  unfoldable pub create : ℕ → ℕ → ℕ → CreateUserDto → State db → Result User × State db
  create new now hashed_password dto =
      let user = new_user library new now hashed_password dto in save_user user >> pure user

  pub is_taken : ℕ → Tables db → Bool
  is_taken email t =
      is_some (first (db.users.find (λ u. (u.email == email) && is_listed library u) t.users))

  pub check_email : Option ℕ → User → State db → Result ⊤ × State db
  check_email none user s = (ok tt, s)
  check_email (some email) user s =
      throw_if (not (email == user.email) && is_taken email s.tables) conflict s

  -- The object with its new password; the refresh tokens of the user are revoked.
  pub change_password : ℕ → UpdateUserDto → User → State db → Result User × State db
  change_password hashed_password dto user =
      if is_some dto.password
      then (do
        current ← or_throw dto.current_password failure
        throw_if (not (library.compare current user.password)) unauthorized
        revoke_tokens (λ r. r.user_id == user.id)
        pure (record user { password = hashed_password }))
      else pure user

  -- The email is not assigned.
  pub update : ℕ → ℕ → ℕ → UpdateUserDto → State db → Result User × State db
  update now hashed_password id dto = do
    user ← find_by_id_with_secrets library id
    check_email dto.email user
    changed ← change_password hashed_password dto (renamed dto.name user)
    save_user (record changed { updated_at = now })
    pure (record changed { updated_at = now })

  pub check_own : ℕ → User → State db → Result ⊤ × State db
  check_own id requesting =
      throw_if (not (is_admin requesting) && not (requesting.id == id)) forbidden

  pub find_one_with_auth : ℕ → User → State db → Result User × State db
  find_one_with_auth id requesting = check_own id requesting >> find_by_id_with_secrets library id

  pub update_with_auth : ℕ → ℕ → ℕ → UpdateUserDto → User → State db → Result User × State db
  update_with_auth now hashed_password id dto requesting =
      check_own id requesting >> update now hashed_password id dto

  -- The user, and whether the new email has to be verified.
  pub update_profile : ℕ → ℕ → ℕ → UpdateUserDto → State db → Result (User × Bool) × State db
  update_profile now hashed_password id dto = do
    user ← update now hashed_password id dto
    pure (user, is_some dto.email)
