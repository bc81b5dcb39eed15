-- ===== src/Accounts/Login.antt =====
-- modules/auth/auth.service.ts: login, and the two-factor operations that share its lock.
use facilpay_api.Common.{
  ℕ, Bool, true, false, not, ◌&&◌, ◌||◌, Option, none, some, if◌then◌else◌, ⊤, is_some,
}
use facilpay_api.Common.Action.{
  Result, ok, err, unauthorized, locked, forbidden, bad_request, ◌>>=◌, ◌>>◌, pure, throw, or_throw,
  throw_if, gets,
}
use facilpay_api.Accounts.Entities.{User}
use facilpay_api.Accounts.State.{Accounts, Tables, State, Library, AuditAction, record_audit}
use facilpay_api.Accounts.Users.{
  is_account_locked, increment_failed_login_attempts, reset_failed_login_attempts, find_by_email,
  find_by_id_with_secrets, consume_backup_code, enable_two_factor, disable_two_factor,
}
use facilpay_api.Accounts.Sessions.{SessionMetadata, create_session}
use facilpay_api.Accounts.Tokens.{Fresh, generate_refresh_token}
pub mod Lockout

pub record LoginDto : Type 0 where
  pub email : ℕ
  pub password : ℕ
  pub two_factor_code : Option ℕ

pub record Limits : Type 0 where
  pub max_failed_attempts : ℕ
  pub lock_duration_minutes : ℕ

pub data LoginResult : Type 0 where
  two_factor_required : LoginResult
  -- the raw refresh token and the user
  logged_in : ℕ → User → LoginResult

module _ {db : Accounts} (library : Library) (limits : Limits) where
  -- The lock of the account: the object to go on with, or the exception 423.
  pub check_lock : ℕ → User → State db → Result User × State db
  check_lock now user = do
    (is_locked, user') ← is_account_locked now user
    throw_if is_locked locked
    pure user'

  pub count_failure : ℕ → User → State db → Result ℕ × State db
  count_failure now user =
      increment_failed_login_attempts now limits.max_failed_attempts limits.lock_duration_minutes
        user.id

  pub check_password : ℕ → ℕ → User → State db → Result ⊤ × State db
  check_password now password user = if library.compare password user.password then pure tt else (do
    count_failure now user
    record_audit AuditAction.login_failed (some user.id)
    throw unauthorized)

  -- A code of six characters may be a TOTP code; any other one, or a wrong one, is tried as a backup
  -- code.
  pub check_code : ℕ → ℕ → User → State db → Result ⊤ × State db
  check_code now code user = do
    encrypted ← or_throw user.two_factor_secret unauthorized
    secret ← λ s. (library.decrypt_secret encrypted, s)
    if library.has_six_codes code && library.verify_sync secret now code then pure tt else (do
      is_valid ← consume_backup_code library code user.id
      if is_valid
          then pure tt
          else (record_audit AuditAction.login_failed (some user.id) >> throw unauthorized))

  pub issue : Fresh → ℕ → SessionMetadata → User → State db → Result LoginResult × State db
  issue fresh now meta user = do
    session ← create_session fresh.session_id now user.id meta
    token ← generate_refresh_token library fresh now user.id (some session.id)
    record_audit AuditAction.login_success (some user.id)
    pure (logged_in token user)

  -- From the verified password on.
  pub second_factor :
      Fresh → ℕ → LoginDto → SessionMetadata → User → State db → Result LoginResult × State db
  second_factor fresh now dto meta user =
      if user.two_factor_enabled
      then elim dto.two_factor_code [
        | none ↦ pure two_factor_required
        | some code ↦ check_code now code user >> issue fresh now meta user
      ]
      else issue fresh now meta user

  pub login_user :
      Fresh → ℕ → LoginDto → SessionMetadata → User → State db → Result LoginResult × State db
  login_user fresh now dto meta found = do
    user ← check_lock now found
    throw_if (is_some user.deleted_at) forbidden
    check_password now dto.password user
    throw_if (not user.is_email_verified) forbidden
    reset_failed_login_attempts now user.id
    second_factor fresh now dto meta user

  pub login : Fresh → ℕ → LoginDto → SessionMetadata → State db → Result LoginResult × State db
  login fresh now dto meta s = elim (find_by_email library dto.email s.tables) [
    | none ↦ (record_audit AuditAction.login_failed none >> throw unauthorized) s
    | some user ↦ login_user fresh now dto meta user s
  ]

  pub verify_two_factor : ℕ → ℕ → ℕ → State db → Result ⊤ × State db
  verify_two_factor now id code = do
    found ← find_by_id_with_secrets library id
    encrypted ← or_throw found.two_factor_secret bad_request
    user ← check_lock now found
    secret ← λ s. (library.decrypt_secret encrypted, s)
    if library.verify_sync secret now code
        then pure tt
        else count_failure now user >> throw unauthorized
    reset_failed_login_attempts now user.id
    enable_two_factor user.id
    record_audit AuditAction.two_factor_enabled (some user.id)

  pub disable_two_factor_of : ℕ → ℕ → ℕ → State db → Result ⊤ × State db
  disable_two_factor_of now id password = do
    found ← find_by_id_with_secrets library id
    throw_if (not (found.two_factor_enabled && is_some found.two_factor_secret)) bad_request
    user ← check_lock now found
    if library.compare password user.password
        then pure tt
        else count_failure now user >> throw unauthorized
    reset_failed_login_attempts now user.id
    disable_two_factor user.id
    record_audit AuditAction.two_factor_disabled (some user.id)
