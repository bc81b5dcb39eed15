-- ===== src/Accounts/StepUp.antt =====
-- modules/auth/auth.service.ts: stepUp, validateStepUpToken and regenerateBackupCodes. The service of
-- @nestjs/jwt is an argument, and so are the random codes with their hashes. A field that is missing
-- or the empty text is `none`.
use facilpay_api.Common.{
  ℕ, ◌+◌, ◌*◌, ◌≡◌, refl, inl, inr, Bool, true, not, ◌&&◌, ◌||◌, Option, none, some, List, ◌==◌,
  map, if◌then◌else◌, is_some, ⊤, arith, Option-cases, Bool-cases,
}
use facilpay_api.Common.Action.{
  Result, ok, err, not_found, bad_request, unauthorized, ◌>>=◌, ◌>>◌, pure, throw, or_throw,
  throw_if,
}
use facilpay_api.Accounts.Entities.{UserRole, User}
use facilpay_api.Accounts.State.{
  Accounts, Tables, State, Library, AuditAction, record_audit, transaction,
}
use facilpay_api.Accounts.Users.{find_by_id_with_secrets, find_user, save_user}
pub mod Laws

pub record StepUpDto : Type 0 where
  pub password : Option ℕ
  pub totp_code : Option ℕ

pub record RegenerateBackupCodesDto : Type 0 where
  pub password : Option ℕ
  pub two_factor_code : Option ℕ

pub data Purpose : Type 0 where
  step_up email_verification other_purpose : Purpose

abbrev pub is_step_up : Purpose → Bool
is_step_up step_up = true
is_step_up email_verification = mathlib.Core.Bool.false
is_step_up other_purpose = mathlib.Core.Bool.false

pub record Claims : Type 0 where
  pub sub : ℕ
  pub email : ℕ
  pub purpose : Purpose
  pub roles : Option (List UserRole)

pub record JwtService : Type 0 where
  -- `sign`, at a time and with a time to live
  pub sign : Claims → ℕ → ℕ → ℕ
  -- `verify`, at a time; `none` when it throws
  pub verify : ℕ → ℕ → Option Claims

pub record StepUpConfirmationDto : Type 0 where
  pub step_up_token : ℕ
  pub expires_at : ℕ

pub step_up_claims : User → Claims
step_up_claims user = record {
  sub = user.id;
  email = user.email;
  purpose = step_up;
  roles = some user.roles;
}

abbrev pub five_minutes : ℕ
five_minutes = 5 * 60 * 1000

module _ {db : Accounts} (library : Library) where
  pub check_step_up_password : Option ℕ → User → State db → Result ⊤ × State db
  check_step_up_password none user = pure tt
  check_step_up_password (some password) user =
      throw_if (not (library.compare password user.password)) unauthorized

  pub check_totp : ℕ → ℕ → ℕ → State db → Result ⊤ × State db
  check_totp now encrypted code = do
    secret ← λ s. (library.decrypt_secret encrypted, s)
    throw_if (not (library.verify_sync secret now code)) unauthorized

  pub check_step_up_code : ℕ → Option ℕ → User → State db → Result ⊤ × State db
  check_step_up_code now none user = pure tt
  check_step_up_code now (some code) user = do
    throw_if (not user.two_factor_enabled) bad_request
    encrypted ← or_throw user.two_factor_secret bad_request
    check_totp now encrypted code

  pub check_given_totp : ℕ → ℕ → Option ℕ → State db → Result ⊤ × State db
  check_given_totp now encrypted none = pure tt
  check_given_totp now encrypted (some code) = check_totp now encrypted code

  pub step_up_of :
      JwtService → ℕ → ℕ → StepUpDto → State db → Result StepUpConfirmationDto × State db
  step_up_of jwt now id dto = do
    user ← find_by_id_with_secrets library id
    throw_if (not (is_some dto.password || is_some dto.totp_code)) bad_request
    check_step_up_password dto.password user
    check_step_up_code now dto.totp_code user
    record_audit AuditAction.step_up_confirmed (some user.id)
    pure (record {
      step_up_token = jwt.sign (step_up_claims user) now five_minutes;
      expires_at = now + five_minutes;
    })

  -- The codes are what is shown to the user, with their hashes.
  pub regenerate_backup_codes :
      List (ℕ × ℕ) → ℕ → ℕ → RegenerateBackupCodesDto → State db → Result (List ℕ) × State db
  regenerate_backup_codes codes now id dto = transaction (do
    user ← find_user id
    throw_if (not user.two_factor_enabled) bad_request
    encrypted ← or_throw user.two_factor_secret bad_request
    throw_if (not (is_some dto.password || is_some dto.two_factor_code)) bad_request
    check_step_up_password dto.password user
    check_given_totp now encrypted dto.two_factor_code
    save_user (record user { backup_codes = some (map (λ c. c.1) codes) })
    pure (map (λ c. c.0) codes))

pub validate_step_up_token : JwtService → ℕ → ℕ → ℕ → Result ⊤
validate_step_up_token jwt now token user_id = elim (jwt.verify now token) [
  | none ↦ err unauthorized
  | some claims ↦
      if (claims.sub == user_id) && is_step_up claims.purpose then ok tt else err unauthorized
]
