-- ===== src/Accounts/Registration.antt =====
-- modules/auth/auth.service.ts: register, verifyEmail, resendVerificationEmail and enableTwoFactor. The
-- service of @nestjs/jwt is an argument, and so are the secret of otplib, its encrypted form, the random
-- codes with their hashes, the hash of the password and the score of its strength.
use facilpay_api.Common.{
  ℕ, ◌*◌, Bool, true, false, not, none, some, List, [], ◌∷◌, map, is_some, if◌then◌else◌, ⊤,
}
use facilpay_api.Common.Action.{Result, ok, unauthorized, ◌>>=◌, ◌>>◌, pure, or_throw, throw_if}
use facilpay_api.Accounts.Entities.{User}
use facilpay_api.Accounts.State.{
  Accounts, State, Library, AuditAction, record_audit, Mail, mail, emit,
}
use facilpay_api.Accounts.Users.{
  find_by_email, find_by_id_with_secrets, set_two_factor_secret, update_backup_codes, verify_email,
}
use facilpay_api.Accounts.Profile.{CreateUserDto, create}
use facilpay_api.Accounts.StepUp.{Purpose, Claims, JwtService}
pub mod Laws

abbrev pub one_day : ℕ
one_day = 24 * 60 * 60 * 1000

pub verification_claims : User → Claims
verification_claims user = record {
  sub = user.id;
  email = user.email;
  purpose = Purpose.email_verification;
  roles = none;
}

abbrev pub is_verification : Purpose → Bool
is_verification Purpose.email_verification = true
is_verification Purpose.step_up = false
is_verification Purpose.other_purpose = false

abbrev pub verification_token : JwtService → ℕ → User → ℕ
verification_token jwt now user = jwt.sign (verification_claims user) now one_day

module _ {db : Accounts} (library : Library) (jwt : JwtService) where
  -- The mail is sent with the signed token; a failure of it is only logged.
  pub register :
      (ℕ → Result ℕ) → ℕ → ℕ → ℕ → CreateUserDto → State db → Result (User × ℕ) × State db
  register validate_and_score new now hashed_password dto = do
    taken ← λ s. (ok (is_some (find_by_email library dto.email s.tables)), s)
    throw_if taken unauthorized
    score ← λ s. (validate_and_score dto.password, s)
    user ← create library new now hashed_password dto
    emit (mail (Mail.verification (verification_token jwt now user)) user.email ∷ [])
    pure (user, score)

  pub verify_email_token : ℕ → ℕ → State db → Result ⊤ × State db
  verify_email_token now token = do
    claims ← or_throw (jwt.verify now token) unauthorized
    throw_if (not (is_verification claims.purpose)) unauthorized
    verify_email library now claims.sub

  pub resend_verification_email : ℕ → ℕ → State db → Result ⊤ × State db
  resend_verification_email now email s = elim (find_by_email library email s.tables) [
    | none ↦ (ok tt, s)
    | some user ↦
        emit
          (if user.is_email_verified
            then []
            else mail (Mail.verification (verification_token jwt now user)) user.email ∷ [])
          s
  ]

module _ {db : Accounts} (library : Library) where
  -- The secret and the codes that are shown to the user. The secret in use is overwritten, also when
  -- two-factor log-in is enabled already.
  pub setup_two_factor : ℕ → ℕ → List (ℕ × ℕ) → ℕ → State db → Result (ℕ × List ℕ) × State db
  setup_two_factor secret encrypted codes id = do
    user ← find_by_id_with_secrets library id
    set_two_factor_secret encrypted user.id
    update_backup_codes (map (λ c. c.1) codes) user.id
    record_audit AuditAction.two_factor_setup_started (some user.id)
    pure (secret, map (λ c. c.0) codes)
