-- ===== src/Accounts/StepUp/Laws.antt =====
-- What a step-up does to the accounts.
use facilpay_api.Common.{ℕ, ◌≡◌, refl, inl, inr, Option, none, some, arith, Option-cases}
use facilpay_api.Accounts.Entities.{User}
use facilpay_api.Accounts.State.{Accounts, State, Library}
use facilpay_api.Accounts.Users.{find_listed}
use facilpay_api.Accounts.StepUp.{
  StepUpDto, JwtService, check_step_up_password, check_totp, check_step_up_code, step_up_of,
}

module _ {db : Accounts} (library : Library) where
  check_step_up_password_same :
      (password : Option ℕ) (user : User) (s : State db)
      → (check_step_up_password library password user s).1 ≡ s
  unfolding check_step_up_password
  check_step_up_password_same none user s = refl
  check_step_up_password_same (some p) user s = refl

  check_step_up_code_same :
      (now : ℕ) (code : Option ℕ) (user : User) (s : State db)
      → (check_step_up_code library now code user s).1 ≡ s
  unfolding check_step_up_code check_totp
  check_step_up_code_same now none user s = refl
  check_step_up_code_same now (some code) user s = ground arith

  -- A step-up changes no table, whether the password and the code are right or wrong: a wrong
  -- password is not counted, and the lock of the account is not moved.
  step_up_of-tables :
      (jwt : JwtService) (now id : ℕ) (dto : StepUpDto) (s : State db)
      → (step_up_of library jwt now id dto s).1.tables ≡ s.tables
  unfolding step_up_of
  step_up_of-tables jwt now id dto s = elim (Option-cases (find_listed library id s.tables)) [
    | inl e ↦ ground (arith, e)
    | inr (user, e) ↦ ground (
      arith,
      e,
      check_step_up_password_same dto.password user s,
      check_step_up_code_same now dto.totp_code user s,
    )
  ]
