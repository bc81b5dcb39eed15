-- ===== src/Accounts/Registration/Laws.antt =====
-- From the registration to the verified email.
use facilpay_api.Common.{ℕ, ◌≡◌, refl, ◌∙◌, ap, true, false, none, some, [], ◌∷◌, ◌++◌, arith}
use facilpay_api.Common.Action.{Result, ok}
use facilpay_api.Repository.{find_one-saved}
use facilpay_api.Accounts.Entities.{User}
use facilpay_api.Accounts.State.{Accounts, State, Library, is_listed, Mail, mail}
use facilpay_api.Accounts.Users.{find_by_email, find_listed, verify_email}
use facilpay_api.Accounts.Profile.{CreateUserDto, new_user, create}
use facilpay_api.Accounts.StepUp.{JwtService}
use facilpay_api.Accounts.Registration.{
  verification_claims, verification_token, register, verify_email_token,
}

module _ {db : Accounts} (library : Library) (jwt : JwtService) where
  -- The user that a registration stores, and the tables after it.
  pub register-stored :
      (validate_and_score : ℕ → Result ℕ) (new now hash : ℕ) (dto : CreateUserDto) (score : ℕ)
      (s : State db)
      → s.faults ≡ []
      → find_by_email library dto.email s.tables ≡ none
      → validate_and_score dto.password ≡ ok score
      → ((register library jwt validate_and_score new now hash dto s).0
          ≡ ok (new_user library new now hash dto, score))
        × (((register library jwt validate_and_score new now hash dto s).1.tables.users
              ≡ db.users.save (new_user library new now hash dto) s.tables.users)
            × ((register library jwt validate_and_score new now hash dto s).1.faults ≡ [])
            × ((register library jwt validate_and_score new now hash dto s).1.outbox
                ≡ s.outbox
                  ++ (mail
                        (Mail.verification
                          (verification_token jwt now (new_user library new now hash dto)))
                        (new_user library new now hash dto).email
                      ∷ [])))
  unfolding register create
  register-stored validate_and_score new now hash dto score s calm free strong =
      ground (arith, calm, free, strong)

  verify_email_token-stored :
      (now token : ℕ) (user : User) (s : State db)
      → s.faults ≡ []
      → jwt.verify now token ≡ some (verification_claims user)
      → db.users.find_one user.id s.tables.users ≡ some user
      → is_listed library user ≡ true
      → ((verify_email_token library jwt now token s).0 ≡ ok tt)
        × (db.users.find_one user.id (verify_email_token library jwt now token s).1.tables.users
            ≡ some (record user { is_email_verified = true; updated_at = now }))
  unfolding verify_email_token verify_email find_listed verification_claims
  verify_email_token-stored now token user s calm signed here listed =
      let saved =
        find_one-saved db.users (record user { is_email_verified = true; updated_at = now })
          s.tables.users in
      ground (arith, calm, signed, here, listed, saved)

  -- When no write fails, the email is free and the password is strong enough, a registration answers
  -- with a new user whose email is not verified, and sends one mail, to that email, with a token; and
  -- when the token library gives the claims of the mailed token back, presenting that token stores the
  -- user with the email verified.
  pub verify_email_token-register :
      (validate_and_score : ℕ → Result ℕ) (new now hash later : ℕ) (dto : CreateUserDto) (score : ℕ)
      (s : State db)
      → s.faults ≡ []
      → find_by_email library dto.email s.tables ≡ none
      → validate_and_score dto.password ≡ ok score
      → jwt.verify later (verification_token jwt now (new_user library new now hash dto))
        ≡ some (verification_claims (new_user library new now hash dto))
      → ((register library jwt validate_and_score new now hash dto s).0
          ≡ ok (new_user library new now hash dto, score))
        × ((register library jwt validate_and_score new now hash dto s).1.outbox
            ≡ s.outbox
              ++ (mail
                    (Mail.verification
                      (verification_token jwt now (new_user library new now hash dto)))
                    (new_user library new now hash dto).email
                  ∷ []))
        × (((new_user library new now hash dto).is_email_verified ≡ false)
            × (db.users.find_one new
                  (verify_email_token library jwt later
                    (verification_token jwt now (new_user library new now hash dto))
                    (register library jwt validate_and_score new now hash dto s).1).1.tables.users
                ≡ some (record (new_user library new now hash dto) {
                  is_email_verified = true;
                  updated_at = later;
                })))
  unfolding new_user
  verify_email_token-register validate_and_score new now hash later dto score s calm free strong
        signed =
      let user = new_user library new now hash dto in
      let after = (register library jwt validate_and_score new now hash dto s).1 in
      let (answer, (saved, still, sent)) =
        register-stored validate_and_score new now hash dto score s calm free strong in
      (
        answer,
        sent,
        (
          refl,
          (verify_email_token-stored later (verification_token jwt now user) user after still signed
              (ap (db.users.find_one new) saved ∙ find_one-saved db.users user s.tables.users)
              (ground arith)).1,
        ),
      )
