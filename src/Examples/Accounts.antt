-- ===== src/Examples/Accounts.antt =====
-- The theorems on accounts at concrete tables.
use facilpay_api.Common.{
  ℕ, ◌+◌, ◌≤◌, ◌≡◌, refl, inl, inr, true, false, none, some, [], ◌∷◌, Bool-cases, arith, ◌==◌,
}
use facilpay_api.Common.Action.{ok, err, bad_request}
use facilpay_api.Repository.Rows.{rows}
use facilpay_api.Accounts.Entities.{UserRole, User, RefreshToken, PasswordResetToken}
use facilpay_api.Accounts.State.{Accounts, State, Library, Mail, mail}
use facilpay_api.Accounts.Sessions.{SessionMetadata, create_session}
use facilpay_api.Accounts.Tokens.{
  Fresh, refresh, token_transaction, check_token, rotate, continue_session, generate_refresh_token,
}
use facilpay_api.Accounts.Tokens.Laws.{IsRefused, refresh_twice}
use facilpay_api.Accounts.Users.{find_listed, find_by_email, update_password}
use facilpay_api.Accounts.Login.{Limits}
use facilpay_api.Accounts.Login.Lockout.{Try, count_answered, IsTarget, count_answered-bound}
use facilpay_api.Accounts.Profile.{CreateUserDto, new_user}
use facilpay_api.Accounts.Registration.{
  verification_claims, verification_token, register, verify_email_token,
}
use facilpay_api.Accounts.Registration.Laws.{verify_email_token-register}
use facilpay_api.Accounts.StepUp.{JwtService}
use facilpay_api.Accounts.Passwords.{
  Reset, ResetPasswordDto, reset_password, check_reset, store_password, finish_reset,
  validate_password_not_reused, record_password_change, clean_history,
}
use facilpay_api.Accounts.Passwords.Laws.{IsOwner, IsLoggedOut, reset_password_once}

abbrev accounts : Accounts
accounts = record {
  users = rows (λ r. r.id);
  refresh_tokens = rows (λ r. r.token);
  reset_tokens = rows (λ r. r.id);
  sessions = rows (λ r. r.id);
  password_history = rows (λ r. r.id);
}

abbrev pub library : Library
library = record {
  compare = λ password hash. password + 1 == hash;
  verify_sync = λ token secret at. token == secret;
  decrypt_secret = λ secret. ok secret;
  has_six_codes = λ code. true;
  normalize_email = λ email. email;
  sha256 = λ text. text + 1;
  null_is_condition = false;
}

abbrev pub user : User
user = record {
  id = 1;
  email = 20;
  password = 100;
  name = none;
  roles = UserRole.user ∷ [];
  role_id = none;
  is_email_verified = true;
  is_active = true;
  two_factor_secret = none;
  two_factor_enabled = false;
  backup_codes = none;
  deleted_at = none;
  failed_login_attempts = 3;
  locked_until = none;
  rate_limit_enabled = false;
  rate_limit_limit = none;
  rate_limit_ttl = none;
  created_at = 0;
  updated_at = 0;
}

abbrev token : RefreshToken
token = record {
  id = 2;
  token = 51;
  user_id = 1;
  session_id = none;
  expires_at = 9000;
  revoked = false;
  created_at = 0;
}

abbrev reset_token : PasswordResetToken
reset_token = record {
  id = 3;
  user_id = 1;
  token_hash = 61;
  expires_at = 9000;
  used = false;
  created_at = 0;
}

abbrev state : State accounts
state = record {
  tables = record {
    users = user ∷ [];
    refresh_tokens = token ∷ [];
    reset_tokens = reset_token ∷ [];
    sessions = [];
    password_history = [];
  };
  outbox = [];
  faults = [];
}

abbrev nowhere : SessionMetadata
nowhere = record { ip_address = none; user_agent = none }

abbrev fresh : Fresh
fresh = record { raw_token = 70; token_id = 4; session_id = 5 }

abbrev limits : Limits
limits = record { max_failed_attempts = 5; lock_duration_minutes = 15 }

abbrev guess : ℕ → Try
guess at = record {
  at = at;
  fresh = fresh;
  dto = record { email = 20; password = 7; two_factor_code = none };
  meta = nowhere;
}

only_user : (a : User) → accounts.users.find_one a.id (user ∷ []) ≡ some a → a.id ≡ 1
only_user a found = elim (Bool-cases (1 == a.id)) [
  | inl e ↦ ground (arith, e)
  | inr e ↦ ground (arith, e, found)
]

user-IsTarget : IsTarget {db = accounts} library limits 20 100 user state
user-IsTarget = (
  refl,
  refl,
  refl,
  refl,
  (λ a b at_a at_b x y. ground (arith, only_user a at_a, only_user b at_b)),
  refl,
)

count_answered-bound_example :
    count_answered {db = accounts} library limits (guess 10 ∷ guess 20 ∷ guess 30 ∷ []) state + 3
    ≤ 5
count_answered-bound_example =
    count_answered-bound {db = accounts} library limits 20 100 0 1000
      (guess 10 ∷ guess 20 ∷ guess 30 ∷ []) user state user-IsTarget refl (omega arith)
      (omega arith)
      (
        (refl, refl, omega arith, omega arith),
        ((refl, refl, omega arith, omega arith), ((refl, refl, omega arith, omega arith), tt)),
      )

refreshed : (refresh {db = accounts} library fresh 100 50 nowhere state).0 ≡ ok 70
unfolding refresh token_transaction check_token rotate continue_session generate_refresh_token
    find_listed create_session
refreshed = refl

refresh_twice_example :
    IsRefused library
      (refresh {db = accounts} library fresh 200 50 nowhere
        (refresh {db = accounts} library fresh 100 50 nowhere state).1)
      (refresh {db = accounts} library fresh 100 50 nowhere state).1
refresh_twice_example =
    refresh_twice {db = accounts} library fresh fresh 100 200 50 70 nowhere nowhere state
      (λ e. absurd (omega (arith, e))) refreshed

abbrev jwt : JwtService
jwt = record { sign = λ claims now ttl. claims.sub + now + ttl; verify = λ now token. none }

abbrev joining : CreateUserDto
joining = record { email = 30; password = 9 }

abbrev joined : User
joined = new_user library 8 100 77 joining

abbrev issuer : JwtService
issuer = record {
  sign = λ claims now ttl. claims.sub + now + ttl;
  verify = λ now token. some (verification_claims joined);
}

free_email : find_by_email {db = accounts} library 30 state.tables ≡ none
unfolding find_by_email
free_email = refl

verify_email_token-register_example :
    ((register {db = accounts} library issuer (λ password. ok 4) 8 100 77 joining state).0
      ≡ ok (joined, 4))
    × ((register {db = accounts} library issuer (λ password. ok 4) 8 100 77 joining state).1.outbox
        ≡ mail (Mail.verification (verification_token issuer 100 joined)) 30 ∷ [])
    × ((joined.is_email_verified ≡ false)
        × (accounts.users.find_one 8
              (verify_email_token {db = accounts} library issuer 200
                (verification_token issuer 100 joined)
                (register {db = accounts} library issuer
                  (λ password. ok 4)
                  8
                  100
                  77
                  joining
                  state).1).1.tables.users
            ≡ some (record joined { is_email_verified = true; updated_at = 200 })))
unfolding new_user
verify_email_token-register_example =
    verify_email_token-register {db = accounts} library issuer (λ password. ok 4) 8 100 77 200
      joining 4 state refl free_email refl refl

abbrev reset : Reset
reset = record {
  now = 100;
  hashed_password = 200;
  history_id = 6;
  validate_and_score = λ password. ok tt;
}

abbrev reset_dto : ResetPasswordDto
reset_dto = record { token = 60; email = 20; new_password = 199 }

reset_returns : (reset_password {db = accounts} library (λ l. l) reset reset_dto state).0 ≡ ok tt
unfolding reset_password check_reset store_password finish_reset find_listed update_password
    validate_password_not_reused record_password_change clean_history
reset_returns = refl

reset_password_once_example :
    let s' = (reset_password {db = accounts} library (λ l. l) reset reset_dto state).1 in
    ((u : User) × IsOwner {db = accounts} library (λ l. l) 100 reset_dto state.tables u
      × IsLoggedOut {db = accounts} library (λ l. l) u.id s'.tables)
    × ((reset' : Reset) (dto' : ResetPasswordDto)
        → dto'.token ≡ 60
        → reset_password library (λ l. l) reset' dto' s' ≡ (err bad_request, s'))
reset_password_once_example =
    reset_password_once {db = accounts} library (λ l. l) reset reset_dto tt state reset_returns
