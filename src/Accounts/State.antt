-- ===== src/Accounts/State.antt =====
-- The tables of the accounts, what the services send, and what they use of code outside the
-- repository: bcrypt, otplib, the cipher of node's crypto, SHA-256 and TypeORM's treatment of null.
use facilpay_api.Common.{ℕ, Bool, Option, ◌||◌, is_some, not, [], ◌∷◌, ⊤}
use facilpay_api.Common.Action.{Result, ◌>>◌}
pub use facilpay_api.Common.Store.{Store, write, send, emit, transaction}
use facilpay_api.Repository.{Repository}
use facilpay_api.Accounts.Entities.{
  User, RefreshToken, PasswordResetToken, Session, PasswordHistory,
}

pub data AuditAction : Type 0 where
  login_failed login_success two_factor_enabled two_factor_disabled : AuditAction
  two_factor_setup_started : AuditAction
  password_reset_requested password_reset_completed step_up_confirmed : AuditAction
  user_deleted user_unlocked : AuditAction

pub data Mail : Type 0 where
  password_changed password_reset : Mail
  -- with the signed token
  verification : ℕ → Mail

pub data Event : Type 0 where
  -- an entry of the audit log: the action and the user, if one is known
  audit : AuditAction → Option ℕ → Event
  -- a mail and its address
  mail : Mail → ℕ → Event

pub record Accounts : Type 1 where
  pub users : Repository User (λ r. r.id)
  -- by the unique column `token`
  pub refresh_tokens : Repository RefreshToken (λ r. r.token)
  pub reset_tokens : Repository PasswordResetToken (λ r. r.id)
  pub sessions : Repository Session (λ r. r.id)
  pub password_history : Repository PasswordHistory (λ r. r.id)

module _ (db : Accounts) where
  pub record Tables : Type 0 where
    pub users : db.users.Table
    pub refresh_tokens : db.refresh_tokens.Table
    pub reset_tokens : db.reset_tokens.Table
    pub sessions : db.sessions.Table
    pub password_history : db.password_history.Table

abbrev pub State : Accounts → Type 0
State db = Store (Tables db) Event

pub record Library : Type 0 where
  -- `bcrypt.compare(text, hash)`
  pub compare : ℕ → ℕ → Bool
  -- `verifySync({ token, secret }).valid`, at a time
  pub verify_sync : ℕ → ℕ → ℕ → Bool
  -- `decryptTwoFactorSecret`, which rests on a cipher, and what it throws
  pub decrypt_secret : ℕ → Result ℕ
  -- `code.length === 6`
  pub has_six_codes : ℕ → Bool
  -- `email.trim().toLowerCase()`
  pub normalize_email : ℕ → ℕ
  pub sha256 : ℕ → ℕ
  -- whether `deletedAt: null` in a `where` is a condition; TypeORM leaves it out by default
  pub null_is_condition : Bool

-- `where: { deletedAt: null }`
abbrev pub is_listed : Library → User → Bool
is_listed library user = not library.null_is_condition || not (is_some user.deleted_at)

-- `auditLogsService.record`: a write to its own table
abbrev pub record_audit : {db : Accounts} → AuditAction → Option ℕ → State db → Result ⊤ × State db
record_audit action user = write (λ t. t) >> emit (audit action user ∷ [])
