-- ===== src/Accounts/Entities.antt =====
-- The entities of modules/users, modules/auth/entities and modules/sessions: rows of the tables.
-- Passwords, codes, secrets and tokens are numbers, as texts are.
use facilpay_api.Common.{ℕ, Bool, Option, List}

pub data UserRole : Type 0 where
  admin user : UserRole

pub record User : Type 0 where
  pub id : ℕ
  pub email : ℕ
  -- the hash
  pub password : ℕ
  pub name : Option ℕ
  pub roles : List UserRole
  pub role_id : Option ℕ
  pub is_email_verified : Bool
  pub is_active : Bool
  pub two_factor_secret : Option ℕ
  pub two_factor_enabled : Bool
  pub backup_codes : Option (List ℕ)
  pub deleted_at : Option ℕ
  pub failed_login_attempts : ℕ
  pub locked_until : Option ℕ
  pub rate_limit_enabled : Bool
  pub rate_limit_limit : Option ℕ
  pub rate_limit_ttl : Option ℕ
  pub created_at : ℕ
  pub updated_at : ℕ

pub record RefreshToken : Type 0 where
  pub id : ℕ
  -- the hash, a unique column
  pub token : ℕ
  pub user_id : ℕ
  pub session_id : Option ℕ
  pub expires_at : ℕ
  pub revoked : Bool
  pub created_at : ℕ

pub record PasswordResetToken : Type 0 where
  pub id : ℕ
  pub user_id : ℕ
  pub token_hash : ℕ
  pub expires_at : ℕ
  pub used : Bool
  pub created_at : ℕ

pub record Session : Type 0 where
  pub id : ℕ
  pub user_id : ℕ
  pub device_info : Option ℕ
  pub ip_address : Option ℕ
  pub user_agent : Option ℕ
  pub last_active_at : ℕ
  pub expires_at : ℕ
  pub revoked : Bool
  pub created_at : ℕ

pub record PasswordHistory : Type 0 where
  pub id : ℕ
  pub user_id : ℕ
  pub password_hash : ℕ
  pub created_at : ℕ
