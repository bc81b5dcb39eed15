-- ===== src/Accounts.antt =====
-- Accounts: users, their log-in, refresh tokens, sessions and passwords.
pub mod Entities
pub mod State
pub mod Users
pub mod Sessions
pub mod Tokens
pub mod Login
pub mod Passwords
pub mod StepUp
pub mod Profile
pub mod Registration
pub mod Roles
