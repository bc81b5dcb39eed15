-- ===== src/Settlements.antt =====
-- modules/settlements: what is paid out to merchants, where to, and what is held back.
pub mod Entities
pub mod State
pub mod Destinations
pub mod Run
pub mod Amounts
pub mod Reserve
pub mod Statement
pub mod Undated
pub mod Unreleased
pub mod Outcome
