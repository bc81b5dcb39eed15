-- ===== src/Model.antt =====
-- The entities that the payment services share, and the state that they act on.
pub mod Entities
pub mod State
pub mod Tables
