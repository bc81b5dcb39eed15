-- ===== src/Merchants.antt =====
-- Merchants: the addresses from which a merchant's keys may be used, and those keys.
pub mod Geo
pub mod Ip
pub mod ApiKeys
pub mod Onboarding
pub mod Restrictions
pub mod Throttler
