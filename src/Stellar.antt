-- ===== src/Stellar.antt =====
-- modules/stellar: payments that need several signatures, and the assets that a merchant accepts.
pub mod MultiSig
pub mod Assets
