-- ===== src/L2.antt =====
-- The crate aevum-l2.
pub mod Transaction
pub mod State
