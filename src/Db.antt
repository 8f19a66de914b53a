-- ===== src/Db.antt =====
-- The crate aevum-db.
pub mod Bloom
