-- ===== src/Consensus.antt =====
-- crates/aevum-consensus/src: the trust model of the delegates.
pub mod Trust
