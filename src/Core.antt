-- ===== src/Core.antt =====
-- The crate aevum-core.
pub mod Transaction
pub mod Economics
pub mod Merkle
pub mod Block
pub mod Genesis
pub mod Settlement
pub mod DnaRange
pub mod Escrow
pub mod Wire
pub mod StateRoot
pub mod ChainState
