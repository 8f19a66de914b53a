-- ===== src/P2p.antt =====
-- The crate aevum-p2p.
pub mod Peers
pub mod Dht
