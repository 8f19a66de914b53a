-- ===== src/Node.antt =====
-- crates/aevum-node/src: the pool of transactions that wait for a block.
pub mod Mempool
