-- ===== src/Lib.antt =====
-- A verification library for the node software of the Aevum chain: blocks and settlements, the L2
-- ledger, the trust model, the authentication of requests, the pool of transactions, the wire
-- formats, the Bloom filter of the database, and the registry and the table of peers.
--
-- The program and its parts. A node keeps a pool of transactions
-- (`crates/aevum-node/src/mempool.rs`) and builds blocks from it (`crates/aevum-core/src/block.rs`,
-- `transaction.rs`), which pay the rewards of `economics.rs` and start from the block of
-- `genesis.rs`. Epochs end in settlement blocks that a committee signs (`settlement.rs`). The
-- origin of the coins is tracked in ranges of satoshis (`dna_range.rs`), and the rewards of tasks
-- are held in escrow (`escrow.rs`). The L2 (`crates/aevum-l2/src`) keeps accounts beside the chain.
-- The blocks are applied one after another to the state of `chain_state.rs`, whose root is that of
-- `state_root.rs`. Delegates are chosen by the trust model (`crates/aevum-consensus/src/trust.rs`),
-- and requests to the API are authenticated by `crates/aevum-api/src/auth.rs`. Blocks are sent as
-- the messages of `wire.rs`, and the encodings that `wire_zero_copy.rs` documents are read in place,
-- by the peers that `crates/aevum-p2p/src/peers.rs`
-- registers and `dht.rs` finds; `crates/aevum-db/src/bloom.rs` tells which keys a file cannot hold.
--
-- Which file models which part:
--   Base.*            numbers, words, results, byte strings, maps and sets, and their lemmas
--   Crypto            blake3 and the keys, which come from elsewhere, as a parameter of the models
--   Core.Transaction  transaction.rs: constructors, `recompute_hash`, `verify_heartbeat`, coverage
--   Core.Economics    economics.rs: `block_reward`, `emitted`, `fee`, `create_coinbase`
--   Core.Merkle       the loop of the Merkle roots in block.rs, settlement.rs and state_root.rs
--   Core.Block        block.rs: `from_candidate`, `new`, `finalize_state`, `validate_internal`
--   Core.Genesis      genesis.rs: `finalize`, `verify_internal`
--   Core.Settlement   settlement.rs: `finalize`, `verify_internal`, the committee's signatures
--   Core.DnaRange     dna_range.rs: `split`, `bridge_to_l2`, `verify`, `id`, `hash`
--   Core.StateRoot    state_root.rs: `compute_state_root`, `compute_state_preview`
--   Core.ChainState   chain_state.rs: `apply_block_checked`, `apply_presence_record`, `finalize_up_to`
--   Core.Wire         wire_zero_copy.rs: the cursor, the views, the iterator and the fast checks;
--                     wire.rs: the messages and `wire_decode`
--   Core.Escrow       escrow.rs: `add_share`, `set_winner`, `distribute_reward`, `refund`
--   L2.Transaction    l2_transaction.rs: signing, validity, fees, `inherit_dna`
--   L2.State          l2_state.rs: `credit`, `build_context`, `process_transaction`
--   Consensus.Trust   trust.rs: `delegate`, `revoke`, `can_join`, `advance_epoch`, `quorum`
--   Api.Auth          auth.rs: `tick`, `verify`, the nonce queues
--   Node.Mempool      mempool.rs: `insert`, `build_block`, `remove_transactions`, `evict_stale`
--   Db.Bloom          bloom.rs: `add`, `may_contain`, `to_bytes`, `from_bytes`
--   P2p.Peers         peers.rs: the registry of peers, its counters, limits and reservations
--   P2p.Dht           dht.rs: the buckets of nodes, `add_or_update`, `cleanup`, `find_closest`
--   Tests.*           a toy digest and signature, and the theorems at concrete values
-- The modules below a part's own hold its theorems, and are named for what they prove.
--
-- How state and operations correspond. A struct is a record with the source's fields, an enum a data
-- type with its constructors, and a method a function that returns the new state beside its result.
-- Early returns are the calls of `fail_if` in a `do` block, or a chain of conditionals. A `u64` or
-- `usize` is a number below 2 ^ 64; saturating operations are written with `min` and the `-` of ℕ,
-- and the others wrap round where the source can reach the bound, as in a release build. An array of
-- 32 bytes is the number that it spells, so that `==` and `<` are those of the arrays. A `HashMap` or
-- `BTreeMap` is an association list, a `BTreeSet` an increasing list. The clock of the pool is an
-- argument. The lock of the pool makes each call one step, and so is each call of the registry of
-- peers taken, so that interleavings of threads are sequences of calls.
--
-- Assumptions. `Crypto` holds a digest of 32 bytes and a signature test, about which nothing else is
-- assumed: where a theorem says that a hash fixes what it covers, the other case is that the bytes
-- which are hashed for the two values in question (for a Merkle root, those of one node of the tree)
-- differ and have one digest. A `Keypair` is a key and a signing function whose signatures the test
-- accepts.
--
-- Loops and fuel. The Merkle loop has as much fuel as there are leaves, which is enough because each
-- level has at most half the nodes, rounded up. The loop of `build_block` has its fuel as an argument,
-- since it can run for ever; with fuel above the number of waiting references it ends wherever all of
-- them fit. The search of the table of nodes has fuel for 257 tests of its condition, gives none where
-- that is not enough, and needs at most one turn for each of the 256 buckets. A
-- parser of the wire formats takes a turn for each element that a count of 32 bits announces. All
-- other loops are recursion on a list or on a number of rounds.
--
-- Not modelled. The modules that the sources import but the repository does not hold (keys, JtUtxo,
-- ZkProof, TokenDNA, state_transition, emission) are parameters or opaque values. Serialization by
-- serde, locks, channels, asynchronous I/O, HTTP, logging and display texts are left out. So far
-- presence records, compute tasks, addresses, and the merging iterator, configuration and errors of
-- the database are not modelled.
pub mod Base
pub mod Crypto
pub mod Core
pub mod L2
pub mod Consensus
pub mod Api
pub mod Node
pub mod Db
pub mod P2p
mod Tests
