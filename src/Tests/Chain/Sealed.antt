-- ===== src/Tests/Chain/Sealed.antt =====
-- Hashes, blocks, heartbeats at concrete values.
use aevum_public.Base.{
  ℕ, ◌≤◌, ◌<◌, ◌≡◌, refl, ◌≢◌, ◌↔◌, ◌⊎◌, true, List, [], ◌∷◌, arith, length, ok, none, All,
}
use aevum_public.Base.Bytes.{le_bytes, array_bytes, to_array, from_le_bytes}
use aevum_public.Crypto.{Clash, Clashes}
use aevum_public.Core.Merkle.{node, next_level, climb, merkle_root, climb-ends}
use aevum_public.Core.Merkle.Binding.{merkle_root-binds, tree_inputs}
use aevum_public.Core.Transaction.{
  Transaction, input_bytes, output_bytes, witness_bytes, tx_bytes, recompute_hash, new_heartbeat,
  new_coinbase, new_transaction, new_raw, new_coinbase_output, compute_hash as hash_tx,
  is_heartbeat, is_coinbase, check_witnesses, witness_id, witness_time, verify_heartbeat,
  heartbeat_coverage_bps,
}
use aevum_public.Core.Transaction.Heartbeat.{IsLive, verify_heartbeat-IsLive}
use aevum_public.Core.Transaction.Binding.{IsTransaction, SameHashed, recompute_hash-binds}
use aevum_public.Core.Block.{
  Block, BlockCandidate, StatePreview, block_bytes, checkpoint_bytes, compute_hash,
  compute_transactions_root, seal, from_candidate, new_block, size_of, check_inputs, check_standard,
  check_tx, check_txs, is_genesis, validate_internal,
}
use aevum_public.Core.Block.Hashing.{IsHeader, SameHeader, block_compute_hash-binds}
use aevum_public.Core.Wire.Messages.{
  decode_type, decode_input, decode_output, decode_tx, decode_block, wire_version,
  max_wire_block_size,
}
use aevum_public.Core.Wire.Decoding.{
  input_wire, output_wire, tx_wire, block_wire, IsSendable, IsDecoded, decode_block-block_wire,
  decode_block-ok, decode_block-unread,
}
use aevum_public.Core.Block.Validation.{IsWellFormed, validate_internal-IsWellFormed}
use aevum_public.Tests.Values.{toy, payment, reward, beat, block_seven}

program : Unit {0}
unfolding le_bytes array_bytes to_array from_le_bytes node next_level climb merkle_root input_bytes
    output_bytes witness_bytes tx_bytes recompute_hash new_heartbeat new_coinbase new_transaction
    new_raw new_coinbase_output hash_tx is_heartbeat is_coinbase check_witnesses witness_id
    witness_time verify_heartbeat heartbeat_coverage_bps block_bytes checkpoint_bytes compute_hash
    compute_transactions_root seal from_candidate new_block size_of check_inputs check_standard
    check_tx check_txs is_genesis validate_internal block_wire decode_block tx_wire input_wire
    output_wire decode_tx decode_type decode_input decode_output
program = tt

climb-ends_example : climb toy [] 3 (4 ∷ 5 ∷ 6 ∷ []) ≡ merkle_root toy [] (4 ∷ 5 ∷ 6 ∷ []) ∷ []
climb-ends_example = climb-ends toy [] 4 (5 ∷ 6 ∷ [])

abbrev leaves : List ℕ
leaves = 4 ∷ 5 ∷ 6 ∷ []

merkle_root-binds_example :
    (leaves ≡ leaves) ⊎ Clashes toy (tree_inputs toy [] leaves) (tree_inputs toy [] leaves)
merkle_root-binds_example =
    merkle_root-binds toy [] leaves leaves refl (omega arith, (omega arith, (omega arith, tt)))
      (omega arith, (omega arith, (omega arith, tt))) refl

valid_seven : validate_internal toy block_seven ≡ ok tt
unfolding program
valid_seven = refl

validate_internal-IsWellFormed_example : IsWellFormed toy block_seven
validate_internal-IsWellFormed_example = validate_internal-IsWellFormed toy block_seven valid_seven

block_seven-IsHeader : IsHeader block_seven
unfolding program
block_seven-IsHeader = record {
  height = omega arith;
  prev_hash = omega arith;
  poh_tick_start = omega arith;
  poh_tick_end = omega arith;
  transactions_root = omega arith;
  state_root = omega arith;
  total_supply = omega arith;
  settlement_checkpoint = tt;
}

abbrev smaller : Block
smaller = record block_seven { block_size = 1 }

smaller-IsHeader : IsHeader smaller
unfolding program
smaller-IsHeader = record {
  height = omega arith;
  prev_hash = omega arith;
  poh_tick_start = omega arith;
  poh_tick_end = omega arith;
  transactions_root = omega arith;
  state_root = omega arith;
  total_supply = omega arith;
  settlement_checkpoint = tt;
}

same_hash : compute_hash toy smaller ≡ compute_hash toy block_seven
unfolding compute_hash block_bytes
same_hash = refl

block_compute_hash-binds_example :
    SameHeader smaller block_seven ⊎ Clash toy (block_bytes smaller) (block_bytes block_seven)
block_compute_hash-binds_example =
    block_compute_hash-binds toy smaller block_seven smaller-IsHeader block_seven-IsHeader same_hash

abbrev renumbered : Transaction
renumbered = record payment { tx_hash = 0 }

ranged : IsTransaction payment
unfolding program
ranged = record {
  version = omega arith;
  chain_id = omega arith;
  inputs = (
    record {
      tx_hash = omega arith;
      output_index = omega arith;
      nullifier = omega arith;
      public_key = omega arith;
      signed_hash = omega arith;
      nonce = omega arith;
    },
    tt,
  );
  few_inputs = omega arith;
  outputs = (
    record {
      amount = omega arith;
      owner = omega arith;
      amount_commitment = omega arith;
      tag_commitment = omega arith;
      nullifier = omega arith;
      serial = omega arith;
      restriction_level = omega arith;
      output_index = omega arith;
      taint_distance = omega arith;
      taint_origin = omega arith;
      taint_timestamp = omega arith;
    },
    tt,
  );
  few_outputs = omega arith;
  fee = omega arith;
  poh_tick = omega arith;
  locktime = omega arith;
  short_witnesses = tt;
  few_witnesses = omega arith;
}

ranged_renumbered : IsTransaction renumbered
ranged_renumbered = record {
  version = ranged.version;
  chain_id = ranged.chain_id;
  inputs = ranged.inputs;
  few_inputs = ranged.few_inputs;
  outputs = ranged.outputs;
  few_outputs = ranged.few_outputs;
  fee = ranged.fee;
  poh_tick = ranged.poh_tick;
  locktime = ranged.locktime;
  short_witnesses = ranged.short_witnesses;
  few_witnesses = ranged.few_witnesses;
}

same_tx_hash : recompute_hash toy renumbered ≡ recompute_hash toy payment
unfolding recompute_hash tx_bytes
same_tx_hash = refl

recompute_hash-binds_example :
    SameHashed renumbered payment ⊎ Clash toy (tx_bytes renumbered) (tx_bytes payment)
recompute_hash-binds_example =
    recompute_hash-binds toy renumbered payment ranged_renumbered ranged same_tx_hash

verify_heartbeat-IsLive_example : (verify_heartbeat beat 150 ≡ ok tt) ↔ IsLive 150 beat
verify_heartbeat-IsLive_example = verify_heartbeat-IsLive beat 150

beat_verifies : verify_heartbeat beat 150 ≡ ok tt
unfolding program
beat_verifies = refl

few_witnesses : length beat.heartbeat_witnesses ≤ 4
unfolding program
few_witnesses = omega arith

abbrev candidate : BlockCandidate
candidate = record {
  prev_hash = 13;
  height = 7;
  poh_tick_start = 0;
  poh_tick_end = 10;
  transactions = beat ∷ reward ∷ payment ∷ [];
  is_presence_block = true;
  settlement_checkpoint = none;
}

abbrev preview : StatePreview
preview = record { state_root = 17; new_total_supply = 1000 }

-- Proofs whose data is one byte.
abbrev data_of : ℕ → List ℕ
data_of n = n ∷ []

abbrev proof_of : List ℕ → ℕ
proof_of [] = 0
proof_of (n ∷ ns) = n

-- The block without its payment, whose hash was taken at another tick.
abbrev sent_candidate : BlockCandidate
sent_candidate = record candidate { transactions = beat ∷ reward ∷ [] }

abbrev sent_block : Block
sent_block = new_block toy 13 7 0 10 (beat ∷ reward ∷ []) 17 1000

sent_built : from_candidate toy sent_candidate preview ≡ ok sent_block
unfolding program
sent_built = refl

all-IsSendable : All (IsSendable toy proof_of data_of) sent_block.transactions
unfolding program
all-IsSendable = (
  record { keys = tt; outputs = tt; hashed = refl },
  (record { keys = tt; outputs = ((refl, refl, refl), tt); hashed = refl }, tt),
)

fits : sent_block.block_size ≤ max_wire_block_size
unfolding program
fits = omega arith

decode_block-block_wire_example :
    decode_block toy proof_of (block_wire data_of sent_block) ≡ ok sent_block
decode_block-block_wire_example =
    decode_block-block_wire toy proof_of data_of sent_candidate preview sent_block sent_built
      all-IsSendable fits

decode_block-ok_example :
    let w = block_wire data_of sent_block in
    (w.version ≡ wire_version)
    × (w.block_size ≤ max_wire_block_size)
    × (sent_block.block_hash ≡ w.block_hash)
    × (sent_block.block_hash ≡ compute_hash toy sent_block)
    × (sent_block.height ≡ w.height)
    × (sent_block.state_root ≡ w.state_root)
    × (sent_block.total_supply ≡ w.total_supply)
    × (0 < sent_block.height → (sent_block.state_root ≢ 0) × (sent_block.total_supply ≢ 0))
    × All (IsDecoded toy proof_of) sent_block.transactions
decode_block-ok_example = decode_block-ok toy proof_of (block_wire data_of sent_block) sent_block (
    decode_block-block_wire toy proof_of data_of sent_candidate preview sent_block sent_built
      all-IsSendable fits)

wire_fits : (block_wire data_of sent_block).block_size ≤ max_wire_block_size
unfolding program
wire_fits = omega arith

decode_block-unread_example :
    let w = block_wire data_of sent_block in
    decode_block toy proof_of (record w { block_size = 0; transactions_root = 1 })
    ≡ decode_block toy proof_of w
decode_block-unread_example =
    decode_block-unread toy proof_of (block_wire data_of sent_block) 0 1 wire_fits (omega arith)
