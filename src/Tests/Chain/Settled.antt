-- ===== src/Tests/Chain/Settled.antt =====
-- Genesis and settlement blocks at concrete values.
use aevum_public.Base.{
  ℕ, ◌≤◌, ◌<◌, ◌≡◌, refl, ◌⊎◌, true, List, [], ◌∷◌, arith, length, mem, IsDistinct,
}
use aevum_public.Base.Bytes.{le_bytes, array_bytes, to_array, from_le_bytes}
use aevum_public.Crypto.{Clashes}
use aevum_public.Core.Merkle.{node, next_level, climb, merkle_root}
use aevum_public.Core.Transaction.{
  input_bytes, output_bytes, witness_bytes, tx_bytes, recompute_hash, new_heartbeat, new_coinbase,
  new_transaction, new_raw, new_coinbase_output, compute_hash as hash_tx, is_heartbeat, is_coinbase,
  check_witnesses, witness_id, witness_time, verify_heartbeat, heartbeat_coverage_bps,
}
use aevum_public.Core.Block.{
  block_bytes, checkpoint_bytes, compute_hash, compute_transactions_root, seal, from_candidate,
  new_block, size_of, check_inputs, check_standard, check_tx, check_txs, is_genesis,
  validate_internal,
}
use aevum_public.Core.Settlement.{
  SettlementBlock, roots, commitment_bytes, settlement_bytes, signing_message, find_signer, vote,
  count_votes, verify_committee_signatures, compute_commitment, compute_epoch_root,
  compute_merkle_root,
}
use aevum_public.Core.Settlement as SettlementCode
use aevum_public.Core.Settlement.Sealing.{
  IsSettlement, SameEpoch, verify_internal-binds, settlement_inputs,
}
use aevum_public.Core.Settlement.Votes.{Signed, verify_committee-quorum}
use aevum_public.Tests.Values.{toy, epoch, signed_epoch}

program : Unit {0}
unfolding le_bytes array_bytes to_array from_le_bytes node next_level climb merkle_root input_bytes
    output_bytes witness_bytes tx_bytes recompute_hash new_heartbeat new_coinbase new_transaction
    new_raw new_coinbase_output hash_tx is_heartbeat is_coinbase check_witnesses witness_id
    witness_time verify_heartbeat heartbeat_coverage_bps block_bytes checkpoint_bytes compute_hash
    compute_transactions_root seal from_candidate new_block size_of check_inputs check_standard
    check_tx check_txs is_genesis validate_internal
program = tt

settled : Unit {0}
unfolding program roots commitment_bytes settlement_bytes signing_message find_signer vote
    count_votes verify_committee_signatures compute_commitment compute_epoch_root
    compute_merkle_root SettlementCode.compute_hash SettlementCode.finalize
    SettlementCode.verify_internal
settled = tt

epoch_ranged : IsSettlement epoch
unfolding settled
epoch_ranged = record {
  total_fees = omega arith;
  total_rewards = omega arith;
  version = omega arith;
  chain_id = omega arith;
  epoch_id = omega arith;
  height = omega arith;
  previous_settlement_hash = omega arith;
  timestamp = omega arith;
  epoch_duration_secs = omega arith;
  epoch_start_time = omega arith;
  epoch_end_time = omega arith;
  data_roots =
      (omega arith, (omega arith, (omega arith, (omega arith, (omega arith, (omega arith, tt))))));
  presence_record_count = omega arith;
  transaction_count = omega arith;
  participant_count = omega arith;
  epoch_root = omega arith;
  epoch_commitment = omega arith;
  total_supply = omega arith;
}

epoch_verifies : SettlementCode.verify_internal toy epoch ≡ true
unfolding settled
epoch_verifies = refl

verify_internal-binds_example :
    SameEpoch epoch epoch ⊎ Clashes toy (settlement_inputs toy epoch) (settlement_inputs toy epoch)
verify_internal-binds_example =
    verify_internal-binds toy epoch epoch epoch_ranged epoch_ranged epoch_verifies epoch_verifies
      refl

votes_counted : verify_committee_signatures toy signed_epoch (21 ∷ 22 ∷ 23 ∷ []) 2 ≡ true
unfolding settled
votes_counted = refl

verify_committee-quorum_example :
    (0 < 2)
    × (2 ≤ 3)
    × ((signers : List ℕ) × IsDistinct signers
        × (2 ≤ length signers)
        × ((pk : ℕ)
            → mem pk signers ≡ true
            → (mem pk (21 ∷ 22 ∷ 23 ∷ []) ≡ true)
              × Signed toy (signing_message signed_epoch) signed_epoch.committee_signatures pk))
verify_committee-quorum_example =
    verify_committee-quorum toy signed_epoch (21 ∷ 22 ∷ 23 ∷ []) 2 votes_counted
