-- ===== src/Core/Settlement.antt =====
-- crates/aevum-core/src/settlement.rs: the settlement block of an epoch and the committee's votes.
pub mod Sealing
pub mod Votes
use aevum_public.Base.{
  ℕ, ◌+◌, ◌%◌, ◌^◌, Bool, true, false, not, ◌&&◌, ◌||◌, Option, none, some, List, [], ◌∷◌, ◌++◌,
  ltb, leb, ◌==◌, mem, length, if◌then◌else◌, wrapping_add,
}
use aevum_public.Base.Bytes.{codes, le_bytes, array_bytes, updates}
use aevum_public.Crypto.{Crypto}
use aevum_public.Core.Merkle
use aevum_public.Core.Genesis.{GenesisBlock}

pub record SettlementBlock : Type 0 where
  pub total_fees : ℕ
  pub total_rewards : ℕ
  pub version : ℕ
  pub chain_id : ℕ
  pub epoch_id : ℕ
  pub height : ℕ
  pub previous_settlement_hash : ℕ
  pub timestamp : ℕ
  pub epoch_duration_secs : ℕ
  pub epoch_start_time : ℕ
  pub epoch_end_time : ℕ
  pub presence_root : ℕ
  pub transaction_root : ℕ
  pub state_root : ℕ
  pub reward_root : ℕ
  pub participant_root : ℕ
  pub epoch_snapshot_root : ℕ
  pub presence_record_count : ℕ
  pub transaction_count : ℕ
  pub participant_count : ℕ
  pub epoch_root : ℕ
  pub epoch_commitment : ℕ
  pub total_supply : ℕ
  pub block_hash : ℕ
  pub committee_signatures : List (List ℕ)

-- The six data roots.
unfoldable pub roots : SettlementBlock → List ℕ
roots b =
    b.presence_root ∷ b.transaction_root ∷ b.state_root ∷ b.reward_root ∷ b.participant_root
    ∷ b.epoch_snapshot_root ∷ []

unfoldable pub commitment_bytes : SettlementBlock → List ℕ
commitment_bytes b = updates (
    codes "AEVUM_EPOCH_COMMITMENT_V1"
    ∷ le_bytes 8 b.epoch_id
    ∷ array_bytes b.epoch_root
    ∷ le_bytes 8 b.presence_record_count
    ∷ le_bytes 8 b.transaction_count
    ∷ le_bytes 8 b.participant_count
    ∷ le_bytes 8 b.total_fees
    ∷ le_bytes 8 b.total_rewards
    ∷ le_bytes 8 b.total_supply
    ∷ [])

unfoldable pub settlement_bytes : SettlementBlock → List ℕ
settlement_bytes b = updates (
    codes "AEVUM_SETTLEMENT_V2"
    ∷ le_bytes 4 b.version
    ∷ le_bytes 4 b.chain_id
    ∷ le_bytes 8 b.epoch_id
    ∷ le_bytes 8 b.height
    ∷ array_bytes b.previous_settlement_hash
    ∷ le_bytes 8 b.timestamp
    ∷ le_bytes 8 b.epoch_duration_secs
    ∷ le_bytes 8 b.epoch_start_time
    ∷ le_bytes 8 b.epoch_end_time
    ∷ array_bytes b.epoch_commitment
    ∷ [])

unfoldable pub signing_message : SettlementBlock → List ℕ
signing_message b = array_bytes b.epoch_commitment ++ array_bytes b.block_hash

unfoldable pub verify_chain : SettlementBlock → SettlementBlock → Bool
verify_chain b prev =
    b.previous_settlement_hash == prev.block_hash
    && (b.epoch_id == wrapping_add prev.epoch_id 1
        && (b.height == wrapping_add prev.height 1
            && (b.chain_id == prev.chain_id && b.version == prev.version)))

unfoldable pub verify_genesis_link : SettlementBlock → GenesisBlock → Bool
verify_genesis_link b genesis =
    b.epoch_id == 0
    && (b.height == 1
        && (b.previous_settlement_hash == genesis.block_hash && b.chain_id == genesis.chain_id))

-- The keys that have voted, and their count.
pub record Ballot : Type 0 where
  pub valid : ℕ
  pub used : List ℕ

module _ (c : Crypto) where
  unfoldable pub compute_merkle_root : List ℕ → ℕ
  compute_merkle_root items = Merkle.merkle_root c (codes "AEVUM_MERKLE_V1") items

  unfoldable pub compute_epoch_root : SettlementBlock → ℕ
  compute_epoch_root b = compute_merkle_root (roots b)

  unfoldable pub compute_commitment : SettlementBlock → ℕ
  compute_commitment b = c.digest (commitment_bytes b)

  unfoldable pub compute_hash : SettlementBlock → ℕ
  compute_hash b = c.digest (settlement_bytes b)

  -- Each of the three assignments reads what the one before it wrote.
  unfoldable pub finalize : SettlementBlock → SettlementBlock
  finalize b =
      let b1 : SettlementBlock = record b { epoch_root = compute_epoch_root b } in
      let b2 : SettlementBlock = record b1 { epoch_commitment = compute_commitment b1 } in
      record b2 { block_hash = compute_hash b2 }

  unfoldable pub verify_internal : SettlementBlock → Bool
  verify_internal b =
      b.block_hash == compute_hash b
      && (b.epoch_root == compute_epoch_root b && b.epoch_commitment == compute_commitment b)

  -- The inner loop: the first unused committee key that verifies the signature.
  unfoldable pub find_signer : List ℕ → List ℕ → List ℕ → List ℕ → Option ℕ
  find_signer message used signature [] = none
  find_signer message used signature (pk ∷ pks) =
      if not (mem pk used) && (c.is_key pk && c.verify pk message signature)
      then some pk
      else find_signer message used signature pks

  unfoldable pub vote : List ℕ → List ℕ → Ballot → List ℕ → Ballot
  vote message pks b signature = elim (find_signer message b.used signature pks) [
    | none ↦ b
    | some pk ↦ record { valid = b.valid + 1; used = pk ∷ b.used }
  ]

  -- The outer loop, which stops at the threshold.
  unfoldable pub count_votes : List ℕ → List ℕ → ℕ → Ballot → List (List ℕ) → Ballot
  count_votes message pks threshold b [] = b
  count_votes message pks threshold b (signature ∷ signatures) =
      if leb threshold b.valid
      then b
      else count_votes message pks threshold (vote message pks b signature) signatures

  unfoldable pub verify_committee_signatures : SettlementBlock → List ℕ → ℕ → Bool
  verify_committee_signatures b pks threshold =
      if threshold == 0 || ltb (length pks) threshold
      then false
      else if ltb (length pks) (length b.committee_signatures)
      then false
      else leb threshold
          (count_votes (signing_message b) pks threshold (record { valid = 0; used = [] })
            b.committee_signatures).valid

  unfoldable pub verify_full :
      SettlementBlock → Option SettlementBlock → Option GenesisBlock → List ℕ → ℕ → Bool
  verify_full b (some prev) genesis pks threshold =
      verify_internal b && (verify_chain b prev && verify_committee_signatures b pks threshold)
  verify_full b none (some genesis) pks threshold =
      verify_internal b
      && (verify_genesis_link b genesis && verify_committee_signatures b pks threshold)
  verify_full b none none pks threshold = false
