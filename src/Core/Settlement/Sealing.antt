-- ===== src/Core/Settlement/Sealing.antt =====
-- The hashes of a settlement block: finalizing, verifying, and what the block hash commits to.
use aevum_public.Base.{
  ℕ, List, ◌∷◌, ◌≡◌, refl, sym, ◌∙◌, ◌⊎◌, inl, inr, true, arith, ==_refl, length, All, IsU64, IsU32,
  IsWord32,
}
use aevum_public.Base.Bytes.{codes, append_inj, u32_field, u64_field, array_field}
use aevum_public.Crypto.{Crypto, Clashes, here, there, digest_binds}
use aevum_public.Core.Merkle.Binding.{merkle_root-binds, tree_inputs}
use aevum_public.Core.Settlement.{
  SettlementBlock, roots, commitment_bytes, settlement_bytes, compute_merkle_root,
  compute_epoch_root, compute_commitment, compute_hash, finalize, verify_internal,
}

-- `finalize` makes any settlement block pass `verify_internal`: the three hashes are written in the
-- order in which they depend on one another.
pub verify_internal-finalize :
    (c : Crypto) (b : SettlementBlock) → verify_internal c (finalize c b) ≡ true
unfolding verify_internal finalize compute_epoch_root compute_commitment compute_hash roots
    commitment_bytes settlement_bytes
verify_internal-finalize c b = simp ==_refl

pub record IsSettlement (b : SettlementBlock) : Type 0 where
  pub total_fees : IsU64 b.total_fees
  pub total_rewards : IsU64 b.total_rewards
  pub version : IsU32 b.version
  pub chain_id : IsU32 b.chain_id
  pub epoch_id : IsU64 b.epoch_id
  pub height : IsU64 b.height
  pub previous_settlement_hash : IsWord32 b.previous_settlement_hash
  pub timestamp : IsU64 b.timestamp
  pub epoch_duration_secs : IsU64 b.epoch_duration_secs
  pub epoch_start_time : IsU64 b.epoch_start_time
  pub epoch_end_time : IsU64 b.epoch_end_time
  pub data_roots : All IsWord32 (roots b)
  pub presence_record_count : IsU64 b.presence_record_count
  pub transaction_count : IsU64 b.transaction_count
  pub participant_count : IsU64 b.participant_count
  pub epoch_root : IsWord32 b.epoch_root
  pub epoch_commitment : IsWord32 b.epoch_commitment
  pub total_supply : IsU64 b.total_supply

-- The header and the totals of an epoch, and its six data roots.
pub record SameEpoch (a b : SettlementBlock) : Type 0 where
  pub version : a.version ≡ b.version
  pub chain_id : a.chain_id ≡ b.chain_id
  pub epoch_id : a.epoch_id ≡ b.epoch_id
  pub height : a.height ≡ b.height
  pub previous_settlement_hash : a.previous_settlement_hash ≡ b.previous_settlement_hash
  pub timestamp : a.timestamp ≡ b.timestamp
  pub epoch_duration_secs : a.epoch_duration_secs ≡ b.epoch_duration_secs
  pub epoch_start_time : a.epoch_start_time ≡ b.epoch_start_time
  pub epoch_end_time : a.epoch_end_time ≡ b.epoch_end_time
  pub data_roots : roots a ≡ roots b
  pub presence_record_count : a.presence_record_count ≡ b.presence_record_count
  pub transaction_count : a.transaction_count ≡ b.transaction_count
  pub participant_count : a.participant_count ≡ b.participant_count
  pub total_fees : a.total_fees ≡ b.total_fees
  pub total_rewards : a.total_rewards ≡ b.total_rewards
  pub total_supply : a.total_supply ≡ b.total_supply

module _ (a b : SettlementBlock) (ha : IsSettlement a) (hb : IsSettlement b) where
  record SameTop : Type 0 where
    version : a.version ≡ b.version
    chain_id : a.chain_id ≡ b.chain_id
    height : a.height ≡ b.height
    previous : a.previous_settlement_hash ≡ b.previous_settlement_hash
    timestamp : a.timestamp ≡ b.timestamp
    duration : a.epoch_duration_secs ≡ b.epoch_duration_secs
    start : a.epoch_start_time ≡ b.epoch_start_time
    finish : a.epoch_end_time ≡ b.epoch_end_time
    commitment : a.epoch_commitment ≡ b.epoch_commitment

  settlement_bytes_inj : settlement_bytes a ≡ settlement_bytes b → SameTop
  unfolding settlement_bytes
  settlement_bytes_inj e =
      let domain = codes "AEVUM_SETTLEMENT_V2" in
      let t0 = (append_inj domain domain refl e).1 in
      let (e1, t1) = u32_field a.version b.version ha.version hb.version t0 in
      let (e2, t2) = u32_field a.chain_id b.chain_id ha.chain_id hb.chain_id t1 in
      let (e3, t3) = u64_field a.epoch_id b.epoch_id ha.epoch_id hb.epoch_id t2 in
      let (e4, t4) = u64_field a.height b.height ha.height hb.height t3 in
      let (e5, t5) =
        array_field a.previous_settlement_hash b.previous_settlement_hash
          ha.previous_settlement_hash hb.previous_settlement_hash t4 in
      let (e6, t6) = u64_field a.timestamp b.timestamp ha.timestamp hb.timestamp t5 in
      let (e7, t7) =
        u64_field a.epoch_duration_secs b.epoch_duration_secs ha.epoch_duration_secs
          hb.epoch_duration_secs t6 in
      let (e8, t8) =
        u64_field a.epoch_start_time b.epoch_start_time ha.epoch_start_time hb.epoch_start_time
          t7 in
      let (e9, t9) =
        u64_field a.epoch_end_time b.epoch_end_time ha.epoch_end_time hb.epoch_end_time t8 in
      let (e10, t10) =
        array_field a.epoch_commitment b.epoch_commitment ha.epoch_commitment hb.epoch_commitment
          t9 in
      record {
        version = e1;
        chain_id = e2;
        height = e4;
        previous = e5;
        timestamp = e6;
        duration = e7;
        start = e8;
        finish = e9;
        commitment = e10;
      }

  record SameTotals : Type 0 where
    epoch_id : a.epoch_id ≡ b.epoch_id
    epoch_root : a.epoch_root ≡ b.epoch_root
    records : a.presence_record_count ≡ b.presence_record_count
    transactions : a.transaction_count ≡ b.transaction_count
    participants : a.participant_count ≡ b.participant_count
    fees : a.total_fees ≡ b.total_fees
    rewards : a.total_rewards ≡ b.total_rewards
    supply : a.total_supply ≡ b.total_supply

  commitment_bytes_inj : commitment_bytes a ≡ commitment_bytes b → SameTotals
  unfolding commitment_bytes
  commitment_bytes_inj e =
      let domain = codes "AEVUM_EPOCH_COMMITMENT_V1" in
      let t0 = (append_inj domain domain refl e).1 in
      let (e1, t1) = u64_field a.epoch_id b.epoch_id ha.epoch_id hb.epoch_id t0 in
      let (e2, t2) = array_field a.epoch_root b.epoch_root ha.epoch_root hb.epoch_root t1 in
      let (e3, t3) =
        u64_field a.presence_record_count b.presence_record_count ha.presence_record_count
          hb.presence_record_count t2 in
      let (e4, t4) =
        u64_field a.transaction_count b.transaction_count ha.transaction_count hb.transaction_count
          t3 in
      let (e5, t5) =
        u64_field a.participant_count b.participant_count ha.participant_count hb.participant_count
          t4 in
      let (e6, t6) = u64_field a.total_fees b.total_fees ha.total_fees hb.total_fees t5 in
      let (e7, t7) =
        u64_field a.total_rewards b.total_rewards ha.total_rewards hb.total_rewards t6 in
      let (e8, t8) = u64_field a.total_supply b.total_supply ha.total_supply hb.total_supply t7 in
      record {
        epoch_id = e1;
        epoch_root = e2;
        records = e3;
        transactions = e4;
        participants = e5;
        fees = e6;
        rewards = e7;
        supply = e8;
      }

  same_epoch : SameTop → SameTotals → roots a ≡ roots b → SameEpoch a b
  same_epoch top totals same = record {
    version = top.version;
    chain_id = top.chain_id;
    epoch_id = totals.epoch_id;
    height = top.height;
    previous_settlement_hash = top.previous;
    timestamp = top.timestamp;
    epoch_duration_secs = top.duration;
    epoch_start_time = top.start;
    epoch_end_time = top.finish;
    data_roots = same;
    presence_record_count = totals.records;
    transaction_count = totals.transactions;
    participant_count = totals.participants;
    total_fees = totals.fees;
    total_rewards = totals.rewards;
    total_supply = totals.supply;
  }

pub record IsVerified (c : Crypto) (b : SettlementBlock) : Type 0 where
  pub hash : b.block_hash ≡ compute_hash c b
  pub root : b.epoch_root ≡ compute_epoch_root c b
  pub commitment : b.epoch_commitment ≡ compute_commitment c b

verify_internal-IsVerified :
    (c : Crypto) (b : SettlementBlock) → verify_internal c b ≡ true → IsVerified c b
unfolding verify_internal
verify_internal-IsVerified c b h = record {
  hash = ground arith;
  root = ground arith;
  commitment = ground arith;
}

length-roots : (b : SettlementBlock) → length (roots b) ≡ 6
unfolding roots
length-roots b = refl

-- All that is hashed for a settlement block.
abbrev pub settlement_inputs : Crypto → SettlementBlock → List (List ℕ)
settlement_inputs c b =
    settlement_bytes b ∷ commitment_bytes b ∷ tree_inputs c (codes "AEVUM_MERKLE_V1") (roots b)

-- Two settlement blocks within the ranges of their types that pass `verify_internal` under one
-- block hash are about the same epoch: all header fields, all totals and all six data roots agree
-- (only the signatures may differ), or among the bytes that are hashed for the two blocks (for the
-- block hash, the commitment, and the nodes over the six roots) those at one place differ and have
-- one digest.
pub verify_internal-binds :
    (c : Crypto) (a b : SettlementBlock)
    → IsSettlement a
    → IsSettlement b
    → verify_internal c a ≡ true
    → verify_internal c b ≡ true
    → a.block_hash ≡ b.block_hash
    → SameEpoch a b ⊎ Clashes c (settlement_inputs c a) (settlement_inputs c b)
unfolding compute_hash compute_commitment compute_epoch_root compute_merkle_root
verify_internal-binds c a b ha hb va vb h =
    let ia = verify_internal-IsVerified c a va in
    let ib = verify_internal-IsVerified c b vb in
    elim (digest_binds c (settlement_bytes a) (settlement_bytes b) (sym ia.hash ∙ h ∙ ib.hash)) [
      | inr clash ↦ inr (here clash)
      | inl e ↦
          let top = settlement_bytes_inj a b ha hb e in
          elim (digest_binds c (commitment_bytes a) (commitment_bytes b)
            (sym ia.commitment ∙ top.commitment ∙ ib.commitment)) [
              | inr clash ↦ inr (there (here clash))
              | inl e' ↦
                  let totals = commitment_bytes_inj a b ha hb e' in
                  elim (merkle_root-binds c (codes "AEVUM_MERKLE_V1") (roots a) (roots b)
                    (length-roots a ∙ sym (length-roots b)) ha.data_roots hb.data_roots
                    (sym ia.root ∙ totals.epoch_root ∙ ib.root)) [
                      | inr clash ↦ inr (there (there clash))
                      | inl same ↦ inl (same_epoch a b ha hb top totals same)
                    ]
            ]
    ]
