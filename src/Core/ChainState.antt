-- ===== src/Core/ChainState.antt =====
-- crates/aevum-core/src/chain_state.rs: the state behind the lock. The module `state_transition` is not
-- in the repository: the parameter `Transition` has its two functions, an error type, the nullifier
-- of a `JtUtxo`, the order in which a `HashSet` is read, and the length of an epoch. A call that
-- fails leaves the state as it is.
pub mod Linked
pub mod History
pub mod Final
use aevum_public.Base.{
  ℕ, ◌-◌, ◌/◌, Bool, true, false, not, ◌||◌, Option, none, some, List, [], ◌∷◌, ltb, leb, ◌==◌,
  length, mem, if◌then◌else◌, Result, ok, err, ◌>>=◌, ◌>>◌, fail_if,
}
use aevum_public.Base.Map.{Map, lookup, insert}
use aevum_public.Crypto.{Crypto}
use aevum_public.Core.Transaction.{Transaction, is_coinbase}
use aevum_public.Core.Block.{Block, BlockCandidate, StatePreview, compute_hash}
use aevum_public.Core.StateRoot.{StateRootData, genesis_state_root}

pub record Transition : Type 1 where
  pub Error : Type 0
  -- The block, the hash of the last one, the outputs, the spent nullifiers, the supply and two roots.
  pub apply_block : Block → ℕ → List ℕ → List ℕ → ℕ → ℕ → ℕ → Result Error StateRootData
  pub preview_block_candidate :
      BlockCandidate → ℕ → List ℕ → List ℕ → ℕ → ℕ → ℕ → Result Error StatePreview
  pub nullifier : ℕ → ℕ
  pub set_order : List ℕ → List ℕ
  pub epoch_length_blocks : ℕ

abbrev pub max_reorg_depth : ℕ
max_reorg_depth = 64

pub record ApplyBlockResult : Type 0 where
  pub new_height : ℕ
  pub new_supply : ℕ
  pub state_root : ℕ
  pub utxo_count : ℕ
  pub spent_count : ℕ

-- `preview_failed e` carries the error whose text the source carries.
pub data ChainStateError (E : Type 0) : Type 0 where
  execution preview_failed : E → ChainStateError E
  block_already_applied : ℕ → ℕ → ChainStateError E
  fork_rejected : ℕ → ℕ → ℕ → ChainStateError E
  below_finalized prev_hash_mismatch height_mismatch height_regression : ℕ → ℕ → ChainStateError E
  reorg_too_deep : ℕ → ℕ → ℕ → ChainStateError E
  invalid_block_hash genesis_already_applied genesis_not_applied : ChainStateError E
  genesis_prev_hash_not_zero genesis_not_empty genesis_state_not_empty : ChainStateError E
  post_check_zero_amount post_check_duplicate_utxo post_check_duplicate_spent : ChainStateError E
  post_check_supply_mismatch : ℕ → ℕ → ChainStateError E
  canonical_invariant_broken : ChainStateError E

-- `utxos` is a `BTreeMap` from the nullifiers of its values: the values, in the order of the keys.
pub record ChainState : Type 0 where
  pub utxos : List ℕ
  pub spent_nullifiers : List ℕ
  pub state_root : ℕ
  pub dna_root : ℕ
  pub oracle_root : ℕ
  pub cached_supply : ℕ
  pub height : ℕ
  pub last_block_hash : ℕ
  pub canonical_tip : ℕ
  pub canonical_height : ℕ
  pub last_finalized_height : ℕ
  pub applied_blocks : Map ℕ
  pub genesis_applied : Bool
  pub epoch_anchor_hash : ℕ
  pub current_epoch : ℕ

unfoldable pub finalize_up_to : ℕ → ChainState → ChainState
finalize_up_to height s =
    if ltb s.last_finalized_height height then record s { last_finalized_height = height } else s

-- `HashSet::insert`, for all of a list.
unfoldable pub collect_spent : List ℕ → List ℕ
collect_spent [] = []
collect_spent (n ∷ ns) = let rest = collect_spent ns in if mem n rest then rest else n ∷ rest

module _ (c : Crypto) where
  unfoldable pub new_chain : ChainState
  new_chain = record {
    utxos = [];
    spent_nullifiers = [];
    state_root = genesis_state_root c;
    dna_root = 0;
    oracle_root = 0;
    cached_supply = 0;
    height = 0;
    last_block_hash = 0;
    canonical_tip = 0;
    canonical_height = 0;
    last_finalized_height = 0;
    applied_blocks = [];
    genesis_applied = false;
    epoch_anchor_hash = 0;
    current_epoch = 0;
  }

module _ (t : Transition) where
  -- `utxos.insert(*u.nullifier(), u.clone())`, for all of a list.
  unfoldable pub put_utxo : ℕ → List ℕ → List ℕ
  put_utxo u [] = u ∷ []
  put_utxo u (v ∷ vs) =
      if t.nullifier u == t.nullifier v
      then u ∷ vs
      else if ltb (t.nullifier u) (t.nullifier v)
      then u ∷ v ∷ vs
      else v ∷ put_utxo u vs

  unfoldable pub collect_utxos : List ℕ → List ℕ → List ℕ
  collect_utxos [] vs = vs
  collect_utxos (u ∷ us) vs = collect_utxos us (put_utxo u vs)

  -- `?` on a result of the transition.
  abbrev pub executed : {A : Type 0} → Result t.Error A → Result (ChainStateError t.Error) A
  executed (ok a) = ok a
  executed (err e) = err (execution e)

  abbrev pub run_transition : Block → ChainState → Result (ChainStateError t.Error) StateRootData
  run_transition b s = executed (
      t.apply_block b s.last_block_hash s.utxos (t.set_order s.spent_nullifiers) s.cached_supply
        s.dna_root s.oracle_root)

  unfoldable pub preview_block :
      BlockCandidate → ChainState → Result (ChainStateError t.Error) StatePreview
  preview_block candidate s =
      elim (t.preview_block_candidate candidate s.last_block_hash s.utxos
        (t.set_order s.spent_nullifiers) s.cached_supply s.dna_root s.oracle_root) [
          | ok p ↦ ok p
          | err e ↦ err (preview_failed e)
        ]

  -- What a result of the transition writes into the state; `canonical` says that the block becomes
  -- the canonical tip.
  unfoldable pub record_result : Bool → Block → StateRootData → ChainState → ChainState
  record_result canonical b d s = record s {
    utxos = collect_utxos d.new_utxos [];
    spent_nullifiers = collect_spent d.spent_nullifiers;
    state_root = d.hash;
    dna_root = d.dna_root;
    oracle_root = d.oracle_root;
    cached_supply = d.total_supply;
    height = b.height;
    last_block_hash = b.block_hash;
    canonical_tip = if canonical then b.block_hash else s.canonical_tip;
    canonical_height = if canonical then b.height else s.canonical_height;
    epoch_anchor_hash = elim b.settlement_checkpoint [
      | none ↦ s.epoch_anchor_hash
      | some _ ↦ b.block_hash
    ];
    current_epoch = elim b.settlement_checkpoint [
      | none ↦ s.current_epoch
      | some _ ↦ b.height / t.epoch_length_blocks
    ];
  }

  abbrev pub summary : Block → StateRootData → ChainState → ApplyBlockResult
  summary b d s = record {
    new_height = b.height;
    new_supply = d.total_supply;
    state_root = d.hash;
    utxo_count = length s.utxos;
    spent_count = length s.spent_nullifiers;
  }

  -- `transactions().len() != 1 || !transactions()[0].is_coinbase()`
  abbrev pub is_lone_coinbase : List Transaction → Bool
  is_lone_coinbase [] = false
  is_lone_coinbase (tx ∷ []) = is_coinbase tx
  is_lone_coinbase (tx ∷ _ ∷ _) = false

  unfoldable pub apply_genesis :
      Block → ChainState → Result (ChainStateError t.Error) (ApplyBlockResult × ChainState)
  apply_genesis b s = do
    fail_if s.genesis_applied genesis_already_applied
    fail_if (not (b.prev_hash == 0)) genesis_prev_hash_not_zero
    fail_if (not (is_lone_coinbase b.transactions)) genesis_not_empty
    d ← executed (t.apply_block b 0 [] [] 0 0 0)
    let s' : ChainState = record s {
      state_root = d.hash;
      dna_root = 0;
      oracle_root = 0;
      cached_supply = d.total_supply;
      height = 0;
      last_block_hash = b.block_hash;
      canonical_tip = b.block_hash;
      canonical_height = 0;
      applied_blocks = insert 0 b.block_hash s.applied_blocks;
      genesis_applied = true;
      epoch_anchor_hash = b.block_hash;
      utxos = collect_utxos d.new_utxos [];
    }
    ok (record (summary b d s') { new_height = 0; spent_count = 0 }, s')

  -- `applied_blocks.get(..)`, a block that is there already or another one.
  unfoldable pub check_applied : Block → ChainState → Result (ChainStateError t.Error) (Unit {0})
  check_applied b s = elim (lookup b.height s.applied_blocks) [
    | none ↦ ok tt
    | some existing ↦
        if existing == b.block_hash
        then err (block_already_applied b.height b.block_hash)
        else err (fork_rejected b.height existing b.block_hash)
  ]

  unfoldable pub extends_tip : Block → ChainState → Bool
  extends_tip b s = b.prev_hash == s.canonical_tip

  -- What follows the guard for a genesis block.
  unfoldable pub apply_next :
      Block → ChainState → Result (ChainStateError t.Error) (ApplyBlockResult × ChainState)
  apply_next b s = do
    fail_if (not s.genesis_applied) genesis_not_applied
    fail_if (leb b.height s.last_finalized_height)
        (below_finalized b.height s.last_finalized_height)
    fail_if (ltb b.height s.height) (height_regression s.height b.height)
    fail_if
        (if ltb b.height s.canonical_height
          then ltb max_reorg_depth (s.canonical_height - b.height)
          else false)
        (reorg_too_deep s.canonical_height b.height max_reorg_depth)
    fail_if (if extends_tip b s then false else not (b.prev_hash == s.last_block_hash))
        (prev_hash_mismatch s.last_block_hash b.prev_hash)
    check_applied b s
    d ← run_transition b s
    let s' : ChainState =
        record (record_result (extends_tip b s || ltb s.canonical_height b.height) b d s) {
          applied_blocks = insert b.height b.block_hash s.applied_blocks;
        }
    ok (summary b d s', s')

  unfoldable pub apply_block_checked :
      Crypto → Block → ChainState → Result (ChainStateError t.Error) (ApplyBlockResult × ChainState)
  apply_block_checked c b s = do
    fail_if (not (compute_hash c b == b.block_hash)) invalid_block_hash
    if b.height == 0 then apply_genesis b s else apply_next b s

  unfoldable pub apply_presence_record :
      Block → ChainState → Result (ChainStateError t.Error) (ApplyBlockResult × ChainState)
  apply_presence_record b s = do
    fail_if (not s.genesis_applied) genesis_not_applied
    d ← run_transition b s
    let s' = record_result (extends_tip b s || ltb s.canonical_height b.height) b d s
    ok (summary b d s', s')
