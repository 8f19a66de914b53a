-- ===== src/Core/ChainState/Linked.antt =====
-- crates/aevum-core/src/chain_state.rs: the blocks that a state accepts, one after another.
use aevum_public.Base.{
  ◌≤◌, ◌<◌, ◌≡◌, ◌≢◌, ◌-◌, sym, ap, ◌∙◌, true, false, not, none, some, [], ltb, leb, ◌==◌,
  if◌then◌else◌, arith, ok, >>=-eq-ok, >>-eq-ok, fail_if>>-eq-ok, inl, inr, ◌⊎◌,
}
use mathlib.Core.Option.{none-ne-some}
use aevum_public.Base.Map.{lookup, lookup-insert}
use aevum_public.Crypto.{Crypto}
use aevum_public.Core.Block.{Block}
use aevum_public.Core.ChainState.{
  Transition, ChainState, ApplyBlockResult, run_transition, record_result, apply_genesis,
  apply_next, check_applied, extends_tip, max_reorg_depth, genesis_not_applied, below_finalized,
  height_regression, reorg_too_deep, prev_hash_mismatch, genesis_already_applied,
  genesis_prev_hash_not_zero, genesis_not_empty, is_lone_coinbase, executed,
}

-- A state with a genesis block: the canonical tip is the last block, which is recorded at its height.
pub record IsChain (s : ChainState) : Type 0 where
  pub applied : s.genesis_applied ≡ true
  pub tip : s.canonical_tip ≡ s.last_block_hash
  pub level : s.canonical_height ≡ s.height
  pub recorded : lookup s.height s.applied_blocks ≡ some s.last_block_hash

module _ (t : Transition) (c : Crypto) where
  pub apply_genesis-ok :
      (b : Block) (s : ChainState) (r : ApplyBlockResult × ChainState)
      → apply_genesis t b s ≡ ok r
      → (s.genesis_applied ≡ false)
        × (b.prev_hash ≡ 0)
        × IsChain r.1
        × (r.1.height ≡ 0)
        × (r.1.last_block_hash ≡ b.block_hash)
        × (r.1.last_finalized_height ≡ s.last_finalized_height)
  unfolding apply_genesis
  apply_genesis-ok b s r h =
      let fresh = fail_if>>-eq-ok s.genesis_applied genesis_already_applied _ h in
      let root = fail_if>>-eq-ok (not (b.prev_hash == 0)) genesis_prev_hash_not_zero _ fresh.1 in
      let lone =
        fail_if>>-eq-ok (not (is_lone_coinbase t b.transactions)) genesis_not_empty _ root.1 in
      let d = >>=-eq-ok (executed t (t.apply_block b 0 [] [] 0 0 0)) _ lone.1 in
      (
        fresh.0,
        ground (arith, root.0),
        record {
          applied = ground (arith, d.2);
          tip = ground (arith, d.2);
          level = ground (arith, d.2);
          recorded = ground (arith, d.2, lookup-insert 0 0 b.block_hash s.applied_blocks);
        },
        ground (arith, d.2),
        ground (arith, d.2),
        ground (arith, d.2),
      )

  -- What the guards of a block above height 0 leave.
  pub record IsNext (b : Block) (s : ChainState) (r : ApplyBlockResult × ChainState) : Type 0 where
    pub after_genesis : s.genesis_applied ≡ true
    pub above_final : s.last_finalized_height < b.height
    pub no_lower : s.height ≤ b.height
    pub parent : (b.prev_hash ≡ s.canonical_tip) ⊎ (b.prev_hash ≡ s.last_block_hash)
    pub unknown : lookup b.height s.applied_blocks ≡ none
    pub at_height : r.1.height ≡ b.height
    pub last : r.1.last_block_hash ≡ b.block_hash
    pub recorded : lookup b.height r.1.applied_blocks ≡ some b.block_hash
    pub genesis_stays : r.1.genesis_applied ≡ s.genesis_applied
    pub final_stays : r.1.last_finalized_height ≡ s.last_finalized_height
    pub canonical :
        (b.prev_hash ≡ s.canonical_tip) ⊎ (s.canonical_height < b.height)
        → (r.1.canonical_tip ≡ b.block_hash) × (r.1.canonical_height ≡ b.height)

  check_applied-none :
      (b : Block) (s : ChainState) {u : Unit {0}}
      → check_applied t b s ≡ ok u
      → lookup b.height s.applied_blocks ≡ none
  unfolding check_applied
  check_applied-none b s h = ground arith

  pub apply_next-IsNext :
      (b : Block) (s : ChainState) (r : ApplyBlockResult × ChainState)
      → apply_next t b s ≡ ok r
      → IsNext b s r
  unfolding apply_next record_result extends_tip
  apply_next-IsNext b s r h =
      let after = fail_if>>-eq-ok (not s.genesis_applied) genesis_not_applied _ h in
      let final =
        fail_if>>-eq-ok (leb b.height s.last_finalized_height)
          (below_finalized b.height s.last_finalized_height) _ after.1 in
      let level =
        fail_if>>-eq-ok (ltb b.height s.height) (height_regression s.height b.height) _ final.1 in
      let depth =
        fail_if>>-eq-ok
          (if ltb b.height s.canonical_height
            then ltb max_reorg_depth (s.canonical_height - b.height)
            else false)
          (reorg_too_deep s.canonical_height b.height max_reorg_depth) _ level.1 in
      let parent =
        fail_if>>-eq-ok
          (if b.prev_hash == s.canonical_tip then false else not (b.prev_hash == s.last_block_hash))
          (prev_hash_mismatch s.last_block_hash b.prev_hash) _ depth.1 in
      let new = >>-eq-ok (check_applied t b s) _ parent.1 in
      let d = >>=-eq-ok (run_transition t b s) _ new.1 in
      record {
        after_genesis = ground (arith, after.0);
        above_final = ground (arith, final.0);
        no_lower = ground (arith, level.0);
        parent = ground (arith, parent.0);
        unknown = check_applied-none b s new.0;
        at_height = ground (arith, d.2);
        last = ground (arith, d.2);
        recorded =
            ground (arith, d.2, lookup-insert b.height b.height b.block_hash s.applied_blocks);
        genesis_stays = ground (arith, d.2);
        final_stays = ground (arith, d.2);
        canonical = λ k. (ground (arith, d.2, k), ground (arith, d.2, k));
      }

  -- A chain takes only a block whose parent is its last block and that is higher, and is a chain
  -- with that block as the last one.
  pub next-IsChain :
      (b : Block) (s : ChainState) (r : ApplyBlockResult × ChainState)
      → IsChain s
      → IsNext b s r
      → (s.height < b.height) × (b.prev_hash ≡ s.last_block_hash) × IsChain r.1
  next-IsChain b s r h n =
      let other : b.height ≢ s.height = λ same.
        none-ne-some s.last_block_hash
          (sym n.unknown ∙ ap (λ k. lookup k s.applied_blocks) same ∙ h.recorded) in
      let higher : s.height < b.height = omega (arith, other, n.no_lower) in
      let tip = n.canonical (inr (omega (arith, higher, h.level))) in
      (
        higher,
        elim n.parent [ inl e ↦ e ∙ h.tip | inr e ↦ e ],
        record {
          applied = n.genesis_stays ∙ h.applied;
          tip = tip.0 ∙ sym n.last;
          level = tip.1 ∙ sym n.at_height;
          recorded = ground (arith, n.recorded, n.at_height, n.last);
        },
      )
