-- ===== src/Core/ChainState/Final.antt =====
-- crates/aevum-core/src/chain_state.rs: what is finalized stays.
use aevum_public.Base.{
  not, ok, >>=-eq-ok, fail_if>>-eq-ok, ℕ, ◌≤◌, ◌<◌, ◌≡◌, List, [], ◌∷◌, arith, All, Result-cases,
  inl, inr, ◌⊎◌,
}
use aevum_public.Crypto.{Crypto}
use aevum_public.Core.Block.{Block}
use aevum_public.Core.ChainState.{
  Transition, ChainState, finalize_up_to, apply_block_checked, apply_presence_record,
  ApplyBlockResult, record_result, run_transition, genesis_not_applied,
}
use aevum_public.Core.ChainState.Linked.{apply_genesis-ok, apply_next-IsNext}
use aevum_public.Core.ChainState.History.{
  ChainCall, applying, finalizing, presence, accepted, apply_block_checked-cases,
}

-- A genesis block, or one above the height.
abbrev pub IsAbove : ℕ → Block → Type 0
IsAbove h b = (b.height ≡ 0) ⊎ (h < b.height)

module _ (t : Transition) (c : Crypto) where
  finalize-more :
      (h n : ℕ) (s : ChainState)
      → h ≤ s.last_finalized_height
      → h ≤ (finalize_up_to n s).last_finalized_height
  unfolding finalize_up_to
  finalize-more h n s k = ground arith

  presence-final :
      (b : Block) (s : ChainState) (r : ApplyBlockResult × ChainState)
      → apply_presence_record t b s ≡ ok r
      → r.1.last_finalized_height ≡ s.last_finalized_height
  unfolding apply_presence_record record_result
  presence-final b s r h =
      let after = fail_if>>-eq-ok (not s.genesis_applied) genesis_not_applied _ h in
      let d = >>=-eq-ok (run_transition t b s) _ after.1 in ground (arith, d.2)

  accepted-IsAbove :
      (h : ℕ) (cs : List ChainCall) (s : ChainState)
      → h ≤ s.last_finalized_height
      → All (IsAbove h) (accepted t c cs s)
  unfolding accepted
  accepted-IsAbove h [] s k = tt
  accepted-IsAbove h (finalizing n ∷ cs) s k =
      accepted-IsAbove h cs (finalize_up_to n s) (finalize-more h n s k)
  accepted-IsAbove h (presence b ∷ cs) s k = elim (Result-cases (apply_presence_record t b s)) [
    | inr e ↦ rw (e.1, accepted) (accepted-IsAbove h cs s k)
    | inl r ↦
        rw (r.1, accepted) (accepted-IsAbove h cs r.0.1 (omega (arith, presence-final b s r.0 r.1)))
  ]
  accepted-IsAbove h (applying b ∷ cs) s k = elim (Result-cases (apply_block_checked t c b s)) [
    | inr e ↦ rw (e.1, accepted) (accepted-IsAbove h cs s k)
    | inl r ↦ elim (apply_block_checked-cases t c b s r.0 r.1).1 [
      | inl g ↦
          let same = (apply_genesis-ok t c b s r.0 g.1).5 in
          rw (r.1, accepted) (inl g.0, accepted-IsAbove h cs r.0.1 (omega (arith, same)))
      | inr e ↦
          let n = apply_next-IsNext t c b s r.0 e in
          rw (r.1, accepted)
            (
              inr (omega (arith, n.above_final)),
              accepted-IsAbove h cs r.0.1 (omega (arith, n.final_stays)),
            )
    ]
  ]

  -- Once the chain is final up to a height, `apply_block_checked` takes no block at that height or
  -- below any more but a genesis block, in any sequence of calls of it, of `finalize_up_to` and of
  -- `apply_presence_record` (whose own blocks are not meant: it does not look at their height).
  pub finalize_up_to-IsAbove :
      (h : ℕ) (cs : List ChainCall) (s : ChainState)
      → All (IsAbove h) (accepted t c cs (finalize_up_to h s))
  unfolding finalize_up_to
  finalize_up_to-IsAbove h cs s = accepted-IsAbove h cs (finalize_up_to h s) (ground arith)
