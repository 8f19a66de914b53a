-- ===== src/Core/ChainState/History.antt =====
-- crates/aevum-core/src/chain_state.rs: any sequence of calls on a new state.
use aevum_public.Base.{
  ℕ, ◌<◌, ◌≡◌, refl, ◌∙◌, subst, true, false, not, List, [], ◌∷◌, ◌==◌, ltb, arith, ok, err,
  fail_if>>-eq-ok, Result-cases, Bool-cases, inl, inr, ◌⊎◌, All,
}
use aevum_public.Crypto.{Crypto}
use aevum_public.Core.Block.{Block, compute_hash}
use aevum_public.Core.ChainState.{
  Transition, ChainState, ApplyBlockResult, new_chain, finalize_up_to, apply_genesis, apply_next,
  apply_block_checked, apply_presence_record, invalid_block_hash,
}
use aevum_public.Core.ChainState.Linked.{IsChain, apply_genesis-ok, apply_next-IsNext, next-IsChain}

pub data ChainCall : Type 0 where
  applying : Block → ChainCall
  finalizing : ℕ → ChainCall
  presence : Block → ChainCall

-- The call is not one of `apply_presence_record`.
abbrev pub IsChecked : ChainCall → Type 0
IsChecked (applying b) = Unit {0}
IsChecked (finalizing h) = Unit {0}
IsChecked (presence b) = ⊥

-- Each block carries its own hash, has the one before as its parent and is higher than it.
abbrev pub LinkedFrom : Crypto → ℕ → ℕ → List Block → Type 0
LinkedFrom c height parent [] = Unit {0}
LinkedFrom c height parent (b ∷ bs) =
    (height < b.height)
    × (b.prev_hash ≡ parent)
    × (compute_hash c b ≡ b.block_hash)
    × LinkedFrom c b.height b.block_hash bs

-- A chain from a genesis block on.
abbrev pub IsHistory : Crypto → List Block → Type 0
IsHistory c [] = Unit {0}
IsHistory c (b ∷ bs) =
    (b.height ≡ 0)
    × (b.prev_hash ≡ 0)
    × (compute_hash c b ≡ b.block_hash)
    × LinkedFrom c 0 b.block_hash bs

module _ (t : Transition) (c : Crypto) where
  -- The blocks that `apply_block_checked` has taken, in order; a call that fails changes nothing.
  unfoldable pub accepted : List ChainCall → ChainState → List Block
  accepted [] s = []
  accepted (finalizing h ∷ cs) s = accepted cs (finalize_up_to h s)
  accepted (applying b ∷ cs) s = elim (apply_block_checked t c b s) [
    | err _ ↦ accepted cs s
    | ok r ↦ b ∷ accepted cs r.1
  ]
  accepted (presence b ∷ cs) s = elim (apply_presence_record t b s) [
    | err _ ↦ accepted cs s
    | ok r ↦ accepted cs r.1
  ]

  finalize-IsChain : (h : ℕ) (s : ChainState) → IsChain s → IsChain (finalize_up_to h s)
  unfolding finalize_up_to
  finalize-IsChain h s k = elim (Bool-cases (ltb s.last_finalized_height h)) [
    | inl e ↦
        rw (e, finalize_up_to)
          (record { applied = k.applied; tip = k.tip; level = k.level; recorded = k.recorded })
    | inr e ↦ rw (e, finalize_up_to) k
  ]

  finalize-same :
      (h : ℕ) (s : ChainState)
      → ((finalize_up_to h s).height ≡ s.height)
        × ((finalize_up_to h s).last_block_hash ≡ s.last_block_hash)
        × ((finalize_up_to h s).genesis_applied ≡ s.genesis_applied)
  unfolding finalize_up_to
  finalize-same h s = (ground arith, ground arith, ground arith)

  -- A block that is applied is a genesis block or a next one.
  pub apply_block_checked-cases :
      (b : Block) (s : ChainState) (r : ApplyBlockResult × ChainState)
      → apply_block_checked t c b s ≡ ok r
      → (compute_hash c b ≡ b.block_hash)
        × (((b.height ≡ 0) × (apply_genesis t b s ≡ ok r)) ⊎ (apply_next t b s ≡ ok r))
  unfolding apply_block_checked
  apply_block_checked-cases b s r h =
      let sealed =
        fail_if>>-eq-ok (not (compute_hash c b == b.block_hash)) invalid_block_hash _ h in
      (ground (arith, sealed.0), ground (arith, sealed.1))

  -- The start of a chain is what two states have in common.
  moved :
      (bs : List Block) {a b p q : ℕ} → a ≡ b → p ≡ q → LinkedFrom c a p bs → LinkedFrom c b q bs
  moved bs {a} {b} {p} {q} ha hp h =
      subst (λ parent. LinkedFrom c b parent bs) hp
        (subst (λ height. LinkedFrom c height p bs) ha h)

  accepted-LinkedFrom :
      (cs : List ChainCall) (s : ChainState)
      → All IsChecked cs
      → IsChain s
      → LinkedFrom c s.height s.last_block_hash (accepted cs s)
  unfolding accepted
  accepted-LinkedFrom [] s w h = tt
  accepted-LinkedFrom (presence b ∷ cs) s w h = absurd w.0
  accepted-LinkedFrom (finalizing n ∷ cs) s w h =
      let same = finalize-same n s in
      let later = accepted-LinkedFrom cs (finalize_up_to n s) w.1 (finalize-IsChain n s h) in
      moved (accepted cs (finalize_up_to n s)) same.0 same.1 later
  accepted-LinkedFrom (applying b ∷ cs) s w h = elim (Result-cases (apply_block_checked t c b s)) [
    | inr e ↦ rw (e.1, accepted) (accepted-LinkedFrom cs s w.1 h)
    | inl k ↦
        let facts = apply_block_checked-cases b s k.0 k.1 in
        elim facts.1 [
          | inl g ↦
              let new : s.genesis_applied ≡ false = (apply_genesis-ok t c b s k.0 g.1).0 in
              let old : s.genesis_applied ≡ true = h.applied in absurd (cc)
          | inr e ↦
              let n = apply_next-IsNext t c b s k.0 e in
              let step = next-IsChain t c b s k.0 h n in
              rw (k.1, accepted)
                (
                  step.0,
                  step.1,
                  facts.0,
                  moved (accepted cs k.0.1) n.at_height n.last
                      (accepted-LinkedFrom cs k.0.1 w.1 step.2),
                )
        ]
  ]

  -- Before a genesis block nothing else is applied.
  accepted-IsHistory :
      (cs : List ChainCall) (s : ChainState)
      → All IsChecked cs
      → s.genesis_applied ≡ false
      → IsHistory c (accepted cs s)
  unfolding accepted
  accepted-IsHistory [] s w h = tt
  accepted-IsHistory (presence b ∷ cs) s w h = absurd w.0
  accepted-IsHistory (finalizing n ∷ cs) s w h =
      accepted-IsHistory cs (finalize_up_to n s) w.1 ((finalize-same n s).2 ∙ h)
  accepted-IsHistory (applying b ∷ cs) s w h = elim (Result-cases (apply_block_checked t c b s)) [
    | inr e ↦ rw (e.1, accepted) (accepted-IsHistory cs s w.1 h)
    | inl k ↦
        let facts = apply_block_checked-cases b s k.0 k.1 in
        elim facts.1 [
          | inl g ↦
              let first = apply_genesis-ok t c b s k.0 g.1 in
              rw (k.1, accepted)
                (
                  g.0,
                  first.1,
                  facts.0,
                  moved (accepted cs k.0.1) first.3 first.4
                      (accepted-LinkedFrom cs k.0.1 w.1 first.2),
                )
          | inr e ↦
              let none_yet : s.genesis_applied ≡ false = h in
              let needed : s.genesis_applied ≡ true =
                (apply_next-IsNext t c b s k.0 e).after_genesis in
              absurd (cc)
        ]
  ]

  -- In any sequence of calls of `apply_block_checked` and `finalize_up_to` on a new state, with no
  -- call of `apply_presence_record` among them, the blocks that are taken are one chain: the first is
  -- at height 0 and has no parent, every other one has the one before it as its parent and is higher,
  -- and each carries its own hash.
  pub new_chain-IsHistory :
      (cs : List ChainCall) → All IsChecked cs → IsHistory c (accepted cs (new_chain c))
  unfolding new_chain
  new_chain-IsHistory cs w = accepted-IsHistory cs (new_chain c) w refl
