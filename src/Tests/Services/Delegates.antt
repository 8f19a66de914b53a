-- ===== src/Tests/Services/Delegates.antt =====
-- The trust model at three delegates.
use aevum_public.Base.{ℕ, ◌<◌, ◌≡◌, refl, ◌⊎◌, ◌||◌, false, [], ◌∷◌, arith, ◌==◌, mem, length, ok}
use aevum_public.Base.Bytes.{le_bytes, array_bytes}
use aevum_public.Consensus.Trust.{
  TrustModel, trust_bytes, network_size, quorum, is_genesis, is_delegate, can_endorse, check_voters,
  voters_of, computed_root, recompute_trust_root, default_model, admit, new_genesis, delegate,
  advance_epoch,
}
use aevum_public.Consensus.Trust.Authority.{Quorum, delegate-Quorum, IsModel}
use aevum_public.Consensus.Trust.Reachable.{Step, Reachable, IsSound, Reachable-IsSound}
use aevum_public.Tests.Values.{toy}

program : Unit {0}
unfolding le_bytes array_bytes trust_bytes network_size quorum is_genesis is_delegate can_endorse
    check_voters voters_of computed_root recompute_trust_root default_model admit new_genesis
    delegate advance_epoch
program = tt

-- The delegates 5, 6 and 7 and the genesis key.
abbrev four : TrustModel
four = admit toy (admit toy (admit toy (new_genesis toy) 5) 6) 7

abbrev five : TrustModel
five = admit toy four 8

voted : delegate toy four 5 8 (6 ∷ 7 ∷ []) ≡ ok five
unfolding program
voted = refl

delegate-Quorum_example :
    (mem 8 four.delegates ≡ false)
    × (length four.delegates < four.max_delegates)
    × ((5 ≡ four.genesis_bootstrap) ⊎ Quorum four 5 (6 ∷ 7 ∷ []))
    × ((pk : ℕ) → mem pk five.delegates ≡ (pk == 8 || mem pk four.delegates))
    × (five ≡ record four { delegates = five.delegates; trust_root = five.trust_root })
delegate-Quorum_example = delegate-Quorum toy four five 5 8 (6 ∷ 7 ∷ []) voted

four-IsModel : IsModel four
unfolding program
four-IsModel = record {
  trust_version = omega arith;
  current_epoch = omega arith;
  delegates = (omega arith, (omega arith, (omega arith, (omega arith, tt))));
}

advanced : Reachable toy (advance_epoch toy (new_genesis toy))
advanced = Reachable.after Reachable.start Step.advanced

Reachable-IsSound_example : IsSound toy (advance_epoch toy (new_genesis toy))
Reachable-IsSound_example = Reachable-IsSound toy (advance_epoch toy (new_genesis toy)) advanced
