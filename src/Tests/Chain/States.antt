-- ===== src/Tests/Chain/States.antt =====
-- The chain state and the state root with a transition that adds one output for a block.
use aevum_public.Base.{
  ℕ, ◌≡◌, refl, List, [], ◌∷◌, map, sum_by, IsDistinct, IsU64, All, ok, ◌==◌, if◌then◌else◌, ◌>>=◌,
}
use aevum_public.Core.Block.{Block, new_block}
use aevum_public.Core.StateRoot.{
  JtUtxo, StateRootData, into_preview, checked_sum, supply_of, all_new, compute_state_root,
  compute_state_preview, compute_state_root_hash, utxo_root, nullifier_root,
}
use aevum_public.Core.StateRoot.Agreement.{compute_state_root-ok, compute_state_preview-agrees}
use aevum_public.Core.ChainState.{Transition, new_chain, finalize_up_to}
use aevum_public.Core.ChainState.History.{
  ChainCall, applying, finalizing, presence, IsHistory, accepted, new_chain-IsHistory,
}
use aevum_public.Core.ChainState.Final.{IsAbove, finalize_up_to-IsAbove}
use aevum_public.Tests.Values.{toy, reward, beat}

abbrev toy_data : ℕ → StateRootData
toy_data n = record {
  hash = n;
  block_height = n;
  total_supply = 25;
  dna_root = 0;
  oracle_root = 0;
  utxo_count = 1;
  spent_nullifier_count = 0;
  new_utxos = n ∷ [];
  spent_nullifiers = [];
}

abbrev toy_transition : Transition
toy_transition = record {
  Error = ℕ;
  apply_block = λ b last us ns supply dna oracle. ok (toy_data b.height);
  preview_block_candidate = λ b last us ns supply dna oracle.
      ok (record { state_root = b.height; new_total_supply = supply });
  nullifier = λ u. u;
  set_order = λ ns. ns;
  epoch_length_blocks = 100;
}

abbrev first : Block
first = new_block toy 0 0 0 10 (reward ∷ []) 17 25

abbrev second_block : Block
second_block = new_block toy first.block_hash 5 0 10 (beat ∷ []) 18 25

abbrev calls : List ChainCall
calls =
    applying second_block
    ∷ applying first
    ∷ applying second_block
    ∷ finalizing 5
    ∷ applying first
    ∷ []

new_chain-IsHistory_example : IsHistory toy (accepted toy_transition toy calls (new_chain toy))
new_chain-IsHistory_example =
    new_chain-IsHistory toy_transition toy calls (tt, (tt, (tt, (tt, (tt, tt)))))

finalize_up_to-IsAbove_example :
    All (IsAbove 3) (
      accepted toy_transition toy
        (presence second_block ∷ calls)
        (finalize_up_to 3 (new_chain toy)))
finalize_up_to-IsAbove_example =
    finalize_up_to-IsAbove toy_transition toy 3 (presence second_block ∷ calls) (new_chain toy)

-- Outputs named by their nullifiers, of 10 and 15.
abbrev outputs : JtUtxo
outputs = record {
  amount = λ u. if u == 1 then 10 else 15;
  nullifier = λ u. u;
  consensus_bytes = λ u. u ∷ [];
}

abbrev state_data : StateRootData
state_data = record {
  hash =
      compute_state_root_hash toy 3 25 (utxo_root toy outputs (1 ∷ 2 ∷ []))
        (nullifier_root toy (7 ∷ [])) 0 0;
  block_height = 3;
  total_supply = 25;
  dna_root = 0;
  oracle_root = 0;
  utxo_count = 2;
  spent_nullifier_count = 1;
  new_utxos = 1 ∷ 2 ∷ [];
  spent_nullifiers = 7 ∷ [];
}

has_root : compute_state_root toy outputs 3 25 (1 ∷ 2 ∷ []) (7 ∷ []) 0 0 ≡ ok state_data
unfolding compute_state_root supply_of checked_sum all_new
has_root = refl

compute_state_root-ok_example :
    (sum_by outputs.amount (1 ∷ 2 ∷ []) ≡ 25)
    × IsU64 25
    × IsDistinct (map outputs.nullifier (1 ∷ 2 ∷ []))
    × IsDistinct (7 ∷ [])
    × (state_data.total_supply ≡ 25)
    × (state_data.new_utxos ≡ 1 ∷ 2 ∷ [])
    × (state_data.spent_nullifiers ≡ 7 ∷ [])
compute_state_root-ok_example =
    compute_state_root-ok toy outputs 3 25 (1 ∷ 2 ∷ []) (7 ∷ []) 0 0 state_data has_root

compute_state_preview-agrees_example :
    compute_state_preview toy outputs 3 25 (1 ∷ 2 ∷ []) (7 ∷ []) 0 0
    ≡ (compute_state_root toy outputs 3 25 (1 ∷ 2 ∷ []) (7 ∷ []) 0 0 >>= (λ d. ok (into_preview d)))
compute_state_preview-agrees_example =
    compute_state_preview-agrees toy outputs 3 25 (1 ∷ 2 ∷ []) (7 ∷ []) 0 0
