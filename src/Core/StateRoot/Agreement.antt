-- ===== src/Core/StateRoot/Agreement.antt =====
-- crates/aevum-core/src/state_root.rs: what the checks of a state root say, and the preview.
use aevum_public.Base.{
  ℕ, ◌+◌, ◌≡◌, refl, true, false, some, List, [], ◌∷◌, map, mem, IsDistinct, sum_by, IsU64,
  if◌then◌else◌, ◌==◌, arith, ok, ◌>>=◌, >>=-eq-ok, >>-eq-ok, fail_if>>-eq-ok, All,
}
use aevum_public.Crypto.{Crypto}
use aevum_public.Core.StateRoot.{
  JtUtxo, StateError, duplicate_nullifier, duplicate_utxo_nullifier, supply_mismatch, StateRootData,
  into_preview, checked_sum, supply_of, all_new, compute_state_root, compute_state_preview,
}

checked_sum-some :
    (amount : ℕ → ℕ) (acc s : ℕ) (us : List ℕ)
    → IsU64 acc
    → checked_sum amount acc us ≡ some s
    → (acc + sum_by amount us ≡ s) × IsU64 s
unfolding checked_sum
checked_sum-some amount acc s [] fits h = ground (arith, h)
checked_sum-some amount acc s (u ∷ us) fits h =
    ground (arith, checked_sum-some amount (acc + amount u) s us, h)

apart :
    (k : ℕ) (seen ks : List ℕ)
    → All (λ i. mem i (k ∷ seen) ≡ false) ks
    → (mem k ks ≡ false) × All (λ i. mem i seen ≡ false) ks
apart k seen [] h = (refl, tt)
apart k seen (i ∷ ks) h = ground (arith, apart k seen ks h.1, h.0)

all_new-IsDistinct :
    (e : ℕ → StateError) (seen ks : List ℕ) {u : Unit {0}}
    → all_new e seen ks ≡ ok u
    → IsDistinct ks × All (λ k. mem k seen ≡ false) ks
unfolding all_new
all_new-IsDistinct e seen [] h = (tt, tt)
all_new-IsDistinct e seen (k ∷ ks) h =
    let first = fail_if>>-eq-ok (mem k seen) (e k) _ h in
    let rest = all_new-IsDistinct e (k ∷ seen) ks first.1 in
    let parts = apart k seen ks rest.1 in ((parts.0, rest.0), (first.0, parts.1))

supply_of-ok :
    (amount : ℕ → ℕ) (s : ℕ) (us : List ℕ)
    → supply_of amount us ≡ ok s
    → (sum_by amount us ≡ s) × IsU64 s
unfolding supply_of
supply_of-ok amount s us h = ground (arith, checked_sum-some amount 0 s us (omega arith))

module _ (c : Crypto) (j : JtUtxo) (height supply : ℕ) (utxos spent : List ℕ)
    (dna_root oracle_root : ℕ) where
  -- A state that has a root has the declared supply, which fits in 64 bits, in its outputs, and no
  -- nullifier twice, neither of an output nor a spent one; the root's data names these outputs and
  -- nullifiers.
  pub compute_state_root-ok :
      (d : StateRootData)
      → compute_state_root c j height supply utxos spent dna_root oracle_root ≡ ok d
      → (sum_by j.amount utxos ≡ supply)
        × IsU64 supply
        × IsDistinct (map j.nullifier utxos)
        × IsDistinct spent
        × (d.total_supply ≡ supply)
        × (d.new_utxos ≡ utxos)
        × (d.spent_nullifiers ≡ spent)
  unfolding compute_state_root
  compute_state_root-ok d h =
      let sum = >>=-eq-ok (supply_of j.amount utxos) _ h in
      let same =
        fail_if>>-eq-ok (if supply == sum.0 then false else true) (supply_mismatch supply sum.0) _
          sum.2 in
      let fresh = >>-eq-ok (all_new duplicate_utxo_nullifier [] (map j.nullifier utxos)) _ same.1 in
      let unspent = >>-eq-ok (all_new duplicate_nullifier [] spent) _ fresh.1 in
      let total = supply_of-ok j.amount sum.0 utxos sum.1 in
      (
        ground (arith, total.0, same.0),
        ground (arith, total.1, same.0),
        (all_new-IsDistinct duplicate_utxo_nullifier [] (map j.nullifier utxos) fresh.0).0,
        (all_new-IsDistinct duplicate_nullifier [] spent unspent.0).0,
        ground arith,
        ground arith,
        ground arith,
      )

  -- The lightweight preview is the preview of the full data, errors included.
  pub compute_state_preview-agrees :
      compute_state_preview c j height supply utxos spent dna_root oracle_root ≡ (
        compute_state_root c j height supply utxos spent dna_root oracle_root
        >>= (λ d. ok (into_preview d)))
  unfolding compute_state_preview compute_state_root into_preview
  compute_state_preview-agrees = ground arith
