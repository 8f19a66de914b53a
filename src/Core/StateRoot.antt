-- ===== src/Core/StateRoot.antt =====
-- crates/aevum-core/src/state_root.rs: the root of a state. A `JtUtxo` is of a module that is not in
-- the repository: a number that names it, with what the code asks of it as a parameter.
pub mod Agreement
use aevum_public.Base.{
  ℕ, ◌+◌, Bool, true, false, Option, none, some, List, [], ◌∷◌, map, ltb, leb, ◌==◌, mem, length,
  if◌then◌else◌, u64_max, Result, ok, err, ◌>>=◌, ◌>>◌, fail_if,
}
use aevum_public.Base.Bytes.{codes, le_bytes, array_bytes, updates}
use aevum_public.Crypto.{Crypto}
use aevum_public.Core.Block.{StatePreview}
use aevum_public.Core.Merkle.{merkle_root}

-- The methods of `JtUtxo` that the code calls.
pub record JtUtxo : Type 0 where
  pub amount : ℕ → ℕ
  pub nullifier : ℕ → ℕ
  pub consensus_bytes : ℕ → List ℕ

pub data StateError : Type 0 where
  supply_mismatch : ℕ → ℕ → StateError
  supply_overflow : StateError
  duplicate_nullifier duplicate_utxo_nullifier : ℕ → StateError

pub record StateRootData : Type 0 where
  pub hash : ℕ
  pub block_height : ℕ
  pub total_supply : ℕ
  pub dna_root : ℕ
  pub oracle_root : ℕ
  pub utxo_count : ℕ
  pub spent_nullifier_count : ℕ
  pub new_utxos : List ℕ
  pub spent_nullifiers : List ℕ

unfoldable pub into_preview : StateRootData → StatePreview
into_preview d = record { state_root = d.hash; new_total_supply = d.total_supply }

-- `try_fold` with `checked_add`.
unfoldable pub checked_sum : (ℕ → ℕ) → ℕ → List ℕ → Option ℕ
checked_sum amount acc [] = some acc
checked_sum amount acc (u ∷ us) =
    let rest = checked_sum amount (acc + amount u) us in
    if ltb u64_max (acc + amount u) then none else rest

unfoldable pub supply_of : (ℕ → ℕ) → List ℕ → Result StateError ℕ
supply_of amount us = elim (checked_sum amount 0 us) [ none ↦ err supply_overflow | some s ↦ ok s ]

-- The loops with `seen.insert`; `e` is the error for the key that is there already.
unfoldable pub all_new : (ℕ → StateError) → List ℕ → List ℕ → Result StateError (Unit {0})
all_new e seen [] = ok tt
all_new e seen (k ∷ ks) = do fail_if (mem k seen) (e k); all_new e (k ∷ seen) ks

-- `sort_by` on the keys, which are arrays of 32 bytes.
abbrev pub Entry : Type 0
Entry = ℕ × List ℕ

unfoldable pub insert_entry : Entry → List Entry → List Entry
insert_entry e [] = e ∷ []
insert_entry e (f ∷ fs) = if leb e.0 f.0 then e ∷ f ∷ fs else f ∷ insert_entry e fs

unfoldable pub sort_entries : List Entry → List Entry
sort_entries [] = []
sort_entries (e ∷ es) = insert_entry e (sort_entries es)

module _ (c : Crypto) where
  unfoldable pub empty_tree_hash : ℕ
  empty_tree_hash = c.digest (updates (codes "AEVUM_EMPTY_TREE_V5" ∷ []))

  unfoldable pub entry_hash : List ℕ → Entry → ℕ
  entry_hash domain e = c.digest (updates (domain ∷ array_bytes e.0 ∷ e.1 ∷ []))

  -- `compute_merkle_root`, whose callers pass no empty list.
  unfoldable pub entries_root : List Entry → List ℕ → ℕ
  entries_root [] domain = empty_tree_hash
  entries_root (e ∷ es) domain =
      merkle_root c (codes "AEVUM_MERKLE_NODE_V5") (map (entry_hash domain) (e ∷ es))

  unfoldable pub utxo_root : JtUtxo → List ℕ → ℕ
  utxo_root j [] = empty_tree_hash
  utxo_root j (u ∷ us) =
      entries_root (sort_entries (map (λ v. (j.nullifier v, j.consensus_bytes v)) (u ∷ us)))
        (codes "AEVUM_UTXO_V5")

  unfoldable pub nullifier_root : List ℕ → ℕ
  nullifier_root [] = empty_tree_hash
  nullifier_root (n ∷ ns) =
      entries_root (sort_entries (map (λ k. (k, array_bytes k)) (n ∷ ns)))
        (codes "AEVUM_NULLIFIER_V5")

  unfoldable pub compute_state_root_hash : ℕ → ℕ → ℕ → ℕ → ℕ → ℕ → ℕ
  compute_state_root_hash block_height total_supply utxos nullifiers dna_root oracle_root =
      c.digest (
        updates (
          codes "AEVUM_STATE_ROOT_V5"
          ∷ le_bytes 8 block_height
          ∷ le_bytes 8 total_supply
          ∷ array_bytes utxos
          ∷ array_bytes nullifiers
          ∷ array_bytes dna_root
          ∷ array_bytes oracle_root
          ∷ []))

  unfoldable pub genesis_state_root : ℕ
  genesis_state_root = compute_state_root_hash 0 0 empty_tree_hash empty_tree_hash 0 0

module _ (c : Crypto) (j : JtUtxo) (block_height total_supply : ℕ) (utxos spent : List ℕ)
    (dna_root oracle_root : ℕ) where
  unfoldable pub compute_state_root : Result StateError StateRootData
  compute_state_root = do
    computed ← supply_of j.amount utxos
    fail_if (if total_supply == computed then false else true)
        (supply_mismatch total_supply computed)
    all_new duplicate_utxo_nullifier [] (map j.nullifier utxos)
    all_new duplicate_nullifier [] spent
    ok (record {
      hash =
          compute_state_root_hash c block_height total_supply (utxo_root c j utxos)
            (nullifier_root c spent) dna_root oracle_root;
      block_height = block_height;
      total_supply = total_supply;
      dna_root = dna_root;
      oracle_root = oracle_root;
      utxo_count = length utxos;
      spent_nullifier_count = length spent;
      new_utxos = utxos;
      spent_nullifiers = spent;
    })

  unfoldable pub compute_state_preview : Result StateError StatePreview
  compute_state_preview = do
    computed ← supply_of j.amount utxos
    fail_if (if total_supply == computed then false else true)
        (supply_mismatch total_supply computed)
    all_new duplicate_utxo_nullifier [] (map j.nullifier utxos)
    all_new duplicate_nullifier [] spent
    ok (record {
      state_root =
          compute_state_root_hash c block_height total_supply (utxo_root c j utxos)
            (nullifier_root c spent) dna_root oracle_root;
      new_total_supply = total_supply;
    })
