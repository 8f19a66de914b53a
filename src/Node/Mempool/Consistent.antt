-- ===== src/Node/Mempool/Consistent.antt =====
-- What it is for the maps of the pool to fit together, and what each map operation does to it.
use aevum_public.Base.{
  ℕ, ◌+◌, ◌≤◌, ◌≡◌, refl, inl, inr, true, false, none, some, List, [], ◌∷◌, arith, ◌==◌, mem,
  length, sum_by, IsDistinct, if◌then◌else◌, Bool-cases,
}
use aevum_public.Base.Map.{
  Map, lookup, insert, remove, contains_key, keys, lookup-insert, lookup-remove,
}
use aevum_public.Core.Transaction.{Transaction, TxInput}
use aevum_public.Core.Block.Scanning.{nullifiers}
use aevum_public.Node.Mempool.{
  TxRef, MempoolInner, max_mempool_tx, max_mempool_bytes, any_spent, add_nullifiers,
  drop_nullifiers,
}

-- The sizes that the index records, added up.
abbrev pub sizes : Map TxRef → ℕ
sizes = sum_by (λ e. e.1.size)

pub sizes-insert :
    (k : ℕ) (r : TxRef) (m : Map TxRef)
    → contains_key k m ≡ false
    → sizes (insert k r m) ≡ sizes m + r.size
sizes-insert k r [] h = omega arith
sizes-insert k r ((j, w) ∷ m) h = ground (arith, sizes-insert k r m)

sizes-remove_absent :
    (k : ℕ) (m : Map TxRef) → mem k (keys m) ≡ false → sizes (remove k m) ≡ sizes m
sizes-remove_absent k [] h = refl
sizes-remove_absent k ((j, w) ∷ m) h = ground (arith, sizes-remove_absent k m)

pub sizes-remove :
    (k : ℕ) (r : TxRef) (m : Map TxRef)
    → IsDistinct (keys m)
    → lookup k m ≡ some r
    → sizes (remove k m) + r.size ≡ sizes m
sizes-remove k r [] d h = absurd (cc)
sizes-remove k r ((j, w) ∷ m) d h =
    ground (arith, sizes-remove k r m d.1, sizes-remove_absent j m d.0)

pub lookup-add_nullifiers :
    (n h : ℕ) (is : List TxInput) (m : Map ℕ)
    → lookup n (add_nullifiers h is m) ≡ (if mem n (nullifiers is) then some h else lookup n m)
unfolding add_nullifiers
lookup-add_nullifiers n h [] m = refl
lookup-add_nullifiers n h (i ∷ is) m =
    ground (
      arith,
      lookup-add_nullifiers n h is (insert i.nullifier h m),
      lookup-insert n i.nullifier h m,
    )

pub lookup-drop_nullifiers :
    (n : ℕ) (is : List TxInput) (m : Map ℕ)
    → lookup n (drop_nullifiers is m) ≡ (if mem n (nullifiers is) then none else lookup n m)
unfolding drop_nullifiers
lookup-drop_nullifiers n [] m = refl
lookup-drop_nullifiers n (i ∷ is) m =
    ground
      (arith, lookup-drop_nullifiers n is (remove i.nullifier m), lookup-remove n i.nullifier m)

pub any_spent-mem :
    (n : ℕ) (is : List TxInput) (m : Map ℕ)
    → any_spent m is ≡ false
    → mem n (nullifiers is) ≡ true
    → lookup n m ≡ none
any_spent-mem n [] m h k = absurd (cc)
any_spent-mem n (i ∷ is) m h k = elim (Bool-cases (n == i.nullifier)) [
  | inl e ↦ let same : n ≡ i.nullifier = ground arith in rw same (ground arith)
  | inr e ↦ any_spent-mem n is m (ground arith) (ground arith)
]

-- The bytes are the sizes of the index and within the limit, the entries are within theirs, every
-- stored transaction is indexed, and owns each nullifier that it spends.
pub record IsConsistent (p : MempoolInner) : Type 0 where
  pub bytes : p.total_bytes ≡ sizes p.index
  pub small : p.total_bytes ≤ max_mempool_bytes
  pub few : length p.index ≤ max_mempool_tx
  pub distinct : IsDistinct (keys p.index)
  pub indexed :
      (h : ℕ) (tx : Transaction) → lookup h p.tx_store ≡ some tx → contains_key h p.index ≡ true
  pub owned :
      (h n : ℕ) (tx : Transaction)
      → lookup h p.tx_store ≡ some tx
      → mem n (nullifiers tx.inputs) ≡ true
      → lookup n p.nullifiers ≡ some h
