-- ===== src/Node/Mempool/Assembly.antt =====
-- `build_block` of crates/aevum-node/src/mempool.rs, with its loops.
use aevum_public.Base.{
  ℕ, zero, suc, ◌+◌, ◌-◌, Bool, true, false, Option, none, some, List, [], ◌∷◌, ◌++◌, ltb, leb,
  length, wrapping_add,
}
use aevum_public.Base.Map.{lookup, remove, contains_key}
use aevum_public.Core.Transaction.{Transaction}
use aevum_public.Node.Mempool.{
  fee_buckets, TxRef, MempoolInner, drop_nullifiers, set_bucket, note_totals,
}

-- `build_block`: the pool, the block so far and its bytes.
pub record Build : Type 0 where
  pub pool : MempoolInner
  pub out : List Transaction
  pub bytes : ℕ

-- A reference that fits: its transaction goes from the pool to the block.
unfoldable pub take_ref : TxRef → Build → Build
take_ref r s = elim (lookup r.hash s.pool.tx_store) [
  | none ↦ s
  | some tx ↦ record {
    pool = record s.pool {
      tx_store = remove r.hash s.pool.tx_store;
      index = remove r.hash s.pool.index;
      nullifiers = drop_nullifiers tx.inputs s.pool.nullifiers;
      total_bytes = s.pool.total_bytes - r.size;
      stats = record s.pool.stats { txs_included = wrapping_add s.pool.stats.txs_included 1 };
    };
    out = s.out ++ tx ∷ [];
    bytes = s.bytes + r.size;
  }
]

abbrev pub with_queue : ℕ → List TxRef → Build → Build
with_queue b q s = record s { pool = record s.pool { buckets = set_bucket b q s.pool.buckets } }

-- The `while let` loop on one bucket, on fuel: `none` when the fuel runs out, and with the state
-- whether the block is full.
unfoldable pub drain : ℕ → ℕ → ℕ → ℕ → Build → Option (Bool × Build)
drain zero b max_tx max_bytes s = none
drain (suc fuel) b max_tx max_bytes s = elim (s.pool.buckets b) [
  | [] ↦ some (false, s)
  | r ∷ q ↦ elim (contains_key r.hash s.pool.index) [
    | false ↦ drain fuel b max_tx max_bytes (with_queue b q s)
    | true ↦ elim (ltb max_bytes (s.bytes + r.size)) [
      | true ↦ drain fuel b max_tx max_bytes (with_queue b (r ∷ q) (with_queue b q s))
      | false ↦ elim (leb max_tx (length (take_ref r (with_queue b q s)).out)) [
        | true ↦ some (true, take_ref r (with_queue b q s))
        | false ↦ drain fuel b max_tx max_bytes (take_ref r (with_queue b q s))
      ]
    ]
  ]
]

-- The buckets below a number, from the top one down.
unfoldable pub drain_all : ℕ → ℕ → ℕ → ℕ → Build → Option Build
drain_all fuel zero max_tx max_bytes s = some s
drain_all fuel (suc b) max_tx max_bytes s = elim (drain fuel b max_tx max_bytes s) [
  | none ↦ none
  | some (true, s') ↦ some s'
  | some (false, s') ↦ drain_all fuel b max_tx max_bytes s'
]

abbrev pub count_block : MempoolInner → MempoolInner
count_block p =
    note_totals
      (record p { stats = record p.stats { blocks_built = wrapping_add p.stats.blocks_built 1 } })

unfoldable pub build_block : ℕ → ℕ → ℕ → MempoolInner → Option (MempoolInner × List Transaction)
build_block fuel max_tx max_bytes p =
    elim (drain_all fuel fee_buckets max_tx max_bytes (record { pool = p; out = []; bytes = 0 })) [
      | none ↦ none
      | some s ↦ some (count_block s.pool, s.out)
    ]
