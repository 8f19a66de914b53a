-- ===== src/Node/Mempool.antt =====
-- crates/aevum-node/src/mempool.rs: the pool behind the lock. The methods of `Mempool` take the lock
-- and call these. `HashMap`s are `Map`s, the 64 queues are a function of the bucket, a queue is a
-- list with its front first, and the clock is an argument, in nanoseconds. The counters of the
-- statistics wrap round at 2 ^ 64, which the sums of sizes do not reach.
pub mod Consistent
pub mod Calls
pub mod Assembly
pub mod Building
pub mod Ending
use aevum_public.Base.{
  ℕ, zero, suc, ◌+◌, ◌-◌, ◌*◌, ◌/◌, ◌%◌, ◌^◌, min, max, Bool, true, false, not, ◌||◌, Option, none,
  some, List, [], ◌∷◌, ◌++◌, ltb, leb, ◌==◌, length, sum_by, if◌then◌else◌, saturating_add,
  saturating_mul, wrapping_add,
}
use aevum_public.Base.Map.{Map, lookup, insert, remove, contains_key}
use aevum_public.Core.Transaction.{Transaction, TxInput}

abbrev pub fee_buckets : ℕ
fee_buckets = 64

abbrev pub min_fee : ℕ
min_fee = 1

abbrev pub max_mempool_tx : ℕ
max_mempool_tx = 50_000

abbrev pub max_mempool_bytes : ℕ
max_mempool_bytes = 128 * 1024 * 1024

abbrev pub tx_ttl : ℕ
tx_ttl = 3600 * 10 ^ 9

pub record TxRef : Type 0 where
  pub hash : ℕ
  pub fee : ℕ
  pub size : ℕ
  pub poh_tick : ℕ
  pub inserted_at : ℕ

-- `bucket_depths` is filled in by `get_stats` alone.
pub record MempoolStats : Type 0 where
  pub total_tx : ℕ
  pub total_bytes : ℕ
  pub fee_watermark : ℕ
  pub rejected_low_fee : ℕ
  pub rejected_duplicate : ℕ
  pub rejected_nullifier : ℕ
  pub rejected_full : ℕ
  pub evicted_stale : ℕ
  pub evicted_low_fee : ℕ
  pub blocks_built : ℕ
  pub txs_included : ℕ

abbrev pub zero_stats : MempoolStats
zero_stats = record {
  total_tx = 0;
  total_bytes = 0;
  fee_watermark = 0;
  rejected_low_fee = 0;
  rejected_duplicate = 0;
  rejected_nullifier = 0;
  rejected_full = 0;
  evicted_stale = 0;
  evicted_low_fee = 0;
  blocks_built = 0;
  txs_included = 0;
}

pub record MempoolInner : Type 0 where
  pub buckets : ℕ → List TxRef
  pub index : Map TxRef
  pub nullifiers : Map ℕ
  pub tx_store : Map Transaction
  pub total_bytes : ℕ
  pub min_fee_watermark : ℕ
  pub stats : MempoolStats

unfoldable pub new_pool : MempoolInner
new_pool = record {
  buckets = λ b. [];
  index = [];
  nullifiers = [];
  tx_store = [];
  total_bytes = 0;
  min_fee_watermark = min_fee;
  stats = zero_stats;
}

-- `63 - fee.leading_zeros()`, the position of the highest bit; a `u64` takes at most 64 rounds.
unfoldable pub highest_bit : ℕ → ℕ → ℕ
highest_bit zero n = 0
highest_bit (suc fuel) n = let rest = highest_bit fuel (n / 2) in if leb n 1 then 0 else suc rest

unfoldable pub bucket_of : ℕ → ℕ
bucket_of fee = if fee == 0 then 0 else min (highest_bit 64 fee) (fee_buckets - 1)

unfoldable pub estimated_size : Transaction → ℕ
estimated_size tx =
    saturating_add
      (saturating_add (saturating_add 63 (saturating_mul (length tx.inputs) 204))
        (saturating_mul (length tx.outputs) 174))
      (sum_by (λ w. saturating_add 4 (length w)) tx.heartbeat_witnesses % 2 ^ 64)

-- `for inp in &tx.inputs { if self.nullifiers.contains_key(..) { .. return false; } }`
abbrev pub any_spent : Map ℕ → List TxInput → Bool
any_spent m [] = false
any_spent m (i ∷ is) = contains_key i.nullifier m || any_spent m is

unfoldable pub add_nullifiers : ℕ → List TxInput → Map ℕ → Map ℕ
add_nullifiers hash [] m = m
add_nullifiers hash (i ∷ is) m = add_nullifiers hash is (insert i.nullifier hash m)

unfoldable pub drop_nullifiers : List TxInput → Map ℕ → Map ℕ
drop_nullifiers [] m = m
drop_nullifiers (i ∷ is) m = drop_nullifiers is (remove i.nullifier m)

abbrev pub set_bucket : ℕ → List TxRef → (ℕ → List TxRef) → ℕ → List TxRef
set_bucket b q buckets j = if j == b then q else buckets j

-- `stats.total_tx = self.index.len(); stats.total_bytes = self.total_bytes;`
abbrev pub note_totals : MempoolInner → MempoolInner
note_totals p = record p {
  stats = record p.stats { total_tx = length p.index; total_bytes = p.total_bytes };
}

abbrev pub ref_of : Transaction → ℕ → ℕ → TxRef
ref_of tx poh_tick now = record {
  hash = tx.tx_hash;
  fee = tx.fee;
  size = min (estimated_size tx) max_mempool_bytes;
  poh_tick = poh_tick;
  inserted_at = now;
}

-- The part of `insert` behind its checks.
unfoldable pub store : MempoolInner → Transaction → ℕ → ℕ → MempoolInner
store p tx poh_tick now =
    let r = ref_of tx poh_tick now in
    let b = bucket_of tx.fee in
    note_totals (record p {
      buckets = set_bucket b (p.buckets b ++ r ∷ []) p.buckets;
      index = insert tx.tx_hash r p.index;
      nullifiers = add_nullifiers tx.tx_hash tx.inputs p.nullifiers;
      tx_store = insert tx.tx_hash tx p.tx_store;
      total_bytes = p.total_bytes + r.size;
    })

unfoldable pub insert_tx : MempoolInner → Transaction → ℕ → ℕ → MempoolInner × Bool
insert_tx p tx poh_tick now =
    if ltb tx.fee p.min_fee_watermark
    then (
      record p {
        stats = record p.stats { rejected_low_fee = wrapping_add p.stats.rejected_low_fee 1 };
      },
      false,
    )
    else if contains_key tx.tx_hash p.index
    then (
      record p {
        stats = record p.stats { rejected_duplicate = wrapping_add p.stats.rejected_duplicate 1 };
      },
      false,
    )
    else if any_spent p.nullifiers tx.inputs
    then (
      record p {
        stats = record p.stats { rejected_nullifier = wrapping_add p.stats.rejected_nullifier 1 };
      },
      false,
    )
    else if leb max_mempool_tx (length p.index)
        || ltb max_mempool_bytes (p.total_bytes + (ref_of tx poh_tick now).size)
    then (
      record p { stats = record p.stats { rejected_full = wrapping_add p.stats.rejected_full 1 } },
      false,
    )
    else (store p tx poh_tick now, true)

-- `if let Some(tx) = self.tx_store.remove(h) { for inp in &tx.inputs { .. } }`
abbrev pub forget_tx : ℕ → MempoolInner → MempoolInner
forget_tx h p = elim (lookup h p.tx_store) [
  | none ↦ p
  | some tx ↦ record p {
    tx_store = remove h p.tx_store;
    nullifiers = drop_nullifiers tx.inputs p.nullifiers;
  }
]

-- `if let Some(txref) = self.index.remove(h) { self.total_bytes = ..; }`
abbrev pub forget_ref : ℕ → MempoolInner → MempoolInner
forget_ref h p = elim (lookup h p.index) [
  | none ↦ p
  | some r ↦ record p { index = remove h p.index; total_bytes = p.total_bytes - r.size }
]

-- One round of `remove_transactions`: a transaction that is not in the index is left alone.
unfoldable pub remove_one : ℕ → MempoolInner → MempoolInner
remove_one h p = elim (lookup h p.index) [ none ↦ p | some r ↦ forget_tx h (forget_ref h p) ]

unfoldable pub remove_loop : List ℕ → MempoolInner → MempoolInner
remove_loop [] p = p
remove_loop (h ∷ hs) p = remove_loop hs (remove_one h p)

unfoldable pub remove_transactions : List ℕ → MempoolInner → MempoolInner
remove_transactions hs p = note_totals (remove_loop hs p)

abbrev pub is_stale : ℕ → TxRef → Bool
is_stale now r = ltb tx_ttl (now - r.inserted_at)

abbrev pub stale_hashes : ℕ → List TxRef → List ℕ
stale_hashes now [] = []
stale_hashes now (r ∷ q) =
    if is_stale now r then r.hash ∷ stale_hashes now q else stale_hashes now q

abbrev pub retain : ℕ → List TxRef → List TxRef
retain now [] = []
retain now (r ∷ q) = if is_stale now r then retain now q else r ∷ retain now q

-- The stale hashes of the buckets below a number, in the order of the buckets.
unfoldable pub all_stale : ℕ → ℕ → (ℕ → List TxRef) → List ℕ
all_stale now zero buckets = []
all_stale now (suc b) buckets = all_stale now b buckets ++ stale_hashes now (buckets b)

-- Unlike `remove_transactions`, the second loop looks into the index and the store separately.
unfoldable pub evict_loop : List ℕ → MempoolInner → MempoolInner
evict_loop [] p = p
evict_loop (h ∷ hs) p = evict_loop hs (forget_tx h (forget_ref h p))

unfoldable pub evict_stale : ℕ → MempoolInner → MempoolInner × ℕ
evict_stale now p =
    let hs = all_stale now fee_buckets p.buckets in
    let q = evict_loop hs (record p { buckets = λ b. retain now (p.buckets b) }) in
    let counted : MempoolInner = record q {
      stats = record q.stats { evicted_stale = wrapping_add q.stats.evicted_stale (length hs) };
    } in
    (note_totals counted, length hs)

unfoldable pub adjust_fee_floor : Bool → MempoolInner → MempoolInner
adjust_fee_floor congestion p =
    let floor =
      if congestion
      then saturating_add p.min_fee_watermark 1
      else max (p.min_fee_watermark - 1) min_fee in
    record p { min_fee_watermark = floor; stats = record p.stats { fee_watermark = floor } }
