-- ===== src/P2p/Dht.antt =====
-- crates/aevum-p2p/src/dht.rs: the table of nodes. A bucket is a list of nodes, the table a list of
-- 256 buckets; an id is a 32-byte array, a distance its 32 bytes. Subtraction of times wraps round.
pub mod Buckets
pub mod Table
pub mod Calls
pub mod Closest
pub mod Reached
use Prim.Native.Nat.{bit_xor}
use aevum_public.Base.{
  ℕ, zero, suc, ◌+◌, ◌-◌, ◌*◌, ◌^◌, min, Bool, true, false, ◌||◌, Option, none, some, List, [], ◌∷◌,
  ◌++◌, map, ltb, leb, ◌==◌, length, take, replicate, sum_by, if◌then◌else◌, wrapping_sub,
}
use aevum_public.Base.Bytes.{array_bytes, to_array}

abbrev pub k_buckets : ℕ
k_buckets = 256

abbrev pub bucket_max : ℕ
bucket_max = 8

pub record DhtNode : Type 0 where
  pub node_id : ℕ
  pub addr : ℕ
  pub last_seen : ℕ

pub record Dht : Type 0 where
  pub buckets : List (List DhtNode)
  pub our_id : ℕ

unfoldable pub new_dht : ℕ → Dht
new_dht our_id = record { buckets = replicate k_buckets []; our_id = our_id }

-- `dist[i] = a[i] ^ b[i]`
unfoldable pub xor_bytes : List ℕ → List ℕ → List ℕ
xor_bytes [] bs = []
xor_bytes (a ∷ as') [] = []
xor_bytes (a ∷ as') (b ∷ bs) = bit_xor a b ∷ xor_bytes as' bs

unfoldable pub distance : ℕ → ℕ → List ℕ
distance a b = xor_bytes (array_bytes a) (array_bytes b)

-- `u8::leading_zeros`
unfoldable pub leading_zeros : ℕ → ℕ
leading_zeros n =
    if leb 128 n
    then 0
    else if leb 64 n
    then 1
    else if leb 32 n
    then 2
    else if leb 16 n
    then 3
    else if leb 8 n
    then 4
    else if leb 4 n
    then 5
    else if leb 2 n
    then 6
    else if leb 1 n
    then 7
    else 8

-- The loop of `bucket_index` from the byte `i` on.
unfoldable pub index_from : ℕ → List ℕ → ℕ
index_from i [] = 0
index_from i (d ∷ ds) =
    let later = index_from (i + 1) ds in
    if d == 0 then later else min (i * 8 + (7 - leading_zeros d)) (k_buckets - 1)

unfoldable pub bucket_index : List ℕ → ℕ
bucket_index = index_from 0

-- `iter_mut().find(..)` and what is written to the node that it finds.
unfoldable pub has_node : ℕ → List DhtNode → Bool
has_node id [] = false
has_node id (n ∷ ns) = n.node_id == id || has_node id ns

unfoldable pub refresh : DhtNode → List DhtNode → List DhtNode
refresh node [] = []
refresh node (n ∷ ns) =
    if n.node_id == node.node_id
    then record n { addr = node.addr; last_seen = node.last_seen } ∷ ns
    else n ∷ refresh node ns

-- `sort_by_key`, which keeps the order of equal keys.
unfoldable pub insert_by : (DhtNode → ℕ) → DhtNode → List DhtNode → List DhtNode
insert_by key n [] = n ∷ []
insert_by key n (m ∷ ms) = if leb (key n) (key m) then n ∷ m ∷ ms else m ∷ insert_by key n ms

unfoldable pub sort_by_key : (DhtNode → ℕ) → List DhtNode → List DhtNode
sort_by_key key [] = []
sort_by_key key (n ∷ ns) = insert_by key n (sort_by_key key ns)

-- `bucket[0] = node`
unfoldable pub set_first : DhtNode → List DhtNode → List DhtNode
set_first node [] = []
set_first node (n ∷ ns) = node ∷ ns

unfoldable pub bucket_add : DhtNode → List DhtNode → List DhtNode
bucket_add node bucket =
    if has_node node.node_id bucket
    then refresh node bucket
    else if ltb (length bucket) bucket_max
    then bucket ++ node ∷ []
    else set_first node (sort_by_key (λ n. n.last_seen) bucket)

-- `self.buckets[idx]` as a place and as a value.
unfoldable pub update_at {ℓ} : {A : Type ℓ} → ℕ → (A → A) → List A → List A
update_at i f [] = []
update_at zero f (x ∷ xs) = f x ∷ xs
update_at (suc i) f (x ∷ xs) = x ∷ update_at i f xs

unfoldable pub bucket_at : ℕ → List (List DhtNode) → List DhtNode
bucket_at i [] = []
bucket_at zero (b ∷ bs) = b
bucket_at (suc i) (b ∷ bs) = bucket_at i bs

unfoldable pub index_of : Dht → ℕ → ℕ
index_of t id = bucket_index (distance t.our_id id)

unfoldable pub add_or_update : ℕ → ℕ → ℕ → Dht → Dht
add_or_update node_id addr now t = if node_id == t.our_id then t else record t {
  buckets =
      update_at (index_of t node_id)
        (bucket_add (record { node_id = node_id; addr = addr; last_seen = now })) t.buckets;
}

unfoldable pub is_alive : ℕ → ℕ → DhtNode → Bool
is_alive now timeout_secs n = ltb (wrapping_sub now n.last_seen) timeout_secs

unfoldable pub retain : (DhtNode → Bool) → List DhtNode → List DhtNode
retain keep [] = []
retain keep (n ∷ ns) = let rest = retain keep ns in if keep n then n ∷ rest else rest

unfoldable pub cleanup : ℕ → ℕ → Dht → Dht
cleanup now timeout_secs t = record t {
  buckets = map (retain (is_alive now timeout_secs)) t.buckets;
}

unfoldable pub total_nodes : Dht → ℕ
total_nodes t = sum_by length t.buckets

unfoldable pub alive_nodes : ℕ → ℕ → Dht → ℕ
alive_nodes now timeout_secs t =
    sum_by (λ b. length (retain (is_alive now timeout_secs) b)) t.buckets

-- One turn and all turns of the loop of `find_closest`: `left` counts the buckets that are still to
-- be taken on the left, so that the index there is `left - 1`. Each test of the condition takes one
-- unit of fuel, and a loop that still runs when there is none left gives none.
unfoldable pub gather : ℕ → (ℕ → List DhtNode) → ℕ → ℕ → ℕ → List DhtNode → Option (List DhtNode)
gather zero alive_at count left right closest = none
gather (suc fuel) alive_at count left right closest =
    let on_left = if left == 0 then [] else alive_at (left - 1) in
    let on_right = if ltb right k_buckets then alive_at right else [] in
    let more =
      gather fuel alive_at count (left - 1) (if ltb right k_buckets then right + 1 else right)
        (closest ++ (on_left ++ on_right)) in
    if leb count (length closest)
    then some closest
    else if left == 0
    then (if ltb right k_buckets then more else some closest)
    else more

-- The order of `[u64; 4]` is that of the number that the bytes of a distance spell.
unfoldable pub distance_key : ℕ → DhtNode → ℕ
distance_key target_id n = to_array (distance n.node_id target_id)

unfoldable pub find_closest : ℕ → ℕ → ℕ → ℕ → Dht → Option (List DhtNode)
find_closest target_id count now timeout_secs t =
    let start = bucket_index (distance target_id t.our_id) in
    let alive_at : ℕ → List DhtNode =
      λ i. retain (is_alive now timeout_secs) (bucket_at i t.buckets) in
    elim (gather (k_buckets + 1) alive_at count (start + 1) (start + 1) []) [
      | none ↦ none
      | some nodes ↦ some (take count (sort_by_key (distance_key target_id) nodes))
    ]
