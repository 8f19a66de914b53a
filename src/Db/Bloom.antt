-- ===== src/Db/Bloom.antt =====
-- crates/aevum-db/src/bloom.rs: the Bloom filter. Words are numbers below 2 ^ 64; `hash_key` is what
-- the hasher of `rustc_hash` gives for a key behind a seed, and `estimate` the number of hashes that
-- `new` computes with floating-point numbers.
pub mod Members
pub mod Saved
use Prim.Native.Nat.{bit_and, bit_or}
use aevum_public.Base.{
  ℕ, zero, suc, ◌+◌, ◌-◌, ◌*◌, ◌/◌, ◌%◌, ◌^◌, min, max, Bool, true, false, ◌||◌, Option, none, some,
  List, [], ◌∷◌, ◌++◌, ltb, ◌==◌, length, is_empty, replicate, take, drop, if◌then◌else◌,
  wrapping_add, wrapping_mul,
}
use aevum_public.Base.Bytes.{le_bytes, flat, from_le_bytes}

pub record BloomFilter : Type 0 where
  pub bits : List ℕ
  pub num_hashes : ℕ
  pub count : ℕ

-- `n.max(1).min(32)`
abbrev pub clamp : ℕ → ℕ
clamp n = min (max n 1) 32

unfoldable pub new_filter : (ℕ → ℕ → ℕ) → ℕ → ℕ → BloomFilter
new_filter estimate expected_keys bits_per_key =
    let bits = max (wrapping_mul expected_keys (max bits_per_key 1)) 64 in
    record {
      bits = replicate (wrapping_add bits 63 / 64) 0;
      num_hashes = clamp (estimate bits (max expected_keys 1));
      count = 0;
    }

unfoldable pub from_raw : List ℕ → ℕ → BloomFilter
from_raw bits num_hashes = record {
  bits = if is_empty bits then replicate 1 0 else bits;
  num_hashes = clamp num_hashes;
  count = 0;
}

-- `bits[i]` and `bits[i] |= m` with the index in range, which an index of a bit is.
unfoldable pub word_at : ℕ → List ℕ → ℕ
word_at i [] = 0
word_at zero (w ∷ ws) = w
word_at (suc i) (w ∷ ws) = word_at i ws

unfoldable pub or_at : ℕ → ℕ → List ℕ → List ℕ
or_at i m [] = []
or_at zero m (w ∷ ws) = bit_or w m ∷ ws
or_at (suc i) m (w ∷ ws) = w ∷ or_at i m ws

unfoldable pub bit_index : List ℕ → ℕ → ℕ → ℕ → ℕ
bit_index bits h1 h2 i = wrapping_add h1 (wrapping_mul i h2) % (length bits * 64)

-- `bits[idx / 64] |= 1u64 << (idx % 64)`, and `bits[idx / 64] & (1u64 << (idx % 64)) == 0`.
unfoldable pub set_bit : ℕ → List ℕ → List ℕ
set_bit idx bits = or_at (idx / 64) (2 ^ (idx % 64)) bits

unfoldable pub is_clear : ℕ → List ℕ → Bool
is_clear idx bits = bit_and (word_at (idx / 64) bits) (2 ^ (idx % 64)) == 0

-- The loops `for i in 0..n`, the last round first to be written down.
unfoldable pub set_bits : ℕ → ℕ → ℕ → List ℕ → List ℕ
set_bits h1 h2 zero bits = bits
set_bits h1 h2 (suc i) bits =
    let before = set_bits h1 h2 i bits in set_bit (bit_index before h1 h2 i) before

unfoldable pub all_set : ℕ → ℕ → ℕ → List ℕ → Bool
all_set h1 h2 zero bits = true
all_set h1 h2 (suc i) bits =
    let before = all_set h1 h2 i bits in
    if before then (if is_clear (bit_index bits h1 h2 i) bits then false else true) else false

module _ {K : Type 0} (hash_key : K → ℕ → ℕ) where
  unfoldable pub double_hash : K → ℕ × ℕ
  double_hash key = (hash_key key 0x5bd1e995, bit_or (hash_key key 0xc6a4a793) 1)

  unfoldable pub add : K → BloomFilter → BloomFilter
  add key f = if is_empty f.bits then f else record f {
    bits = set_bits (double_hash key).0 (double_hash key).1 f.num_hashes f.bits;
    count = wrapping_add f.count 1;
  }

  unfoldable pub may_contain : K → BloomFilter → Bool
  may_contain key f =
      if is_empty f.bits || f.num_hashes == 0
      then false
      else all_set (double_hash key).0 (double_hash key).1 f.num_hashes f.bits

  -- A call of `add` for each key.
  unfoldable pub add_all : List K → BloomFilter → BloomFilter
  add_all [] f = f
  add_all (k ∷ ks) f = add_all ks (add k f)

unfoldable pub to_bytes : BloomFilter → List ℕ
to_bytes f = le_bytes 4 f.num_hashes ++ flat (le_bytes 8) f.bits

-- The loop over the words, `words` of them.
unfoldable pub read_words : ℕ → List ℕ → Option (List ℕ)
read_words zero bytes = some []
read_words (suc n) bytes =
    if ltb (length bytes) 8 then none else elim (read_words n (drop 8 bytes)) [
      | none ↦ none
      | some ws ↦ some (from_le_bytes (take 8 bytes) ∷ ws)
    ]

unfoldable pub from_bytes : List ℕ → Option BloomFilter
from_bytes bytes =
    let words = (length bytes - 4) / 8 in
    if ltb (length bytes) 8
    then none
    else if words == 0
    then none
    else if ltb 0 ((length bytes - 4) % 8)
    then none
    else elim (read_words words (drop 4 bytes)) [
      | none ↦ none
      | some bits ↦
          some
            (record { bits = bits; num_hashes = clamp (from_le_bytes (take 4 bytes)); count = 0 })
    ]
