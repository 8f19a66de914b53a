-- ===== src/Db/Bloom/Saved.antt =====
-- crates/aevum-db/src/bloom.rs: a filter that is written out and read back.
use native.Mathlib.Nat.{pow-le-pow_right}
use aevum_public.Base.{
  ℕ, zero, suc, ◌+◌, ◌-◌, ◌*◌, ◌/◌, ◌%◌, ◌^◌, ◌≤◌, ◌<◌, ◌≡◌, refl, true, false, some, List, [], ◌∷◌,
  ◌++◌, le→ltb, ◌==◌, length, length-append, take-append, drop-append, All, IsU64, arith,
}
use aevum_public.Base.Bytes.{le_bytes, flat, length-le_bytes}
use aevum_public.Base.Bytes.Decoding.{from_le_bytes-le_bytes}
use aevum_public.Base.Bits.{or_lt}
use aevum_public.Db.Bloom.{
  BloomFilter, or_at, set_bit, set_bits, bit_index, double_hash, add, clamp, add_all, may_contain,
  to_bytes, read_words, from_bytes,
}
use aevum_public.Db.Bloom.Members.{length-set_bits, add_all-may_contain}

length-flat_words : (ws : List ℕ) → length (flat (le_bytes 8) ws) ≡ 8 * length ws
length-flat_words [] = omega arith
length-flat_words (w ∷ ws) = omega (
  arith,
  length-append (le_bytes 8 w) (flat (le_bytes 8) ws),
  length-le_bytes 8 w,
  length-flat_words ws,
)

read_words-flat :
    (ws : List ℕ) → All IsU64 ws → read_words (length ws) (flat (le_bytes 8) ws) ≡ some ws
unfolding read_words
read_words-flat [] h = refl
read_words-flat (w ∷ ws) h =
    let rest = flat (le_bytes 8) ws in
    let size = length-le_bytes 8 w in
    rw
      (
        le→ltb (length (le_bytes 8 w ++ rest)) 8
            (omega (arith, length-append (le_bytes 8 w) rest, size)),
        drop-append (le_bytes 8 w) rest 8 size,
        read_words-flat ws h.1,
        take-append (le_bytes 8 w) rest 8 size,
        from_le_bytes-le_bytes 8 w (omega (arith, h.0)),
      )
      refl

-- A filter has words, of 64 bits each, and 1 to 32 hashes.
abbrev pub IsFilter : BloomFilter → Type 0
IsFilter f = (0 < length f.bits) × All IsU64 f.bits × (0 < f.num_hashes) × (f.num_hashes ≤ 32)

-- A filter is read back as it was written, but for the count of its keys.
pub from_bytes-to_bytes :
    (f : BloomFilter) → IsFilter f → from_bytes (to_bytes f) ≡ some (record f { count = 0 })
unfolding from_bytes to_bytes
from_bytes-to_bytes f h =
    let head = le_bytes 4 f.num_hashes in
    let body = flat (le_bytes 8) f.bits in
    let head_size = length-le_bytes 4 f.num_hashes in
    let size : length (head ++ body) ≡ 4 + 8 * length f.bits =
      omega (arith, length-append head body, head_size, length-flat_words f.bits) in
    let count : (length (head ++ body) - 4) / 8 ≡ length f.bits = omega (arith, size) in
    let aligned : (length (head ++ body) - 4) % 8 ≡ 0 = omega (arith, size) in
    let some_words : (length f.bits == 0) ≡ false = ground (arith, h.0) in
    let hashes : clamp f.num_hashes ≡ f.num_hashes = omega (arith, h.2, h.3) in
    rw
      (
        le→ltb (length (head ++ body)) 8 (omega (arith, size, h.0)),
        count,
        some_words,
        aligned,
        drop-append head body 4 head_size,
        read_words-flat f.bits h.1,
        take-append head body 4 head_size,
        from_le_bytes-le_bytes 4 f.num_hashes (omega (arith, h.3)),
        hashes,
      )
      refl

or_at-words : (i m : ℕ) (ws : List ℕ) → m < 2 ^ 64 → All IsU64 ws → All IsU64 (or_at i m ws)
unfolding or_at
or_at-words i m [] fits h = tt
or_at-words zero m (w ∷ ws) fits h = (omega (arith, or_lt 64 w m (omega (arith, h.0)) fits), h.1)
or_at-words (suc i) m (w ∷ ws) fits h = (h.0, or_at-words i m ws fits h.1)

set_bits-words : (h1 h2 n : ℕ) (bits : List ℕ) → All IsU64 bits → All IsU64 (set_bits h1 h2 n bits)
unfolding set_bits set_bit
set_bits-words h1 h2 zero bits h = h
set_bits-words h1 h2 (suc i) bits h =
    let before = set_bits h1 h2 i bits in
    let idx = bit_index before h1 h2 i in
    or_at-words (idx / 64) (2 ^ (idx % 64)) before (pow_lt (idx % 64) (omega arith))
      (set_bits-words h1 h2 i bits h)
  where
    pow_lt : (k : ℕ) → k < 64 → 2 ^ k < 2 ^ 64
    pow_lt k h =
        omega (arith, pow-le-pow_right {n = 2} (omega arith) {i = k} {j = 63} (omega arith))

module _ {K : Type 0} (hash_key : K → ℕ → ℕ) where
  add-IsFilter : (key : K) (f : BloomFilter) → IsFilter f → IsFilter (add hash_key key f)
  unfolding add
  add-IsFilter key f h =
      let d = double_hash hash_key key in
      ground (
        arith,
        length-set_bits d.0 d.1 f.num_hashes f.bits,
        set_bits-words d.0 d.1 f.num_hashes f.bits h.1,
      )

  add_all-IsFilter : (ks : List K) (f : BloomFilter) → IsFilter f → IsFilter (add_all hash_key ks f)
  unfolding add_all
  add_all-IsFilter [] f h = h
  add_all-IsFilter (k ∷ ks) f h = add_all-IsFilter ks (add hash_key k f) (add-IsFilter k f h)

  -- A filter that is written and read back is there, and finds every key that was added to it before.
  pub from_bytes-may_contain :
      (before after : List K) (key : K) (f : BloomFilter)
      → IsFilter f
      → (g : BloomFilter) × (from_bytes (to_bytes (add_all hash_key (before ++ key ∷ after) f))
          ≡ some g)
        × (may_contain hash_key key g ≡ true)
  unfolding may_contain
  from_bytes-may_contain before after key f h =
      let full = add_all hash_key (before ++ key ∷ after) f in
      (
        record full { count = 0 },
        from_bytes-to_bytes full (add_all-IsFilter (before ++ key ∷ after) f h),
        add_all-may_contain hash_key before after key f (h.0, h.2),
      )
