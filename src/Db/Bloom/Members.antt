-- ===== src/Db/Bloom/Members.antt =====
-- crates/aevum-db/src/bloom.rs: the keys that were added are found.
use Prim.Native.Nat.{bit_and, bit_or}
use native.Mathlib.Nat.{one-le-pow}
use aevum_public.Base.{
  ℕ, zero, suc, ◌+◌, ◌-◌, ◌/◌, ◌%◌, ◌^◌, ◌≤◌, ◌<◌, ◌≡◌, refl, ap, ◌∙◌, true, false, List, [], ◌∷◌,
  ◌++◌, length, arith, ◌↔◌, max, wrapping_mul, wrapping_add, length-replicate,
}
use aevum_public.Base.Bits.{and-or_self, and-or_le}
use aevum_public.Db.Bloom.{
  BloomFilter, word_at, or_at, bit_index, set_bit, is_clear, set_bits, all_set, double_hash, add,
  may_contain, add_all, new_filter,
}

length-or_at : (i m : ℕ) (ws : List ℕ) → length (or_at i m ws) ≡ length ws
unfolding or_at
length-or_at i m [] = refl
length-or_at zero m (w ∷ ws) = refl
length-or_at (suc i) m (w ∷ ws) = ap suc (length-or_at i m ws)

word_at-or_at :
    (i m : ℕ) (ws : List ℕ) → i < length ws → word_at i (or_at i m ws) ≡ bit_or (word_at i ws) m
unfolding word_at or_at
word_at-or_at i m [] h = absurd (omega arith)
word_at-or_at zero m (w ∷ ws) h = refl
word_at-or_at (suc i) m (w ∷ ws) h = word_at-or_at i m ws (omega arith)

-- No word loses a digit.
word_at-or_at_le :
    (i j m mask : ℕ) (ws : List ℕ)
    → bit_and (word_at j ws) mask ≤ bit_and (word_at j (or_at i m ws)) mask
unfolding word_at or_at
word_at-or_at_le i j m mask [] = omega arith
word_at-or_at_le zero zero m mask (w ∷ ws) = and-or_le (w + m + mask) w m mask (omega arith)
word_at-or_at_le zero (suc j) m mask (w ∷ ws) = omega arith
word_at-or_at_le (suc i) zero m mask (w ∷ ws) = omega arith
word_at-or_at_le (suc i) (suc j) m mask (w ∷ ws) = word_at-or_at_le i j m mask ws

length-set_bit : (idx : ℕ) (bits : List ℕ) → length (set_bit idx bits) ≡ length bits
unfolding set_bit
length-set_bit idx bits = length-or_at (idx / 64) (2 ^ (idx % 64)) bits

is_clear-set_bit :
    (idx : ℕ) (bits : List ℕ) → idx / 64 < length bits → is_clear idx (set_bit idx bits) ≡ false
unfolding is_clear set_bit
is_clear-set_bit idx bits h =
    let mask = 2 ^ (idx % 64) in
    let word = word_at (idx / 64) bits in
    let found : bit_and (word_at (idx / 64) (or_at (idx / 64) mask bits)) mask ≡ mask =
      ap (λ w. bit_and w mask) (word_at-or_at (idx / 64) mask bits h)
      ∙ and-or_self (word + mask) word mask (omega arith) in
    ground (arith, found, one-le-pow (idx % 64) 2)

is_clear-keeps :
    (j idx : ℕ) (bits : List ℕ) → is_clear j bits ≡ false → is_clear j (set_bit idx bits) ≡ false
unfolding is_clear set_bit
is_clear-keeps j idx bits h =
    ground (arith, word_at-or_at_le (idx / 64) (j / 64) (2 ^ (idx % 64)) (2 ^ (j % 64)) bits)

bit_index-length :
    (a b : List ℕ) (h1 h2 i : ℕ) → length a ≡ length b → bit_index a h1 h2 i ≡ bit_index b h1 h2 i
unfolding bit_index
bit_index-length a b h1 h2 i h = rw h refl

pub length-set_bits : (h1 h2 n : ℕ) (bits : List ℕ) → length (set_bits h1 h2 n bits) ≡ length bits
unfolding set_bits
length-set_bits h1 h2 zero bits = refl
length-set_bits h1 h2 (suc i) bits = length-set_bit _ _ ∙ length-set_bits h1 h2 i bits

all_set-set_bit :
    (h1 h2 n idx : ℕ) (bits : List ℕ)
    → all_set h1 h2 n bits ≡ true
    → all_set h1 h2 n (set_bit idx bits) ≡ true
unfolding all_set
all_set-set_bit h1 h2 zero idx bits h = refl
all_set-set_bit h1 h2 (suc i) idx bits h = ground (
  arith,
  all_set-set_bit h1 h2 i idx bits,
  bit_index-length (set_bit idx bits) bits h1 h2 i (length-set_bit idx bits),
  is_clear-keeps (bit_index bits h1 h2 i) idx bits,
)

all_set-keeps :
    (h1 h2 n k1 k2 m : ℕ) (bits : List ℕ)
    → all_set h1 h2 n bits ≡ true
    → all_set h1 h2 n (set_bits k1 k2 m bits) ≡ true
unfolding set_bits
all_set-keeps h1 h2 n k1 k2 zero bits h = h
all_set-keeps h1 h2 n k1 k2 (suc m) bits h =
    all_set-set_bit h1 h2 n _ (set_bits k1 k2 m bits) (all_set-keeps h1 h2 n k1 k2 m bits h)

bit_index-lt :
    (bits : List ℕ) (h1 h2 i : ℕ) → 0 < length bits → bit_index bits h1 h2 i / 64 < length bits
unfolding bit_index
bit_index-lt bits h1 h2 i h = omega arith

all_set-set_bits :
    (h1 h2 n : ℕ) (bits : List ℕ) → 0 < length bits → all_set h1 h2 n (set_bits h1 h2 n bits) ≡ true
unfolding all_set set_bits
all_set-set_bits h1 h2 zero bits h = refl
all_set-set_bits h1 h2 (suc i) bits h =
    let before = set_bits h1 h2 i bits in
    let idx = bit_index before h1 h2 i in
    let inside : idx / 64 < length before =
      bit_index-lt before h1 h2 i (omega (arith, length-set_bits h1 h2 i bits)) in
    rw
      (
        all_set-set_bit h1 h2 i idx before (all_set-set_bits h1 h2 i bits h),
        bit_index-length (set_bit idx before) before h1 h2 i (length-set_bit idx before),
        is_clear-set_bit idx before inside,
      )
      refl

module _ {K : Type 0} (hash_key : K → ℕ → ℕ) where
  -- A filter that can hold a key: it has a word, and hashes.
  abbrev pub IsOpen : BloomFilter → Type 0
  IsOpen f = (0 < length f.bits) × (0 < f.num_hashes)

  add-IsOpen : (key : K) (f : BloomFilter) → IsOpen f → IsOpen (add hash_key key f)
  unfolding add
  add-IsOpen key f h = ground (
    arith,
    length-set_bits (double_hash hash_key key).0 (double_hash hash_key key).1 f.num_hashes f.bits,
  )

  -- The bits that stand for a key.
  abbrev IsMarked : K → BloomFilter → Type 0
  IsMarked key f =
      all_set (double_hash hash_key key).0 (double_hash hash_key key).1 f.num_hashes f.bits ≡ true

  may_contain_iff :
      (key : K) (f : BloomFilter) → IsOpen f → (may_contain hash_key key f ≡ true) ↔ IsMarked key f
  unfolding may_contain
  may_contain_iff key f h = ground arith

  add-IsMarked : (key : K) (f : BloomFilter) → IsOpen f → IsMarked key (add hash_key key f)
  unfolding add
  add-IsMarked key f h =
      let d = double_hash hash_key key in
      ground (arith, all_set-set_bits d.0 d.1 f.num_hashes f.bits h.0)

  add-keeps :
      (key other : K) (f : BloomFilter)
      → IsOpen f
      → IsMarked key f
      → IsMarked key (add hash_key other f)
  unfolding add
  add-keeps key other f h marked =
      let d = double_hash hash_key key in
      let o = double_hash hash_key other in
      ground (arith, all_set-keeps d.0 d.1 f.num_hashes o.0 o.1 f.num_hashes f.bits marked)

  add_all-IsOpen : (ks : List K) (f : BloomFilter) → IsOpen f → IsOpen (add_all hash_key ks f)
  unfolding add_all
  add_all-IsOpen [] f h = h
  add_all-IsOpen (k ∷ ks) f h = add_all-IsOpen ks (add hash_key k f) (add-IsOpen k f h)

  add_all-keeps :
      (key : K) (ks : List K) (f : BloomFilter)
      → IsOpen f
      → IsMarked key f
      → IsMarked key (add_all hash_key ks f)
  unfolding add_all
  add_all-keeps key [] f h marked = marked
  add_all-keeps key (k ∷ ks) f h marked =
      add_all-keeps key ks (add hash_key k f) (add-IsOpen k f h) (add-keeps key k f h marked)

  -- Every key that was added to a filter that has a word and hashes is found, whatever was added
  -- before it and after it.
  pub add_all-may_contain :
      (before after : List K) (key : K) (f : BloomFilter)
      → IsOpen f
      → may_contain hash_key key (add_all hash_key (before ++ key ∷ after) f) ≡ true
  unfolding add_all
  add_all-may_contain [] after key f h =
      let added = add hash_key key f in
      let room = add-IsOpen key f h in
      (may_contain_iff key (add_all hash_key after added) (add_all-IsOpen after added room)).1
        (add_all-keeps key after added room (add-IsMarked key f h))
  add_all-may_contain (k ∷ before) after key f h =
      add_all-may_contain before after key (add hash_key k f) (add-IsOpen k f h)

  -- A filter that `new` makes is open for keys, whatever number of hashes was estimated.
  pub new_filter-IsOpen :
      (estimate : ℕ → ℕ → ℕ) (expected_keys bits_per_key : ℕ)
      → wrapping_mul expected_keys (max bits_per_key 1) < 2 ^ 64 - 64
      → IsOpen (new_filter estimate expected_keys bits_per_key)
  unfolding new_filter
  new_filter-IsOpen estimate n b h =
      let bits = max (wrapping_mul n (max b 1)) 64 in
      (omega (arith, length-replicate {A = ℕ} (wrapping_add bits 63 / 64) 0), omega arith)
