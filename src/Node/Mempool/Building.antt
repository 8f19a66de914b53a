-- ===== src/Node/Mempool/Building.antt =====
-- The buckets of the fees, and a reference that does not fit.
use native.Mathlib.Nat.{pow-suc}
use aevum_public.Base.{
  ℕ, zero, suc, ◌+◌, ◌-◌, ◌/◌, ◌^◌, ◌≤◌, ◌<◌, ◌≡◌, refl, inl, inr, min, true, false, none, List,
  ◌∷◌, arith, ltb, leb, ◌==◌, ==_refl, IsU64, Bool-cases,
}
use aevum_public.Base.Map.{contains_key}
use aevum_public.Node.Mempool.{TxRef, fee_buckets, highest_bit, bucket_of}
use aevum_public.Node.Mempool.Assembly.{Build, with_queue, drain}

highest_bit-brackets :
    (fuel n : ℕ)
    → 0 < n
    → n < 2 ^ fuel
    → (2 ^ highest_bit fuel n ≤ n)
      × (n < 2 ^ suc (highest_bit fuel n))
      × (highest_bit fuel n < fuel)
unfolding highest_bit
highest_bit-brackets zero n pos small = absurd (omega arith)
highest_bit-brackets (suc fuel) n pos small = elim (Bool-cases (leb n 1)) [
  | inl e ↦ rw (e, highest_bit) (ground arith, ground arith, omega arith)
  | inr e ↦
      let big : 1 < n = ground arith in
      let (low, high, short) =
        highest_bit-brackets fuel (n / 2) (omega arith) (omega (arith, pow-suc 2 fuel)) in
      let k = highest_bit fuel (n / 2) in
      rw (e, highest_bit)
        (
          omega (arith, low, pow-suc 2 k),
          omega (arith, high, pow-suc 2 (suc k), pow-suc 2 k),
          omega (arith, short),
        )
]

-- A positive `u64` fee lies in the bucket of its highest bit: at least 2 to the bucket, and less
-- than twice that.
pub bucket_of-brackets :
    (fee : ℕ)
    → 0 < fee
    → IsU64 fee
    → (bucket_of fee < fee_buckets) × (2 ^ bucket_of fee ≤ fee) × (fee < 2 ^ suc (bucket_of fee))
unfolding bucket_of
bucket_of-brackets fee pos small =
    let (low, high, short) = highest_bit-brackets 64 fee pos (omega arith) in
    let e : (fee == 0) ≡ false = ground arith in
    let m : min (highest_bit 64 fee) (fee_buckets - 1) ≡ highest_bit 64 fee =
      omega (arith, short) in
    rw (e, bucket_of) (rw m (omega (arith, short), low, high))

-- While the first reference of a bucket is indexed and does not fit, the loop pops it and puts it
-- back: whatever the fuel, it does not end.
pub drain-stuck :
    (fuel b max_tx max_bytes : ℕ) (s : Build) (r : TxRef) (q : List TxRef)
    → s.pool.buckets b ≡ r ∷ q
    → contains_key r.hash s.pool.index ≡ true
    → max_bytes < s.bytes + r.size
    → drain fuel b max_tx max_bytes s ≡ none
unfolding drain
drain-stuck zero b max_tx max_bytes s r q e there full = refl
drain-stuck (suc fuel) b max_tx max_bytes s r q e there full =
    let over : ltb max_bytes (s.bytes + r.size) ≡ true = ground arith in
    let again : Build = with_queue b (r ∷ q) (with_queue b q s) in
    let top : again.pool.buckets b ≡ r ∷ q = ground (arith, ==_refl b) in
    rw (e, drain)
      (rw (there, drain) (rw over (drain-stuck fuel b max_tx max_bytes again r q top there full)))
