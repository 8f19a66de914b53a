-- ===== src/L2/Transaction/Signing.antt =====
-- The validity of signed transactions, and what the hash commits to.
use aevum_public.Base.{
  ℕ, ◌+◌, ◌/◌, ◌≤◌, ◌<◌, ◌≡◌, refl, ◌⊎◌, inl, inr, true, false, arith, IsU64, IsWord32, u16_max,
  ◌==◌, ==_refl,
}
use aevum_public.Base.Bytes.{codes, append_inj, le_field, u64_field, array_field}
use aevum_public.Crypto.{Crypto, Keypair, Clash, digest_binds}
use aevum_public.L2.Transaction.{
  L2Transaction, Dna, tx_bytes, compute_hash, new_unsigned, sign, verify_signature, is_valid,
  founder_cut, community_cut,
}

-- A new transaction of a positive amount, signed with the keypair of its sender, is valid.
pub is_valid-sign :
    (c : Crypto) (pair : Keypair c) (version to amount fee nonce : ℕ) (dna : Dna)
    (timestamp salt : ℕ)
    → 0 < amount
    → is_valid c
        (sign c (new_unsigned c version pair.key to amount fee nonce dna timestamp salt) pair)
      ≡ true
unfolding is_valid sign new_unsigned verify_signature compute_hash tx_bytes
is_valid-sign c pair version to amount fee nonce dna timestamp salt h =
    let positive : (amount == 0) ≡ false = ground arith in rw (positive, ==_refl) (pair.signs _)

pub record IsTransaction (tx : L2Transaction) : Type 0 where
  pub version : tx.version ≤ u16_max
  pub sender : IsWord32 tx.sender
  pub to : IsWord32 tx.to
  pub amount : IsU64 tx.amount
  pub fee : IsU64 tx.fee
  pub nonce : IsU64 tx.nonce
  pub timestamp : IsU64 tx.timestamp
  pub taint_distance : tx.taint_distance ≤ u16_max
  pub taint_origin : IsU64 tx.taint_origin
  pub taint_timestamp : IsU64 tx.taint_timestamp
  pub restriction_level : IsU64 tx.restriction_level
  pub binding_salt : IsU64 tx.binding_salt

pub record SameHashed (a b : L2Transaction) : Type 0 where
  pub version : a.version ≡ b.version
  pub sender : a.sender ≡ b.sender
  pub to : a.to ≡ b.to
  pub amount : a.amount ≡ b.amount
  pub fee : a.fee ≡ b.fee
  pub nonce : a.nonce ≡ b.nonce
  pub timestamp : a.timestamp ≡ b.timestamp
  pub taint_distance : a.taint_distance ≡ b.taint_distance
  pub taint_origin : a.taint_origin ≡ b.taint_origin
  pub taint_timestamp : a.taint_timestamp ≡ b.taint_timestamp
  pub restriction_level : a.restriction_level ≡ b.restriction_level
  pub binding_salt : a.binding_salt ≡ b.binding_salt

tx_bytes_inj :
    (a b : L2Transaction)
    → IsTransaction a
    → IsTransaction b
    → tx_bytes a ≡ tx_bytes b
    → SameHashed a b
unfolding tx_bytes
tx_bytes_inj a b ha hb e =
    let domain = codes "AEVUM_L2_TX_V4_DOMAIN" in
    let t0 = (append_inj domain domain refl e).1 in
    let (e1, t1) = le_field 2 a.version b.version (omega arith) (omega arith) t0 in
    let (e2, t2) = array_field a.sender b.sender ha.sender hb.sender t1 in
    let (e3, t3) = array_field a.to b.to ha.to hb.to t2 in
    let (e4, t4) = u64_field a.amount b.amount ha.amount hb.amount t3 in
    let (e5, t5) = u64_field a.fee b.fee ha.fee hb.fee t4 in
    let (e6, t6) = u64_field a.nonce b.nonce ha.nonce hb.nonce t5 in
    let (e7, t7) = u64_field a.timestamp b.timestamp ha.timestamp hb.timestamp t6 in
    let (e8, t8) = le_field 2 a.taint_distance b.taint_distance (omega arith) (omega arith) t7 in
    let (e9, t9) = u64_field a.taint_origin b.taint_origin ha.taint_origin hb.taint_origin t8 in
    let (e10, t10) =
      u64_field a.taint_timestamp b.taint_timestamp ha.taint_timestamp hb.taint_timestamp t9 in
    let (e11, t11) =
      u64_field a.restriction_level b.restriction_level ha.restriction_level hb.restriction_level
        t10 in
    let (e12, t12) = u64_field a.binding_salt b.binding_salt ha.binding_salt hb.binding_salt t11 in
    record {
      version = e1;
      sender = e2;
      to = e3;
      amount = e4;
      fee = e5;
      nonce = e6;
      timestamp = e7;
      taint_distance = e8;
      taint_origin = e9;
      taint_timestamp = e10;
      restriction_level = e11;
      binding_salt = e12;
    }

-- Two L2 transactions within the ranges of their types and with one hash agree on every field but
-- the hash and the signature, the binding salt included, or the bytes that are hashed for
-- the two differ and have one digest.
pub l2_compute_hash-binds :
    (c : Crypto) (a b : L2Transaction)
    → IsTransaction a
    → IsTransaction b
    → compute_hash c a ≡ compute_hash c b
    → SameHashed a b ⊎ Clash c (tx_bytes a) (tx_bytes b)
unfolding compute_hash
l2_compute_hash-binds c a b ha hb h = elim (digest_binds c (tx_bytes a) (tx_bytes b) h) [
  | inl same ↦ inl (tx_bytes_inj a b ha hb same)
  | inr clash ↦ inr clash
]

-- The founder's and the community's cut add up to the fee, and the founder's is a tenth of it.
pub cuts-eq-fee :
    (fee : ℕ) → (founder_cut fee + community_cut fee ≡ fee) × (founder_cut fee ≡ fee / 10)
unfolding founder_cut community_cut
cuts-eq-fee fee = (omega arith, omega arith)
