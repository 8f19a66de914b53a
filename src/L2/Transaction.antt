-- ===== src/L2/Transaction.antt =====
-- crates/aevum-l2/src/l2_transaction.rs: the L2 transaction, its hash, signature, fees and lineage.
pub mod Signing
pub mod Lineage
use aevum_public.Base.{
  ℕ, ◌+◌, ◌-◌, ◌*◌, ◌/◌, ◌%◌, ◌^◌, min, max, Bool, true, false, List, [], ◌∷◌, ◌++◌, ltb, leb, ◌==◌,
  mem, is_empty, replicate, if◌then◌else◌, u64_max, u16_max,
}
use aevum_public.Base.Bytes.{codes, le_bytes, array_bytes, updates}
use aevum_public.Crypto.{Crypto, Keypair}

abbrev pub founder_share_bps : ℕ
founder_share_bps = 1000

abbrev pub community_share_bps : ℕ
community_share_bps = 9000

pub record L2Transaction : Type 0 where
  pub version : ℕ
  pub sender : ℕ
  pub to : ℕ
  pub amount : ℕ
  pub fee : ℕ
  pub nonce : ℕ
  pub tx_hash : ℕ
  pub signature : List ℕ
  pub timestamp : ℕ
  pub taint_distance : ℕ
  pub taint_origin : ℕ
  pub taint_timestamp : ℕ
  pub restriction_level : ℕ
  pub binding_salt : ℕ

-- The tuple `dna: (u16, u64, u64, u64)`.
pub record Dna : Type 0 where
  pub distance : ℕ
  pub origin : ℕ
  pub timestamp : ℕ
  pub restriction : ℕ

pub record L2Utxo : Type 0 where
  pub owner : ℕ
  pub amount : ℕ
  pub tx_hash : ℕ
  pub output_index : ℕ
  pub taint_distance : ℕ
  pub taint_origin : ℕ
  pub taint_timestamp : ℕ
  pub restriction_level : ℕ
  pub spent : Bool

-- What `compute_hash` feeds the hasher with.
unfoldable pub tx_bytes : L2Transaction → List ℕ
tx_bytes tx = updates (
    codes "AEVUM_L2_TX_V4_DOMAIN"
    ∷ le_bytes 2 tx.version
    ∷ array_bytes tx.sender
    ∷ array_bytes tx.to
    ∷ le_bytes 8 tx.amount
    ∷ le_bytes 8 tx.fee
    ∷ le_bytes 8 tx.nonce
    ∷ le_bytes 8 tx.timestamp
    ∷ le_bytes 2 tx.taint_distance
    ∷ le_bytes 8 tx.taint_origin
    ∷ le_bytes 8 tx.taint_timestamp
    ∷ le_bytes 8 tx.restriction_level
    ∷ le_bytes 8 tx.binding_salt
    ∷ [])

-- The signed message: the signature domain and the hash.
unfoldable pub message : ℕ → List ℕ
message tx_hash = codes "AEVUM_L2_TX_V4_SIG" ++ array_bytes tx_hash

module _ (c : Crypto) where
  unfoldable pub compute_hash : L2Transaction → ℕ
  compute_hash tx = c.digest (tx_bytes tx)

  unfoldable pub new_unsigned : ℕ → ℕ → ℕ → ℕ → ℕ → ℕ → Dna → ℕ → ℕ → L2Transaction
  new_unsigned version sender to amount fee nonce dna timestamp binding_salt =
      let tx : L2Transaction = record {
        version = version;
        sender = sender;
        to = to;
        amount = amount;
        fee = fee;
        nonce = nonce;
        tx_hash = 0;
        signature = replicate 64 0;
        timestamp = timestamp;
        taint_distance = dna.distance;
        taint_origin = dna.origin;
        taint_timestamp = dna.timestamp;
        restriction_level = dna.restriction;
        binding_salt = binding_salt;
      } in
      record tx { tx_hash = compute_hash tx }

  unfoldable pub sign : L2Transaction → Keypair c → L2Transaction
  sign tx keypair = record tx { signature = keypair.sign (message tx.tx_hash) }

  unfoldable pub verify_signature : L2Transaction → Bool
  verify_signature tx = c.verify tx.sender (message tx.tx_hash) tx.signature

  unfoldable pub is_valid : L2Transaction → Bool
  is_valid tx =
      if tx.amount == 0
      then false
      else if compute_hash tx == tx.tx_hash
      then verify_signature tx
      else false

-- The `u128` products do not reach their bound; the casts back to `u64` lose nothing at a `u64`.
unfoldable pub calculate_fee : ℕ → ℕ
calculate_fee amount = (amount + 9_999) / 10_000

unfoldable pub founder_cut : ℕ → ℕ
founder_cut fee = fee * founder_share_bps / 10_000

unfoldable pub community_cut : ℕ → ℕ
community_cut fee = fee - founder_cut fee

-- One round of the loop of `inherit_dna`.
unfoldable pub inherit_step : Dna → L2Utxo → Dna
inherit_step d i =
    if leb d.distance i.taint_distance
    then record {
      distance = i.taint_distance;
      origin = i.taint_origin;
      timestamp = min d.timestamp i.taint_timestamp;
      restriction = max d.restriction i.restriction_level;
    }
    else d

unfoldable pub inherit_loop : Dna → List L2Utxo → Dna
inherit_loop d [] = d
inherit_loop d (i ∷ is) = inherit_loop (inherit_step d i) is

abbrev pub clean : Dna
clean = record { distance = 0; origin = 0; timestamp = 0; restriction = 0 }

abbrev pub unset : Dna
unset = record { distance = 0; origin = 0; timestamp = u64_max; restriction = 0 }

unfoldable pub inherit_dna : List L2Utxo → Dna
inherit_dna [] = clean
inherit_dna (i ∷ is) =
    let d = inherit_loop unset (i ∷ is) in record d { distance = min (d.distance + 1) u16_max }

unfoldable pub new_utxo : ℕ → ℕ → ℕ → ℕ → Dna → L2Utxo
new_utxo owner amount tx_hash output_index dna = record {
  owner = owner;
  amount = amount;
  tx_hash = tx_hash;
  output_index = output_index;
  taint_distance = dna.distance;
  taint_origin = dna.origin;
  taint_timestamp = dna.timestamp;
  restriction_level = dna.restriction;
  spent = false;
}

unfoldable pub is_spendable_in : L2Utxo → List ℕ → Bool
is_spendable_in u allowed = if is_empty allowed then true else mem u.taint_origin allowed

unfoldable pub is_clean : L2Utxo → Bool
is_clean u = u.taint_distance == 0
