-- ===== src/Core/Transaction.antt =====
-- crates/aevum-core/src/transaction.rs: the transaction, its hash and the heartbeat check.
-- `ZkProof` and `TokenDNA` are types of modules that are not in the repository; the code here only
-- carries their values, which are numbers that name them. Keys and hashes are 32-byte arrays.
pub mod Heartbeat
pub mod Binding
use Prim.Native.String.{String}
use aevum_public.Base.{
  take, drop, ℕ, zero, suc, ◌+◌, ◌-◌, ◌*◌, ◌/◌, ◌%◌, ◌^◌, Bool, true, false, not, Option, none,
  some, List, [], ◌∷◌, map, ltb, leb, ◌==◌, ◌||◌, if◌then◌else◌, length, is_empty, Result, ok, err,
  ◌>>=◌, ◌>>◌, fail_if,
}
use aevum_public.Base.Bytes.{
  codes, le_bytes, array_bytes, updates, flat, from_le_bytes, to_array, bytes_eq,
}
use aevum_public.Crypto.{Crypto}

abbrev pub chain_id_mainnet : ℕ
chain_id_mainnet = 2

abbrev pub coinbase_restriction_level : ℕ
coinbase_restriction_level = 0x2000

pub data TransactionType : Type 0 where
  standard coinbase heartbeat : TransactionType

-- `tx_type as u8`
abbrev pub type_byte : TransactionType → ℕ
type_byte standard = 0
type_byte coinbase = 1
type_byte heartbeat = 2

pub record TxInput : Type 0 where
  pub tx_hash : ℕ
  pub output_index : ℕ
  pub nullifier : ℕ
  pub signature : List ℕ
  pub public_key : ℕ
  pub signed_hash : ℕ
  pub nonce : ℕ

pub record TxOutput : Type 0 where
  pub amount : ℕ
  pub owner : ℕ
  pub amount_commitment : ℕ
  pub tag_commitment : ℕ
  pub nullifier : ℕ
  pub serial : ℕ
  pub zk_proof : ℕ
  pub tx_hash : ℕ
  pub view_key_public : ℕ
  pub encrypted_amount : ℕ
  pub auth_tag : ℕ
  pub restriction_level : ℕ
  pub output_index : ℕ
  pub taint_distance : ℕ
  pub taint_origin : ℕ
  pub taint_timestamp : ℕ
  pub dna : ℕ
  pub dna_range_id : Option ℕ

pub record Transaction : Type 0 where
  pub version : ℕ
  pub chain_id : ℕ
  pub tx_type : TransactionType
  pub inputs : List TxInput
  pub outputs : List TxOutput
  pub fee : ℕ
  pub tx_hash : ℕ
  pub poh_tick : ℕ
  pub locktime : ℕ
  pub heartbeat_witnesses : List (List ℕ)

-- What `recompute_hash` feeds the hasher with.
unfoldable pub input_bytes : TxInput → List ℕ
input_bytes i = updates (
    array_bytes i.tx_hash
    ∷ le_bytes 4 i.output_index
    ∷ array_bytes i.nullifier
    ∷ array_bytes i.public_key
    ∷ array_bytes i.signed_hash
    ∷ le_bytes 8 i.nonce
    ∷ [])

unfoldable pub output_bytes : TxOutput → List ℕ
output_bytes o = updates (
    le_bytes 8 o.amount
    ∷ array_bytes o.owner
    ∷ array_bytes o.amount_commitment
    ∷ array_bytes o.tag_commitment
    ∷ array_bytes o.nullifier
    ∷ le_bytes 8 o.serial
    ∷ le_bytes 8 o.restriction_level
    ∷ le_bytes 4 o.output_index
    ∷ le_bytes 2 o.taint_distance
    ∷ le_bytes 8 o.taint_origin
    ∷ le_bytes 8 o.taint_timestamp
    ∷ [])

unfoldable pub witness_bytes : List ℕ → List ℕ
witness_bytes w = updates (le_bytes 4 (length w % 2 ^ 32) ∷ w ∷ [])

unfoldable pub tx_bytes : Transaction → List ℕ
tx_bytes tx = updates (
    codes "AEVUM_TX_V4"
    ∷ le_bytes 4 tx.chain_id
    ∷ le_bytes 4 tx.version
    ∷ (type_byte tx.tx_type ∷ [])
    ∷ le_bytes 4 (length tx.inputs % 2 ^ 32)
    ∷ flat input_bytes tx.inputs
    ∷ le_bytes 4 (length tx.outputs % 2 ^ 32)
    ∷ flat output_bytes tx.outputs
    ∷ le_bytes 8 tx.fee
    ∷ le_bytes 8 tx.poh_tick
    ∷ le_bytes 8 tx.locktime
    ∷ le_bytes 4 (length tx.heartbeat_witnesses % 2 ^ 32)
    ∷ flat witness_bytes tx.heartbeat_witnesses
    ∷ [])

unfoldable pub is_coinbase : Transaction → Bool
is_coinbase tx = elim tx.tx_type [ coinbase ↦ true | _ ↦ false ]

unfoldable pub is_heartbeat : Transaction → Bool
is_heartbeat tx = elim tx.tx_type [ heartbeat ↦ true | _ ↦ false ]

unfoldable pub new_raw : ℕ → ℕ → List TxInput → List TxOutput → ℕ → ℕ → ℕ → Transaction
new_raw v c inputs outputs fee poh lock = record {
  version = v;
  chain_id = c;
  tx_type = standard;
  inputs = inputs;
  outputs = outputs;
  fee = fee;
  tx_hash = 0;
  poh_tick = poh;
  locktime = lock;
  heartbeat_witnesses = [];
}

module _ (c : Crypto) where
  unfoldable pub recompute_hash : Transaction → ℕ
  recompute_hash tx = c.digest (tx_bytes tx)

  unfoldable pub compute_hash : Transaction → Transaction
  compute_hash tx = record tx { tx_hash = recompute_hash tx }

  unfoldable pub new_transaction : List TxInput → List TxOutput → ℕ → Transaction
  new_transaction inputs outputs fee =
      compute_hash (new_raw 1 chain_id_mainnet inputs outputs fee 0 0)

  unfoldable pub new_heartbeat : List (List ℕ) → ℕ → Transaction
  new_heartbeat witnesses chain_id = compute_hash (record {
    version = 1;
    chain_id = chain_id;
    tx_type = heartbeat;
    inputs = [];
    outputs = [];
    fee = 0;
    tx_hash = 0;
    poh_tick = 0;
    locktime = 0;
    heartbeat_witnesses = witnesses;
  })

  unfoldable pub new_coinbase : List TxOutput → ℕ → ℕ → Transaction
  new_coinbase outputs poh chain_id = compute_hash (record {
    version = 1;
    chain_id = chain_id;
    tx_type = coinbase;
    inputs = [];
    outputs = outputs;
    fee = 0;
    tx_hash = 0;
    poh_tick = poh;
    locktime = 0;
    heartbeat_witnesses = [];
  })

  -- `TxOutput::new_coinbase`; `empty_proof` and `default_dna` name `ZkProof::empty()` and
  -- `TokenDNA::default()`.
  unfoldable pub new_coinbase_output : ℕ → ℕ → ℕ → ℕ → ℕ → ℕ → TxOutput
  new_coinbase_output empty_proof default_dna owner amount serial output_index = record {
    amount = amount;
    owner = owner;
    amount_commitment = 0;
    tag_commitment = 0;
    nullifier = c.digest (
        updates (codes "AEVUM_COINBASE_NULLIFIER_V1" ∷ array_bytes owner ∷ le_bytes 8 serial ∷ []));
    serial = serial;
    zk_proof = empty_proof;
    tx_hash = 0;
    view_key_public = 0;
    encrypted_amount = 0;
    auth_tag = 0;
    restriction_level = coinbase_restriction_level;
    output_index = output_index;
    taint_distance = 0;
    taint_origin = 0x2000;
    taint_timestamp = 0;
    dna = default_dna;
    dna_range_id = none;
  }

  -- `TxInput::verify_signature`
  unfoldable pub verify_signature : TxInput → Bool
  verify_signature i =
      if length i.signature == 64
      then c.verify i.public_key (array_bytes i.signed_hash) i.signature
      else false

unfoldable pub witness_id : List ℕ → ℕ
witness_id w = to_array (take 32 w)

unfoldable pub witness_time : List ℕ → ℕ
witness_time w = from_le_bytes (take 8 (drop 32 w))

-- `if let Some(p) = prev { if id <= p { .. } }`
abbrev pub not_after : Option ℕ → ℕ → Bool
not_after none id = false
not_after (some p) id = leb id p

unfoldable pub check_witnesses : ℕ → Option ℕ → List (List ℕ) → Result String (Unit {0})
check_witnesses now prev [] = ok tt
check_witnesses now prev (w ∷ ws) = do
  fail_if (ltb (length w) 40) "too short"
  fail_if (ltb 180 (now - witness_time w)) "stale"
  fail_if (not_after prev (witness_id w)) "unsorted or duplicate"
  check_witnesses now (some (witness_id w)) ws

unfoldable pub verify_heartbeat : Transaction → ℕ → Result String (Unit {0})
verify_heartbeat tx now = do
  fail_if (not (is_heartbeat tx)) "not heartbeat"
  fail_if (is_empty tx.heartbeat_witnesses) "empty witnesses"
  check_witnesses now none tx.heartbeat_witnesses

-- The number of different witnesses, `collect::<HashSet<_>>().len()`.
abbrev pub occurs : List ℕ → List (List ℕ) → Bool
occurs w [] = false
occurs w (v ∷ ws) = bytes_eq w v || occurs w ws

unfoldable pub count_unique : List (List ℕ) → ℕ
count_unique [] = 0
count_unique (w ∷ ws) = (if occurs w ws then 0 else 1) + count_unique ws

unfoldable pub heartbeat_coverage_bps : Transaction → ℕ → ℕ
heartbeat_coverage_bps tx total =
    if total == 0 then 0 else count_unique tx.heartbeat_witnesses * 10000 / total % 2 ^ 64
