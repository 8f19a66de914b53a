-- ===== src/Core/Wire/Messages.antt =====
-- crates/aevum-core/src/wire.rs: the messages, and how a block is decoded from one. Serialising
-- them is the business of `serde`; a message here is what it hands over. `proof_of` gives the
-- `ZkProof` of scheme Halo2 and version 1 with the given data, and a `TokenDNA` is carried along.
use Prim.Native.String.{String}
use aevum_public.Base.{
  ℕ, ◌*◌, Bool, not, Option, none, some, List, ltb, ◌==◌, length, if◌then◌else◌, Result, ok, err,
  ◌>>=◌, ◌>>◌, fail_if, collect,
}
use aevum_public.Crypto.{Crypto}
use aevum_public.Core.Transaction.{
  TransactionType, standard, coinbase, heartbeat, TxInput, TxOutput, Transaction, recompute_hash,
}
use aevum_public.Core.Block.{SettlementCheckpoint, BlockError, Block, from_candidate}

abbrev pub wire_version : ℕ
wire_version = 9

abbrev pub max_tx_inputs : ℕ
max_tx_inputs = 1024

abbrev pub max_tx_outputs : ℕ
max_tx_outputs = 1024

abbrev pub max_witnesses : ℕ
max_witnesses = 32

abbrev pub max_wire_block_size : ℕ
max_wire_block_size = 16 * 1024 * 1024

abbrev pub max_txs_per_block : ℕ
max_txs_per_block = 100_000

pub record TxInputWire : Type 0 where
  pub tx_hash : ℕ
  pub output_index : ℕ
  pub nullifier : ℕ
  pub signature : List ℕ
  pub public_key : ℕ
  pub signed_hash : ℕ
  pub nonce : ℕ

pub record TxOutputWire : Type 0 where
  pub amount : ℕ
  pub owner : ℕ
  pub amount_commitment : ℕ
  pub tag_commitment : ℕ
  pub nullifier : ℕ
  pub serial : ℕ
  pub zk_proof : List ℕ
  pub tx_hash : ℕ
  pub view_key_public : ℕ
  pub encrypted_amount : ℕ
  pub auth_tag : ℕ
  pub restriction_level : ℕ
  pub output_index : ℕ
  pub taint_distance : ℕ
  pub taint_origin : ℕ
  pub taint_timestamp : ℕ
  pub dna : ℕ

pub record TxWire : Type 0 where
  pub version : ℕ
  pub chain_id : ℕ
  pub tx_type : ℕ
  pub inputs : List TxInputWire
  pub outputs : List TxOutputWire
  pub fee : ℕ
  pub poh_tick : ℕ
  pub locktime : ℕ
  pub heartbeat_witnesses : List (List ℕ)

pub record BlockWire : Type 0 where
  pub version : ℕ
  pub block_hash : ℕ
  pub prev_hash : ℕ
  pub height : ℕ
  pub poh_tick_start : ℕ
  pub poh_tick_end : ℕ
  pub transactions_root : ℕ
  pub transactions : List TxWire
  pub state_root : ℕ
  pub total_supply : ℕ
  pub is_presence_block : Bool
  pub block_size : ℕ
  pub settlement_checkpoint : Option SettlementCheckpoint

-- `unbuildable e` is `Deserialization(e.to_string())`.
pub data WireError : Type 0 where
  version_mismatch block_too_large tx_too_large too_many_tx too_many_inputs : WireError
  too_many_outputs invalid_tx_type : WireError
  deserialization : String → WireError
  unbuildable : BlockError → WireError

-- `BoundedVec::deserialize`, behind the deserialisation of the items.
unfoldable pub bounded {ℓ} : {A : Type ℓ} → ℕ → Option (List A) → Option (List A)
bounded max_len none = none
bounded max_len (some items) = if ltb max_len (length items) then none else some items

unfoldable pub decode_type : ℕ → Result WireError TransactionType
decode_type t =
    if t == 0
    then ok standard
    else if t == 1
    then ok coinbase
    else if t == 2
    then ok heartbeat
    else err invalid_tx_type

-- `from_candidate(..).map_err(..)`
abbrev pub built : {A : Type 0} → Result BlockError A → Result WireError A
built (ok a) = ok a
built (err e) = err (unbuildable e)

module _ (c : Crypto) (proof_of : List ℕ → ℕ) where
  unfoldable pub decode_input : TxInputWire → Result WireError TxInput
  decode_input i = do
    fail_if (not (c.is_key i.public_key)) (deserialization "invalid input pubkey")
    ok (record {
      tx_hash = i.tx_hash;
      output_index = i.output_index;
      nullifier = i.nullifier;
      signature = i.signature;
      public_key = i.public_key;
      signed_hash = i.signed_hash;
      nonce = i.nonce;
    })

  unfoldable pub decode_output : TxOutputWire → Result WireError TxOutput
  decode_output o = do
    fail_if (not (c.is_key o.owner)) (deserialization "invalid output owner")
    ok (record {
      amount = o.amount;
      owner = o.owner;
      amount_commitment = o.amount_commitment;
      tag_commitment = o.tag_commitment;
      nullifier = o.nullifier;
      serial = o.serial;
      zk_proof = proof_of o.zk_proof;
      tx_hash = o.tx_hash;
      view_key_public = o.view_key_public;
      encrypted_amount = o.encrypted_amount;
      auth_tag = o.auth_tag;
      restriction_level = o.restriction_level;
      output_index = o.output_index;
      taint_distance = o.taint_distance;
      taint_origin = o.taint_origin;
      taint_timestamp = o.taint_timestamp;
      dna = o.dna;
      dna_range_id = none;
    })

  -- `tx.tx_hash = tx.recompute_hash()` on a transaction with no hash yet.
  unfoldable pub decode_tx : TxWire → Result WireError Transaction
  decode_tx t = do
    tx_type ← decode_type t.tx_type
    inputs ← collect decode_input t.inputs
    outputs ← collect decode_output t.outputs
    let tx : Transaction = record {
      version = t.version;
      chain_id = t.chain_id;
      tx_type = tx_type;
      inputs = inputs;
      outputs = outputs;
      fee = t.fee;
      tx_hash = 0;
      poh_tick = t.poh_tick;
      locktime = t.locktime;
      heartbeat_witnesses = t.heartbeat_witnesses;
    }
    ok (record tx { tx_hash = recompute_hash c tx })

  unfoldable pub decode_block : BlockWire → Result WireError Block
  decode_block w = do
    fail_if (not (w.version == wire_version)) version_mismatch
    fail_if (ltb max_wire_block_size w.block_size) block_too_large
    txs ← collect decode_tx w.transactions
    block ← built (
        from_candidate c
          (record {
            prev_hash = w.prev_hash;
            height = w.height;
            poh_tick_start = w.poh_tick_start;
            poh_tick_end = w.poh_tick_end;
            transactions = txs;
            is_presence_block = w.is_presence_block;
            settlement_checkpoint = w.settlement_checkpoint;
          })
          (record { state_root = w.state_root; new_total_supply = w.total_supply }))
    fail_if (not (block.block_hash == w.block_hash)) (deserialization "block hash mismatch")
    ok block
