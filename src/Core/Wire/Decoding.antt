-- ===== src/Core/Wire/Decoding.antt =====
-- crates/aevum-core/src/wire.rs: the messages that blocks are sent as, and what their decoding gives.
use aevum_public.Base.{
  ℕ, ◌≤◌, ◌<◌, ◌≡◌, ◌≢◌, refl, sym, true, not, none, List, [], ◌∷◌, map, ltb, ◌==◌, ==_refl, le→ltb,
  All, arith, Result, ok, collect, >>=-eq-ok, fail_if>>-eq-ok, collect-All, subst,
}
use aevum_public.Crypto.{Crypto}
use aevum_public.Core.Transaction.{
  TransactionType, standard, coinbase, heartbeat, type_byte, TxInput, TxOutput, Transaction,
  recompute_hash, tx_bytes,
}
use aevum_public.Core.Block.{
  BlockCandidate, StatePreview, Block, from_candidate, compute_hash, seal,
}
use aevum_public.Core.Block.Hashing.{from_candidate-seals}
use aevum_public.Core.Wire.Messages.{
  TxInputWire, TxOutputWire, TxWire, BlockWire, WireError, version_mismatch, block_too_large,
  deserialization, decode_type, decode_input, decode_output, decode_tx, decode_block, wire_version,
  max_wire_block_size, built,
}

-- The messages of a block's parts; `data_of` gives the data of a proof.
unfoldable pub input_wire : TxInput → TxInputWire
input_wire i = record {
  tx_hash = i.tx_hash;
  output_index = i.output_index;
  nullifier = i.nullifier;
  signature = i.signature;
  public_key = i.public_key;
  signed_hash = i.signed_hash;
  nonce = i.nonce;
}

module _ (data_of : ℕ → List ℕ) where
  unfoldable pub output_wire : TxOutput → TxOutputWire
  output_wire o = record {
    amount = o.amount;
    owner = o.owner;
    amount_commitment = o.amount_commitment;
    tag_commitment = o.tag_commitment;
    nullifier = o.nullifier;
    serial = o.serial;
    zk_proof = data_of o.zk_proof;
    tx_hash = o.tx_hash;
    view_key_public = o.view_key_public;
    encrypted_amount = o.encrypted_amount;
    auth_tag = o.auth_tag;
    restriction_level = o.restriction_level;
    output_index = o.output_index;
    taint_distance = o.taint_distance;
    taint_origin = o.taint_origin;
    taint_timestamp = o.taint_timestamp;
    dna = o.dna;
  }

  unfoldable pub tx_wire : Transaction → TxWire
  tx_wire t = record {
    version = t.version;
    chain_id = t.chain_id;
    tx_type = type_byte t.tx_type;
    inputs = map input_wire t.inputs;
    outputs = map output_wire t.outputs;
    fee = t.fee;
    poh_tick = t.poh_tick;
    locktime = t.locktime;
    heartbeat_witnesses = t.heartbeat_witnesses;
  }

  unfoldable pub block_wire : Block → BlockWire
  block_wire b = record {
    version = wire_version;
    block_hash = b.block_hash;
    prev_hash = b.prev_hash;
    height = b.height;
    poh_tick_start = b.poh_tick_start;
    poh_tick_end = b.poh_tick_end;
    transactions_root = b.transactions_root;
    transactions = map tx_wire b.transactions;
    state_root = b.state_root;
    total_supply = b.total_supply;
    is_presence_block = b.is_presence_block;
    block_size = b.block_size;
    settlement_checkpoint = b.settlement_checkpoint;
  }

decode_type-type_byte : (t : TransactionType) → decode_type (type_byte t) ≡ ok t
unfolding decode_type
decode_type-type_byte standard = refl
decode_type-type_byte coinbase = refl
decode_type-type_byte heartbeat = refl

collect-map :
    {E A B : Type 0} (f : B → Result E A) (g : A → B) (P : A → Type 0)
    → ((a : A) → P a → f (g a) ≡ ok a)
    → (xs : List A) → All P xs
    → collect f (map g xs) ≡ ok xs
collect-map f g P one [] h = refl
collect-map f g P one (x ∷ xs) h = rw (one x h.0, collect-map f g P one xs h.1) refl

module _ (c : Crypto) (proof_of : List ℕ → ℕ) (data_of : ℕ → List ℕ) where
  -- The owner is a key, the proof is that of its data, and there is no range.
  abbrev pub IsSendableOutput : TxOutput → Type 0
  IsSendableOutput o =
      (c.is_key o.owner ≡ true)
      × (proof_of (data_of o.zk_proof) ≡ o.zk_proof)
      × (o.dna_range_id ≡ none)

  -- The keys are keys, the outputs can be sent, and the hash is the transaction's.
  pub record IsSendable (t : Transaction) : Type 0 where
    pub keys : All (λ i. c.is_key i.public_key ≡ true) t.inputs
    pub outputs : All IsSendableOutput t.outputs
    pub hashed : t.tx_hash ≡ recompute_hash c t

  decode_input-wire :
      (i : TxInput) → c.is_key i.public_key ≡ true → decode_input c proof_of (input_wire i) ≡ ok i
  unfolding decode_input input_wire
  decode_input-wire i h = rw h refl

  decode_output-wire :
      (o : TxOutput) → IsSendableOutput o → decode_output c proof_of (output_wire data_of o) ≡ ok o
  unfolding decode_output output_wire
  decode_output-wire o h = rw (h.0, h.1, sym h.2) refl

  decode_tx-wire :
      (t : Transaction) → IsSendable t → decode_tx c proof_of (tx_wire data_of t) ≡ ok t
  unfolding decode_tx tx_wire recompute_hash tx_bytes
  decode_tx-wire t h =
      rw
        (
          decode_type-type_byte t.tx_type,
          collect-map (decode_input c proof_of) input_wire _ decode_input-wire t.inputs h.keys,
          collect-map (decode_output c proof_of) (output_wire data_of) _ decode_output-wire
              t.outputs h.outputs,
          sym h.hashed,
        )
        refl

  abbrev candidate_of : Block → BlockCandidate
  candidate_of b = record {
    prev_hash = b.prev_hash;
    height = b.height;
    poh_tick_start = b.poh_tick_start;
    poh_tick_end = b.poh_tick_end;
    transactions = b.transactions;
    is_presence_block = b.is_presence_block;
    settlement_checkpoint = b.settlement_checkpoint;
  }

  abbrev preview_of : Block → StatePreview
  preview_of b = record { state_root = b.state_root; new_total_supply = b.total_supply }

  -- Building a block from its own parts gives it again.
  rebuilt :
      (candidate : BlockCandidate) (preview : StatePreview) (b : Block)
      → from_candidate c candidate preview ≡ ok b
      → from_candidate c (candidate_of b) (preview_of b) ≡ ok b
  unfolding from_candidate seal
  rebuilt candidate preview b h = ground arith

  -- A block that was built from a candidate, with a size of at most `max_wire_block_size`, is decoded
  -- from its message as it was, where each of its transactions can be sent: the keys of its inputs and
  -- the owners of its outputs are keys, each proof is the one that the decoder makes of its data, no
  -- output has a range id (the message has no place for one), and its hash is the recomputed one.
  pub decode_block-block_wire :
      (candidate : BlockCandidate) (preview : StatePreview) (b : Block)
      → from_candidate c candidate preview ≡ ok b
      → All IsSendable b.transactions
      → b.block_size ≤ max_wire_block_size
      → decode_block c proof_of (block_wire data_of b) ≡ ok b
  unfolding decode_block block_wire
  decode_block-block_wire candidate preview b h sendable fits =
      rw
        (
          le→ltb max_wire_block_size b.block_size fits,
          collect-map (decode_tx c proof_of) (tx_wire data_of) IsSendable decode_tx-wire
              b.transactions sendable,
          rebuilt candidate preview b h,
          ==_refl b.block_hash,
        )
        refl

module _ (c : Crypto) (proof_of : List ℕ → ℕ) where
  -- Its hash is its own, and its keys are keys.
  abbrev pub IsDecoded : Transaction → Type 0
  IsDecoded t =
      (t.tx_hash ≡ recompute_hash c t)
      × All (λ i. c.is_key i.public_key ≡ true) t.inputs
      × All (λ o. c.is_key o.owner ≡ true) t.outputs

  decode_input-key :
      (w : TxInputWire) (i : TxInput)
      → decode_input c proof_of w ≡ ok i
      → c.is_key i.public_key ≡ true
  unfolding decode_input
  decode_input-key w i h = ground arith

  decode_output-key :
      (w : TxOutputWire) (o : TxOutput)
      → decode_output c proof_of w ≡ ok o
      → c.is_key o.owner ≡ true
  unfolding decode_output
  decode_output-key w o h = ground arith

  decode_tx-IsDecoded : (w : TxWire) (t : Transaction) → decode_tx c proof_of w ≡ ok t → IsDecoded t
  unfolding decode_tx recompute_hash tx_bytes
  decode_tx-IsDecoded w t h =
      let type_of = >>=-eq-ok (decode_type w.tx_type) _ h in
      let inputs = >>=-eq-ok (collect (decode_input c proof_of) w.inputs) _ type_of.2 in
      let outputs = >>=-eq-ok (collect (decode_output c proof_of) w.outputs) _ inputs.2 in
      let keys =
        collect-All (decode_input c proof_of) _ decode_input-key w.inputs inputs.0 inputs.1 in
      let owners =
        collect-All (decode_output c proof_of) _ decode_output-key w.outputs outputs.0 outputs.1 in
      let same_inputs : inputs.0 ≡ t.inputs = ground arith in
      let same_outputs : outputs.0 ≡ t.outputs = ground arith in
      (
        ground arith,
        subst (λ (l : List TxInput). All (λ i. c.is_key i.public_key ≡ true) l) same_inputs keys,
        subst (λ (l : List TxOutput). All (λ o. c.is_key o.owner ≡ true) l) same_outputs owners,
      )

  -- A decoded block comes from a message of the version and with a claimed size in its bound, has
  -- the message's height, state root, supply and hash, which is its own, and above height 0 neither
  -- its state root nor its supply is zero; its transactions carry their own hashes, and their keys
  -- are keys.
  pub decode_block-ok :
      (w : BlockWire) (b : Block)
      → decode_block c proof_of w ≡ ok b
      → (w.version ≡ wire_version)
        × (w.block_size ≤ max_wire_block_size)
        × (b.block_hash ≡ w.block_hash)
        × (b.block_hash ≡ compute_hash c b)
        × (b.height ≡ w.height)
        × (b.state_root ≡ w.state_root)
        × (b.total_supply ≡ w.total_supply)
        × (0 < b.height → (b.state_root ≢ 0) × (b.total_supply ≢ 0))
        × All IsDecoded b.transactions
  unfolding decode_block
  decode_block-ok w b h =
      let version = fail_if>>-eq-ok (not (w.version == wire_version)) version_mismatch _ h in
      let size =
        fail_if>>-eq-ok (ltb max_wire_block_size w.block_size) block_too_large _ version.1 in
      let txs = >>=-eq-ok (collect (decode_tx c proof_of) w.transactions) _ size.1 in
      let mid = >>=-eq-ok (built (from_candidate c (candidate txs.0) preview)) _ txs.2 in
      let block = fail_if>>-eq-ok (not (mid.0.block_hash == w.block_hash)) mismatch _ mid.2 in
      let same : mid.0 ≡ b = cc in
      let made : from_candidate c (candidate txs.0) preview ≡ ok b = ground arith in
      let sealed = from_candidate-seals c (candidate txs.0) preview made in
      (
        ground arith,
        ground arith,
        ground arith,
        sealed.0,
        sealed.3,
        sealed.4,
        sealed.5,
        sealed.6,
        subst (λ (l : List Transaction). All IsDecoded l) (sym sealed.2)
            (collect-All (decode_tx c proof_of) IsDecoded decode_tx-IsDecoded w.transactions txs.0
              txs.1),
      )
    where
      preview : StatePreview
      preview = record { state_root = w.state_root; new_total_supply = w.total_supply }

      candidate : List Transaction → BlockCandidate
      candidate txs = record {
        prev_hash = w.prev_hash;
        height = w.height;
        poh_tick_start = w.poh_tick_start;
        poh_tick_end = w.poh_tick_end;
        transactions = txs;
        is_presence_block = w.is_presence_block;
        settlement_checkpoint = w.settlement_checkpoint;
      }

      mismatch : WireError
      mismatch = deserialization "block hash mismatch"

  -- Within its bound, the size that a message claims changes nothing, and neither does the root of
  -- the transactions that it carries.
  pub decode_block-unread :
      (w : BlockWire) (size root : ℕ)
      → w.block_size ≤ max_wire_block_size
      → size ≤ max_wire_block_size
      → decode_block c proof_of (record w { block_size = size; transactions_root = root })
        ≡ decode_block c proof_of w
  unfolding decode_block
  decode_block-unread w size root h k =
      rw (le→ltb max_wire_block_size size k, le→ltb max_wire_block_size w.block_size h) refl
