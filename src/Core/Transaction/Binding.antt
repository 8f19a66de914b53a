-- ===== src/Core/Transaction/Binding.antt =====
-- What a transaction hash commits to.
use aevum_public.Base.{
  ℕ, ◌%◌, ◌^◌, ◌≤◌, ◌≡◌, refl, sym, ◌∙◌, ◌⊎◌, inl, inr, List, [], ◌∷◌, ◌++◌, map, arith, length,
  All, length-append, ap₂, append_assoc, IsU64, IsU32, IsWord32, u16_max, u32_max, append-nil,
}
use aevum_public.Base.Bytes.{
  codes, le_bytes, flat, append_inj, le_field, u64_field, u32_field, array_field, length-le_bytes,
  length-array_bytes, flat_field,
}
use aevum_public.Crypto.{Crypto, Clash, digest_binds}
use aevum_public.Core.Transaction.{
  Transaction, TransactionType, TxInput, TxOutput, type_byte, input_bytes, output_bytes,
  witness_bytes, tx_bytes, recompute_hash,
}

-- The fields have the ranges of their Rust types.
pub record IsInput (i : TxInput) : Type 0 where
  pub tx_hash : IsWord32 i.tx_hash
  pub output_index : IsU32 i.output_index
  pub nullifier : IsWord32 i.nullifier
  pub public_key : IsWord32 i.public_key
  pub signed_hash : IsWord32 i.signed_hash
  pub nonce : IsU64 i.nonce

pub record IsOutput (o : TxOutput) : Type 0 where
  pub amount : IsU64 o.amount
  pub owner : IsWord32 o.owner
  pub amount_commitment : IsWord32 o.amount_commitment
  pub tag_commitment : IsWord32 o.tag_commitment
  pub nullifier : IsWord32 o.nullifier
  pub serial : IsU64 o.serial
  pub restriction_level : IsU64 o.restriction_level
  pub output_index : IsU32 o.output_index
  pub taint_distance : o.taint_distance ≤ u16_max
  pub taint_origin : IsU64 o.taint_origin
  pub taint_timestamp : IsU64 o.taint_timestamp

pub record IsTransaction (tx : Transaction) : Type 0 where
  pub version : IsU32 tx.version
  pub chain_id : IsU32 tx.chain_id
  pub inputs : All IsInput tx.inputs
  pub few_inputs : length tx.inputs ≤ u32_max
  pub outputs : All IsOutput tx.outputs
  pub few_outputs : length tx.outputs ≤ u32_max
  pub fee : IsU64 tx.fee
  pub poh_tick : IsU64 tx.poh_tick
  pub locktime : IsU64 tx.locktime
  pub short_witnesses : All (λ w. length w ≤ u32_max) tx.heartbeat_witnesses
  pub few_witnesses : length tx.heartbeat_witnesses ≤ u32_max

-- The part of an input that is hashed: all but the signature.
pub record InputView : Type 0 where
  pub tx_hash : ℕ
  pub output_index : ℕ
  pub nullifier : ℕ
  pub public_key : ℕ
  pub signed_hash : ℕ
  pub nonce : ℕ

abbrev pub view_input : TxInput → InputView
view_input i = record {
  tx_hash = i.tx_hash;
  output_index = i.output_index;
  nullifier = i.nullifier;
  public_key = i.public_key;
  signed_hash = i.signed_hash;
  nonce = i.nonce;
}

-- The part of an output that is hashed: not the proof, the hash, the encrypted view and the lineage.
pub record OutputView : Type 0 where
  pub amount : ℕ
  pub owner : ℕ
  pub amount_commitment : ℕ
  pub tag_commitment : ℕ
  pub nullifier : ℕ
  pub serial : ℕ
  pub restriction_level : ℕ
  pub output_index : ℕ
  pub taint_distance : ℕ
  pub taint_origin : ℕ
  pub taint_timestamp : ℕ

abbrev pub view_output : TxOutput → OutputView
view_output o = record {
  amount = o.amount;
  owner = o.owner;
  amount_commitment = o.amount_commitment;
  tag_commitment = o.tag_commitment;
  nullifier = o.nullifier;
  serial = o.serial;
  restriction_level = o.restriction_level;
  output_index = o.output_index;
  taint_distance = o.taint_distance;
  taint_origin = o.taint_origin;
  taint_timestamp = o.taint_timestamp;
}

length-input_bytes : (i : TxInput) → length (input_bytes i) ≡ 140
unfolding input_bytes
length-input_bytes i = simp (length-append, length-le_bytes, length-array_bytes) (omega arith)

length-output_bytes : (o : TxOutput) → length (output_bytes o) ≡ 174
unfolding output_bytes
length-output_bytes o = simp (length-append, length-le_bytes, length-array_bytes) (omega arith)

input_bytes_inj :
    (i j : TxInput)
    → IsInput i
    → IsInput j
    → input_bytes i ≡ input_bytes j
    → view_input i ≡ view_input j
unfolding input_bytes
input_bytes_inj i j hi hj e =
    let (e1, t1) = array_field i.tx_hash j.tx_hash hi.tx_hash hj.tx_hash e in
    let (e2, t2) = u32_field i.output_index j.output_index hi.output_index hj.output_index t1 in
    let (e3, t3) = array_field i.nullifier j.nullifier hi.nullifier hj.nullifier t2 in
    let (e4, t4) = array_field i.public_key j.public_key hi.public_key hj.public_key t3 in
    let (e5, t5) = array_field i.signed_hash j.signed_hash hi.signed_hash hj.signed_hash t4 in
    let (e6, t6) = u64_field i.nonce j.nonce hi.nonce hj.nonce t5 in
    λ k. record {
      tx_hash = e1 k;
      output_index = e2 k;
      nullifier = e3 k;
      public_key = e4 k;
      signed_hash = e5 k;
      nonce = e6 k;
    }

output_bytes_inj :
    (o p : TxOutput)
    → IsOutput o
    → IsOutput p
    → output_bytes o ≡ output_bytes p
    → view_output o ≡ view_output p
unfolding output_bytes
output_bytes_inj o p ho hp e =
    let (e1, t1) = u64_field o.amount p.amount ho.amount hp.amount e in
    let (e2, t2) = array_field o.owner p.owner ho.owner hp.owner t1 in
    let (e3, t3) =
      array_field o.amount_commitment p.amount_commitment ho.amount_commitment hp.amount_commitment
        t2 in
    let (e4, t4) =
      array_field o.tag_commitment p.tag_commitment ho.tag_commitment hp.tag_commitment t3 in
    let (e5, t5) = array_field o.nullifier p.nullifier ho.nullifier hp.nullifier t4 in
    let (e6, t6) = u64_field o.serial p.serial ho.serial hp.serial t5 in
    let (e7, t7) =
      u64_field o.restriction_level p.restriction_level ho.restriction_level hp.restriction_level
        t6 in
    let (e8, t8) = u32_field o.output_index p.output_index ho.output_index hp.output_index t7 in
    let (e9, t9) = le_field 2 o.taint_distance p.taint_distance (omega arith) (omega arith) t8 in
    let (e10, t10) = u64_field o.taint_origin p.taint_origin ho.taint_origin hp.taint_origin t9 in
    let (e11, t11) =
      u64_field o.taint_timestamp p.taint_timestamp ho.taint_timestamp hp.taint_timestamp t10 in
    λ k. record {
      amount = e1 k;
      owner = e2 k;
      amount_commitment = e3 k;
      tag_commitment = e4 k;
      nullifier = e5 k;
      serial = e6 k;
      restriction_level = e7 k;
      output_index = e8 k;
      taint_distance = e9 k;
      taint_origin = e10 k;
      taint_timestamp = e11 k;
    }

type_byte_inj : (s t : TransactionType) → type_byte s ≡ type_byte t → s ≡ t
type_byte_inj s t h = ground arith

-- Witnesses are sent with their lengths, so any number of them can be told apart.
witnesses_field :
    (vs ws : List (List ℕ)) (x y : List ℕ)
    → length vs ≡ length ws
    → All (λ w. length w ≤ u32_max) vs
    → All (λ w. length w ≤ u32_max) ws
    → flat witness_bytes vs ++ x ≡ flat witness_bytes ws ++ y
    → vs ≡ ws
unfolding witness_bytes
witnesses_field [] [] x y h pv pw e = refl
witnesses_field [] (w ∷ ws) x y h pv pw e = absurd (omega arith)
witnesses_field (v ∷ vs) [] x y h pv pw e = absurd (omega arith)
witnesses_field (v ∷ vs) (w ∷ ws) x y h pv pw e =
    let short : (u : List ℕ) (rest : List ℕ)
        → witness_bytes u ++ rest ≡ le_bytes 4 (length u % 2 ^ 32) ++ (u ++ rest) =
      λ u rest. simp (append_assoc, append-nil) in
    let e' : le_bytes 4 (length v % 2 ^ 32) ++ (v ++ (flat witness_bytes vs ++ x))
        ≡ le_bytes 4 (length w % 2 ^ 32) ++ (w ++ (flat witness_bytes ws ++ y)) =
      sym (short v _)
      ∙ sym (append_assoc (witness_bytes v) _ x)
      ∙ e
      ∙ append_assoc (witness_bytes w) _ y
      ∙ short w _ in
    let (l, t) =
      le_field 4 (length v % 2 ^ 32) (length w % 2 ^ 32) (omega arith) (omega arith) e' in
    let (same, rest) = append_inj v w (omega (arith, pv.0, pw.0)) t in
    ap₂ ◌∷◌ same (witnesses_field vs ws x y (omega arith) pv.1 pw.1 rest)

-- Everything of a transaction that its hash covers.
pub record SameHashed (a b : Transaction) : Type 0 where
  pub chain_id : a.chain_id ≡ b.chain_id
  pub version : a.version ≡ b.version
  pub tx_type : a.tx_type ≡ b.tx_type
  pub inputs : map view_input a.inputs ≡ map view_input b.inputs
  pub outputs : map view_output a.outputs ≡ map view_output b.outputs
  pub fee : a.fee ≡ b.fee
  pub poh_tick : a.poh_tick ≡ b.poh_tick
  pub locktime : a.locktime ≡ b.locktime
  pub heartbeat_witnesses : a.heartbeat_witnesses ≡ b.heartbeat_witnesses

tx_bytes_inj :
    (a b : Transaction)
    → IsTransaction a
    → IsTransaction b
    → tx_bytes a ≡ tx_bytes b
    → SameHashed a b
unfolding tx_bytes
tx_bytes_inj a b ha hb e =
    let t0 = (append_inj (codes "AEVUM_TX_V4") (codes "AEVUM_TX_V4") refl e).1 in
    let (e1, t1) = u32_field a.chain_id b.chain_id ha.chain_id hb.chain_id t0 in
    let (e2, t2) = u32_field a.version b.version ha.version hb.version t1 in
    let (e3, t3) = append_inj (type_byte a.tx_type ∷ []) (type_byte b.tx_type ∷ []) refl t2 in
    let (n4, t4) =
      u32_field (length a.inputs % 2 ^ 32) (length b.inputs % 2 ^ 32) (omega arith) (omega arith)
        t3 in
    let (e4, t5) =
      flat_field input_bytes view_input IsInput 140 length-input_bytes input_bytes_inj a.inputs
        b.inputs (omega (arith, n4, ha.few_inputs, hb.few_inputs)) ha.inputs hb.inputs t4 in
    let (n6, t6) =
      u32_field (length a.outputs % 2 ^ 32) (length b.outputs % 2 ^ 32) (omega arith) (omega arith)
        t5 in
    let (e6, t7) =
      flat_field output_bytes view_output IsOutput 174 length-output_bytes output_bytes_inj
        a.outputs b.outputs (omega (arith, n6, ha.few_outputs, hb.few_outputs)) ha.outputs
        hb.outputs t6 in
    let (e8, t8) = u64_field a.fee b.fee ha.fee hb.fee t7 in
    let (e9, t9) = u64_field a.poh_tick b.poh_tick ha.poh_tick hb.poh_tick t8 in
    let (e10, t10) = u64_field a.locktime b.locktime ha.locktime hb.locktime t9 in
    let (n11, t11) =
      u32_field (length a.heartbeat_witnesses % 2 ^ 32) (length b.heartbeat_witnesses % 2 ^ 32)
        (omega arith) (omega arith) t10 in
    record {
      chain_id = e1;
      version = e2;
      tx_type = type_byte_inj a.tx_type b.tx_type (cc);
      inputs = e4;
      outputs = e6;
      fee = e8;
      poh_tick = e9;
      locktime = e10;
      heartbeat_witnesses =
          witnesses_field a.heartbeat_witnesses b.heartbeat_witnesses [] []
            (omega (arith, n11, ha.few_witnesses, hb.few_witnesses)) ha.short_witnesses
            hb.short_witnesses t11;
    }

-- Two transactions within the ranges of their types and with one hash agree on all that the hash
-- covers (chain, version, type, inputs without signatures, outputs without proofs, encrypted view
-- and lineage, fee, tick, locktime, witnesses), or the bytes that are hashed for the two differ and
-- have one digest.
pub recompute_hash-binds :
    (c : Crypto) (a b : Transaction)
    → IsTransaction a
    → IsTransaction b
    → recompute_hash c a ≡ recompute_hash c b
    → SameHashed a b ⊎ Clash c (tx_bytes a) (tx_bytes b)
unfolding recompute_hash
recompute_hash-binds c a b ha hb h = elim (digest_binds c (tx_bytes a) (tx_bytes b) h) [
  | inl same ↦ inl (tx_bytes_inj a b ha hb same)
  | inr clash ↦ inr clash
]
