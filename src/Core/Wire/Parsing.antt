-- ===== src/Core/Wire/Parsing.antt =====
-- crates/aevum-core/src/wire_zero_copy.rs: the views read what was encoded.
use aevum_public.Base.{
  ℕ, ◌+◌, ◌≡◌, refl, sym, ◌∙◌, ap₂, subst, some, List, [], ◌∷◌, ◌++◌, append-nil, length, take,
  take-append, arith, All, IsU64, IsU32, length-append, ◌==◌,
}
use aevum_public.Base.Bytes.{
  le_bytes, array_bytes, length-le_bytes, length-array_bytes, updates, flat,
}
use aevum_public.Core.Transaction.{
  TransactionType, standard, coinbase, heartbeat, type_byte, TxInput, TxOutput, Transaction,
}
use aevum_public.Core.Wire.Cursor.{
  Parser, pure, ◌>>=◌, ◌>>◌, u8, u16, u32, u64, skip, skip_input, skip_output, skip_witness,
  skip_inputs, skip_outputs, skip_witnesses, new_cursor,
}
use aevum_public.Core.Wire.Views.{expected_wire_version, TxView, tx_view, parse_tx, position}
use aevum_public.Core.Wire.Format.{
  counted_bytes, encode_input, encode_output, encode_tx, IsEncodable,
}
use aevum_public.Core.Wire.Reading.{
  Reads, ReadsTo, then-Reads, next-Reads, times-Reads, uint-Reads, hash-Reads, skip-Reads,
  check-Reads, run_eq,
}

pub u32-Reads : (n : ℕ) → IsU32 n → Reads u32 (le_bytes 4 n) n
unfolding u32
u32-Reads n h = uint-Reads 4 n (omega arith)

pub u64-Reads : (n : ℕ) → IsU64 n → Reads u64 (le_bytes 8 n) n
unfolding u64
u64-Reads n h = uint-Reads 8 n (omega arith)

pub version-Reads : Reads u16 (le_bytes 2 expected_wire_version) expected_wire_version
unfolding u16
version-Reads = uint-Reads 2 5 (omega arith)

type-Reads : (t : TransactionType) → Reads u8 (le_bytes 1 (type_byte t)) (type_byte t)
unfolding u8
type-Reads standard = uint-Reads 1 0 (omega arith)
type-Reads coinbase = uint-Reads 1 1 (omega arith)
type-Reads heartbeat = uint-Reads 1 2 (omega arith)

skip_array : (n : ℕ) → Reads (skip 32) (array_bytes n) tt
skip_array n = skip-Reads 32 (array_bytes n) (length-array_bytes n)

skip_word : (k n : ℕ) → Reads (skip k) (le_bytes k n) tt
skip_word k n = skip-Reads k (le_bytes k n) (length-le_bytes k n)

length-updates :
    (a b c : List ℕ) → length (updates (a ∷ b ∷ c ∷ [])) ≡ length a + length b + length c
length-updates a b c =
    omega (arith, length-append a (b ++ (c ++ [])), length-append b (c ++ []), length-append c [])

skip_witness-Reads : (w : List ℕ) → IsU32 (length w) → Reads skip_witness (counted_bytes w) tt
unfolding skip_witness counted_bytes
skip_witness-Reads w h e =
    then-Reads _ (le_bytes 4 (length w)) w (u32-Reads (length w) h) (skip-Reads (length w) w refl e)

skip_input-Reads : (i : TxInput) → IsU32 (length i.signature) → Reads skip_input (encode_input i) tt
unfolding skip_input encode_input
skip_input-Reads i h e = then-Reads _ head _ (skip-Reads (32 + 4 + 32) head head_width) (
    then-Reads _ (le_bytes 4 (length i.signature)) _ (u32-Reads (length i.signature) h) (
      then-Reads _ i.signature tail (skip-Reads (length i.signature) i.signature refl)
        (skip-Reads (32 + 32 + 8) tail tail_width e)))
  where
    head : List ℕ
    head =
        updates (array_bytes i.tx_hash ∷ le_bytes 4 i.output_index ∷ array_bytes i.nullifier ∷ [])

    tail : List ℕ
    tail = updates (array_bytes i.public_key ∷ array_bytes i.signed_hash ∷ le_bytes 8 i.nonce ∷ [])

    head_width : length head ≡ 32 + 4 + 32
    head_width = omega (
      arith,
      length-updates (array_bytes i.tx_hash) (le_bytes 4 i.output_index) (array_bytes i.nullifier),
      length-array_bytes i.tx_hash,
      length-le_bytes 4 i.output_index,
      length-array_bytes i.nullifier,
    )

    tail_width : length tail ≡ 32 + 32 + 8
    tail_width = omega (
      arith,
      length-updates (array_bytes i.public_key) (array_bytes i.signed_hash) (le_bytes 8 i.nonce),
      length-array_bytes i.public_key,
      length-array_bytes i.signed_hash,
      length-le_bytes 8 i.nonce,
    )

last-Reads : {A : Type 0} {p : Parser A} (bs : List ℕ) {a : A} → Reads p bs a → Reads p (bs ++ []) a
last-Reads {p} bs {a} h = subst (λ bytes. Reads p bytes a) (sym (append-nil bs)) h

-- The fields of an output behind its proof.
skip_tail : Parser (Unit {0})
skip_tail = do skip 32; skip 32; skip 8; skip 8; skip 8; skip 4

tail_bytes : TxOutput → List ℕ
tail_bytes o = updates (
    array_bytes o.tx_hash
    ∷ array_bytes o.view_key_public
    ∷ le_bytes 8 o.encrypted_amount
    ∷ le_bytes 8 o.auth_tag
    ∷ le_bytes 8 o.restriction_level
    ∷ le_bytes 4 o.output_index
    ∷ [])

skip_tail-Reads : (o : TxOutput) → Reads skip_tail (tail_bytes o) tt
unfolding skip_tail tail_bytes
skip_tail-Reads o e = then-Reads _ (array_bytes o.tx_hash) _ (skip_array o.tx_hash) (
    then-Reads _ (array_bytes o.view_key_public) _ (skip_array o.view_key_public) (
      then-Reads _ (le_bytes 8 o.encrypted_amount) _ (skip_word 8 o.encrypted_amount) (
        then-Reads _ (le_bytes 8 o.auth_tag) _ (skip_word 8 o.auth_tag) (
          then-Reads _ (le_bytes 8 o.restriction_level) _ (skip_word 8 o.restriction_level)
            (last-Reads (le_bytes 4 o.output_index) (skip_word 4 o.output_index) e)))))

skip_inputs-Reads :
    (is' : List TxInput)
    → All (λ i. IsU32 (length i.signature)) is'
    → Reads (skip_inputs (length is')) (flat encode_input is') tt
unfolding skip_inputs
skip_inputs-Reads =
    times-Reads skip_input encode_input (λ i. IsU32 (length i.signature)) skip_input-Reads

skip_witnesses-Reads :
    (ws : List (List ℕ))
    → IsU32 (length ws)
    → All (λ w. IsU32 (length w)) ws
    → Reads skip_witnesses (le_bytes 4 (length ws) ++ flat counted_bytes ws) tt
unfolding skip_witnesses
skip_witnesses-Reads ws few h e =
    then-Reads _ (le_bytes 4 (length ws)) _ (u32-Reads (length ws) few)
      (times-Reads skip_witness counted_bytes (λ w. IsU32 (length w)) skip_witness-Reads ws h e)

end-ReadsTo :
    {A : Type 0} {e : ℕ} (view : ℕ → A) → ReadsTo e (position >>= (λ n. pure (view n))) [] (view e)
unfolding position
end-ReadsTo {e} view c rest h ends =
    let here : c.pos ≡ e = omega arith in
    let still : c.pos ≡ c.pos + 0 = omega arith in
    ap₂ (λ n m. some (view n, record c { pos = m })) here still

module _ (proof_data : ℕ → List ℕ) where
  skip_output-Reads :
      (o : TxOutput)
      → IsU32 (length (proof_data o.zk_proof))
      → Reads skip_output (encode_output proof_data o) tt
  unfolding skip_output encode_output skip_tail tail_bytes
  skip_output-Reads o h e = then-Reads _ (le_bytes 8 o.amount) _ (skip_word 8 o.amount) (
      then-Reads _ (array_bytes o.owner) _ (skip_array o.owner) (
        then-Reads _ (array_bytes o.amount_commitment) _ (skip_array o.amount_commitment) (
          then-Reads _ (array_bytes o.tag_commitment) _ (skip_array o.tag_commitment) (
            then-Reads _ (array_bytes o.nullifier) _ (skip_array o.nullifier) (
              then-Reads _ (le_bytes 8 o.serial) _ (skip_word 8 o.serial) (
                then-Reads _ (le_bytes 4 (length (proof_data o.zk_proof))) _
                  (u32-Reads (length (proof_data o.zk_proof)) h)
                  (then-Reads _ (proof_data o.zk_proof) _
                    (skip-Reads (length (proof_data o.zk_proof)) (proof_data o.zk_proof) refl)
                    (skip_tail-Reads o e))))))))

  skip_outputs-Reads :
      (os : List TxOutput)
      → All (λ o. IsU32 (length (proof_data o.zk_proof))) os
      → Reads (skip_outputs (length os)) (flat (encode_output proof_data) os) tt
  unfolding skip_outputs
  skip_outputs-Reads =
      times-Reads skip_output (encode_output proof_data)
        (λ o. IsU32 (length (proof_data o.zk_proof))) skip_output-Reads

  -- The view of a transaction whose bytes end at `e` in the buffer.
  abbrev view_to : Transaction → ℕ → List ℕ → TxView
  view_to tx e buf = record {
    tx_hash = tx.tx_hash;
    fee = tx.fee;
    poh_tick = tx.poh_tick;
    locktime = tx.locktime;
    tx_type = type_byte tx.tx_type;
    input_count = length tx.inputs;
    output_count = length tx.outputs;
    parsed_len = e;
    raw = take e buf;
  }

  tx_view-ReadsTo :
      (tx : Transaction) (buf : List ℕ) (e : ℕ)
      → IsEncodable proof_data tx
      → ReadsTo e (tx_view buf) (encode_tx proof_data tx) (view_to tx e buf)
  unfolding tx_view encode_tx
  tx_view-ReadsTo tx buf e h = then-Reads _ (le_bytes 2 expected_wire_version) _ (version-Reads) (
      next-Reads ([]) _ (check-Reads (expected_wire_version == expected_wire_version) refl) (
        then-Reads _ (le_bytes 4 tx.version) _ (u32-Reads tx.version h.version) (
          then-Reads _ (le_bytes 4 tx.chain_id) _ (u32-Reads tx.chain_id h.chain_id) (
            then-Reads _ (le_bytes 1 (type_byte tx.tx_type)) _ (type-Reads tx.tx_type) (
              then-Reads _ (le_bytes 4 (length tx.inputs)) _
                (u32-Reads (length tx.inputs) h.few_inputs)
                (next-Reads (flat encode_input tx.inputs) _
                  (skip_inputs-Reads tx.inputs h.signatures)
                  (then-Reads _ (le_bytes 4 (length tx.outputs)) _
                    (u32-Reads (length tx.outputs) h.few_outputs)
                    (next-Reads (flat (encode_output proof_data) tx.outputs) _
                      (skip_outputs-Reads tx.outputs h.proofs)
                      (then-Reads _ (le_bytes 8 tx.fee) _ (u64-Reads tx.fee h.fee) (
                        then-Reads _ (array_bytes tx.tx_hash) _ (hash-Reads tx.tx_hash h.tx_hash) (
                          then-Reads _ (le_bytes 8 tx.poh_tick) _ (u64-Reads tx.poh_tick h.poh_tick)
                            (then-Reads _ (le_bytes 8 tx.locktime) _
                              (u64-Reads tx.locktime h.locktime)
                              (next-Reads
                                (le_bytes 4 (length tx.heartbeat_witnesses)
                                  ++ flat counted_bytes tx.heartbeat_witnesses)
                                _
                                (skip_witnesses-Reads tx.heartbeat_witnesses h.few_witnesses
                                  h.witnesses)
                                (end-ReadsTo (λ n. view_to tx n buf)))))))))))))))

  -- A transaction's bytes, whatever follows them, give a view with its fields and their length.
  pub parse_tx-encode :
      (tx : Transaction) (rest : List ℕ)
      → IsEncodable proof_data tx
      → parse_tx (encode_tx proof_data tx ++ rest)
        ≡ some (record {
          tx_hash = tx.tx_hash;
          fee = tx.fee;
          poh_tick = tx.poh_tick;
          locktime = tx.locktime;
          tx_type = type_byte tx.tx_type;
          input_count = length tx.inputs;
          output_count = length tx.outputs;
          parsed_len = length (encode_tx proof_data tx);
          raw = encode_tx proof_data tx;
        })
  unfolding parse_tx new_cursor
  parse_tx-encode tx rest h =
      let buf = encode_tx proof_data tx ++ rest in
      let read =
        tx_view-ReadsTo tx buf (length (encode_tx proof_data tx)) h (new_cursor buf) rest
          (omega arith, refl) (omega arith) in
      run_eq (tx_view buf) buf read
      ∙ rw (take-append (encode_tx proof_data tx) rest (length (encode_tx proof_data tx)) refl) refl
