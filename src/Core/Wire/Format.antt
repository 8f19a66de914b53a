-- ===== src/Core/Wire/Format.antt =====
-- crates/aevum-core/src/wire_zero_copy.rs: the format that its comments document, as an encoder of
-- headers and transactions. `proof_data` gives the bytes of a proof, whose type is of a module that
-- is not in the repository.
use aevum_public.Base.{ℕ, List, [], ◌∷◌, ◌++◌, length, All, IsU64, IsU32, IsWord32}
use aevum_public.Base.Bytes.{le_bytes, array_bytes, updates, flat}
use aevum_public.Core.Transaction.{type_byte, TxInput, TxOutput, Transaction}
use aevum_public.Core.Wire.Views.{expected_wire_version}

-- [version:2][block_hash:32][prev_hash:32][height:8][poh_start:8][poh_end:8][tx_root:32][tx_count:4]
unfoldable pub encode_header : ℕ → ℕ → ℕ → ℕ → ℕ → ℕ → ℕ → List ℕ
encode_header block_hash prev_hash height poh_start poh_end tx_root tx_count = updates (
    le_bytes 2 expected_wire_version
    ∷ array_bytes block_hash
    ∷ array_bytes prev_hash
    ∷ le_bytes 8 height
    ∷ le_bytes 8 poh_start
    ∷ le_bytes 8 poh_end
    ∷ array_bytes tx_root
    ∷ le_bytes 4 tx_count
    ∷ [])

-- Bytes behind their count.
unfoldable pub counted_bytes : List ℕ → List ℕ
counted_bytes bytes = le_bytes 4 (length bytes) ++ bytes

unfoldable pub encode_input : TxInput → List ℕ
encode_input i =
    updates (array_bytes i.tx_hash ∷ le_bytes 4 i.output_index ∷ array_bytes i.nullifier ∷ [])
    ++ (le_bytes 4 (length i.signature)
        ++ (i.signature
            ++ updates
                (array_bytes i.public_key ∷ array_bytes i.signed_hash ∷ le_bytes 8 i.nonce ∷ [])))

module _ (proof_data : ℕ → List ℕ) where
  unfoldable pub encode_output : TxOutput → List ℕ
  encode_output o = updates (
      le_bytes 8 o.amount
      ∷ array_bytes o.owner
      ∷ array_bytes o.amount_commitment
      ∷ array_bytes o.tag_commitment
      ∷ array_bytes o.nullifier
      ∷ le_bytes 8 o.serial
      ∷ le_bytes 4 (length (proof_data o.zk_proof))
      ∷ proof_data o.zk_proof
      ∷ array_bytes o.tx_hash
      ∷ array_bytes o.view_key_public
      ∷ le_bytes 8 o.encrypted_amount
      ∷ le_bytes 8 o.auth_tag
      ∷ le_bytes 8 o.restriction_level
      ∷ le_bytes 4 o.output_index
      ∷ [])

  unfoldable pub encode_tx : Transaction → List ℕ
  encode_tx tx = updates (
      le_bytes 2 expected_wire_version
      ∷ le_bytes 4 tx.version
      ∷ le_bytes 4 tx.chain_id
      ∷ le_bytes 1 (type_byte tx.tx_type)
      ∷ le_bytes 4 (length tx.inputs)
      ∷ flat encode_input tx.inputs
      ∷ le_bytes 4 (length tx.outputs)
      ∷ flat encode_output tx.outputs
      ∷ le_bytes 8 tx.fee
      ∷ array_bytes tx.tx_hash
      ∷ le_bytes 8 tx.poh_tick
      ∷ le_bytes 8 tx.locktime
      ∷ (le_bytes 4 (length tx.heartbeat_witnesses) ++ flat counted_bytes tx.heartbeat_witnesses)
      ∷ [])

-- The fields that the views read have their widths, and the counts fit in 32 bits.
pub record IsEncodable (proof_data : ℕ → List ℕ) (tx : Transaction) : Type 0 where
  pub version : IsU32 tx.version
  pub chain_id : IsU32 tx.chain_id
  pub few_inputs : IsU32 (length tx.inputs)
  pub signatures : All (λ i. IsU32 (length i.signature)) tx.inputs
  pub few_outputs : IsU32 (length tx.outputs)
  pub proofs : All (λ o. IsU32 (length (proof_data o.zk_proof))) tx.outputs
  pub fee : IsU64 tx.fee
  pub tx_hash : IsWord32 tx.tx_hash
  pub poh_tick : IsU64 tx.poh_tick
  pub locktime : IsU64 tx.locktime
  pub few_witnesses : IsU32 (length tx.heartbeat_witnesses)
  pub witnesses : All (λ w. IsU32 (length w)) tx.heartbeat_witnesses
