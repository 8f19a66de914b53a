-- ===== src/Core/Genesis.antt =====
-- crates/aevum-core/src/genesis.rs: the genesis block. `only_coinbase` is the test on the only transaction.
use Prim.Native.String.{String}
use aevum_public.Base.{
  ℕ, ◌≡◌, sym, ◌↔◌, Bool, true, false, not, ◌&&◌, List, [], ◌∷◌, arith, ltb, ◌==◌, Result, ok, ◌>>◌,
  fail_if,
}
use aevum_public.Base.Bytes.{codes, le_bytes, array_bytes, updates, flat}
use aevum_public.Crypto.{Crypto}
use aevum_public.Core.Transaction.{Transaction, is_coinbase}

pub record GenesisBlock : Type 0 where
  pub version : ℕ
  pub chain_id : ℕ
  pub height : ℕ
  pub timestamp : ℕ
  pub transactions : List Transaction
  pub state_root : ℕ
  pub total_supply : ℕ
  pub block_hash : ℕ

unfoldable pub genesis_bytes : GenesisBlock → List ℕ
genesis_bytes g = updates (
    codes "AEVUM_GENESIS_V1"
    ∷ le_bytes 4 g.version
    ∷ le_bytes 4 g.chain_id
    ∷ le_bytes 8 g.height
    ∷ le_bytes 8 g.timestamp
    ∷ flat (λ tx. array_bytes tx.tx_hash) g.transactions
    ∷ array_bytes g.state_root
    ∷ le_bytes 8 g.total_supply
    ∷ [])

-- `transactions.len() == 1 && transactions[0].is_coinbase()`
unfoldable pub only_coinbase : List Transaction → Bool
only_coinbase [] = false
only_coinbase (tx ∷ []) = is_coinbase tx
only_coinbase (tx ∷ _ ∷ _) = false

module _ (c : Crypto) where
  unfoldable pub compute_hash : GenesisBlock → ℕ
  compute_hash g = c.digest (genesis_bytes g)

  unfoldable pub finalize : GenesisBlock → ℕ → Result String GenesisBlock
  finalize g expected_chain_id = do
    fail_if (not (g.height == 0)) "genesis height must be 0"
    fail_if (not (g.chain_id == expected_chain_id)) "wrong chain_id"
    fail_if (g.total_supply == 0) "genesis supply is zero"
    fail_if (not (only_coinbase g.transactions))
        "genesis must have exactly one coinbase transaction"
    ok (record g { block_hash = compute_hash g })

  unfoldable pub verify_internal : GenesisBlock → ℕ → Bool
  verify_internal g expected_chain_id =
      g.height == 0
      && (g.chain_id == expected_chain_id
          && (ltb 0 g.total_supply
              && (only_coinbase g.transactions && g.block_hash == compute_hash g)))

  -- A genesis block verifies for a chain exactly when `finalize` accepts it and changes nothing.
  pub genesis_verify-iff-finalize :
      (g : GenesisBlock) (id : ℕ) → (verify_internal g id ≡ true) ↔ (finalize g id ≡ ok g)
  unfolding verify_internal finalize compute_hash genesis_bytes
  genesis_verify-iff-finalize g id = (λ h. sound h, λ h. ground arith)
    where
      sound : verify_internal g id ≡ true → finalize g id ≡ ok g
      sound h =
          let same : g.block_hash ≡ compute_hash g = ground arith in
          let kept : record g { block_hash = compute_hash g } ≡ g =
            λ k. record g { block_hash = sym same k } in
          ground (arith, kept)

  -- Whatever `finalize` returns verifies, for the same chain.
  pub genesis_verify-finalize :
      (g g' : GenesisBlock) (id : ℕ) → finalize g id ≡ ok g' → verify_internal g' id ≡ true
  unfolding verify_internal finalize compute_hash genesis_bytes
  genesis_verify-finalize g g' id h = ground arith
