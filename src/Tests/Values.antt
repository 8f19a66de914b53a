-- ===== src/Tests/Values.antt =====
-- Concrete values: a small digest, a signature that spells its key and message, and a few blocks.
use aevum_public.Base.{ℕ, ◌+◌, ◌*◌, ◌%◌, ◌^◌, true, List, [], ◌∷◌, ◌++◌, arith, IsWord32, replicate}
use aevum_public.Base.Bytes.{bytes_eq, bytes_eq_refl}
use aevum_public.Crypto.{Crypto, Keypair}
use aevum_public.Core.Transaction.{
  Transaction, TxInput, TxOutput, new_transaction, new_heartbeat, new_coinbase, new_coinbase_output,
}
use aevum_public.Core.Block.{Block, new_block}
use aevum_public.Core.Genesis.{GenesisBlock}
use aevum_public.Core.Settlement.{SettlementBlock, finalize, signing_message}
use aevum_public.L2.Transaction.{L2Transaction, L2Utxo, clean, new_unsigned, sign, new_utxo}
use aevum_public.L2.State.{L2State, new_state, credit}

abbrev pub fold_bytes : List ℕ → ℕ
fold_bytes [] = 7
fold_bytes (b ∷ bs) = (b + 1 + 257 * fold_bytes bs) % 2 ^ 256

pub fold_bytes-IsWord32 : (bs : List ℕ) → IsWord32 (fold_bytes bs)
fold_bytes-IsWord32 [] = omega arith
fold_bytes-IsWord32 (b ∷ bs) = omega arith

-- A signature of a message is the key before the message.
abbrev pub toy : Crypto
toy = record {
  digest = fold_bytes;
  digest-IsWord32 = fold_bytes-IsWord32;
  is_key = λ k. true;
  verify = λ k m s. bytes_eq s (k ∷ m);
}

abbrev pub alice : Keypair toy
alice = record { key = 11; sign = λ m. 11 ∷ m; signs = λ m. bytes_eq_refl (11 ∷ m) }

abbrev pub input_one : TxInput
input_one = record {
  tx_hash = 3;
  output_index = 0;
  nullifier = 5;
  signature = replicate 64 0;
  public_key = 11;
  signed_hash = 9;
  nonce = 0;
}

abbrev pub output_one : TxOutput
output_one = new_coinbase_output toy 0 0 11 25 1 0

abbrev pub payment : Transaction
payment = record (new_transaction toy (input_one ∷ []) (output_one ∷ []) 2) { poh_tick = 4 }

abbrev pub reward : Transaction
reward = new_coinbase toy (output_one ∷ []) 4 2

-- 32 bytes of an id, and a time.
abbrev pub witness_a : List ℕ
witness_a = 1 ∷ replicate 31 0 ++ 100 ∷ replicate 7 0

abbrev pub witness_b : List ℕ
witness_b = 2 ∷ replicate 31 0 ++ 100 ∷ replicate 7 0

abbrev pub beat : Transaction
beat = new_heartbeat toy (witness_a ∷ witness_b ∷ []) 2

-- A block at height 7 with a heartbeat, a coinbase and a payment.
abbrev pub block_seven : Block
block_seven = new_block toy 13 7 0 10 (beat ∷ reward ∷ payment ∷ []) 17 1000

abbrev pub genesis : GenesisBlock
genesis = record {
  version = 1;
  chain_id = 2;
  height = 0;
  timestamp = 1;
  transactions = reward ∷ [];
  state_root = 4;
  total_supply = 25;
  block_hash = 0;
}

abbrev pub open_epoch : SettlementBlock
open_epoch = record {
  total_fees = 1;
  total_rewards = 2;
  version = 1;
  chain_id = 2;
  epoch_id = 3;
  height = 4;
  previous_settlement_hash = 5;
  timestamp = 6;
  epoch_duration_secs = 7;
  epoch_start_time = 8;
  epoch_end_time = 9;
  presence_root = 10;
  transaction_root = 11;
  state_root = 12;
  reward_root = 13;
  participant_root = 14;
  epoch_snapshot_root = 15;
  presence_record_count = 16;
  transaction_count = 17;
  participant_count = 18;
  epoch_root = 0;
  epoch_commitment = 0;
  total_supply = 19;
  block_hash = 0;
  committee_signatures = [];
}

abbrev pub epoch : SettlementBlock
epoch = finalize toy open_epoch

-- Signed by the keys 21 and 22.
abbrev pub signed_epoch : SettlementBlock
signed_epoch = record epoch {
  committee_signatures = (21 ∷ signing_message epoch) ∷ (22 ∷ signing_message epoch) ∷ [];
}

abbrev pub transfer : L2Transaction
transfer = sign toy (new_unsigned toy 1 11 12 400 10 0 clean 5 6) alice

-- The founder is 1, the community fund is 2, and 11 holds 1000.
abbrev pub ledger : L2State
ledger = credit (new_state 1 2) 11 1000

abbrev pub near : L2Utxo
near = new_utxo 11 5 1 0 (record { distance = 1; origin = 3; timestamp = 9; restriction = 4 })

abbrev pub far : L2Utxo
far = new_utxo 11 5 1 1 (record { distance = 6; origin = 2; timestamp = 8; restriction = 0 })
