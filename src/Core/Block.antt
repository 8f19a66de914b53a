-- ===== src/Core/Block.antt =====
-- crates/aevum-core/src/block.rs: blocks, their hash, and the checks of a single block.
pub mod Hashing
pub mod Scanning
pub mod Validation
use Prim.Native.String.{String}
use aevum_public.Base.{
  ℕ, suc, ◌+◌, ◌*◌, ◌%◌, ◌^◌, ◌≡◌, Bool, true, false, not, ◌&&◌, ◌||◌, Option, none, some, List, [],
  ◌∷◌, map, ltb, ◌==◌, if◌then◌else◌, mem, length, is_empty, sum_by, Result, ok, err, ◌>>=◌, ◌>>◌,
  fail_if, saturating_add, saturating_mul,
}
use aevum_public.Base.Bytes.{codes, le_bytes, array_bytes, updates}
use aevum_public.Crypto.{Crypto}
use aevum_public.Core.Merkle.{merkle_root}
use aevum_public.Core.Transaction.{
  Transaction, TransactionType, TxInput, TxOutput, is_coinbase, is_heartbeat,
}

abbrev pub max_block_bytes : ℕ
max_block_bytes = 16 * 1024 * 1024

abbrev pub max_transactions : ℕ
max_transactions = 100_000

pub record SettlementCheckpoint : Type 0 where
  pub epoch_id : ℕ
  pub cursor : ℕ
  pub total_participants : ℕ
  pub participants_commitment : ℕ

pub record BlockCandidate : Type 0 where
  pub prev_hash : ℕ
  pub height : ℕ
  pub poh_tick_start : ℕ
  pub poh_tick_end : ℕ
  pub transactions : List Transaction
  pub is_presence_block : Bool
  pub settlement_checkpoint : Option SettlementCheckpoint

-- `StateRoot` is its hash.
pub record StatePreview : Type 0 where
  pub state_root : ℕ
  pub new_total_supply : ℕ

-- `consensus_counts` is `Consensus` with the formatted counts of heartbeats and coinbases.
pub data BlockError : Type 0 where
  zero_state_root : ℕ → BlockError
  zero_supply : ℕ → ℕ → BlockError
  invalid_block_hash : ℕ → ℕ → BlockError
  too_large : ℕ → ℕ → BlockError
  too_many_transactions : ℕ → ℕ → BlockError
  invalid_poh_ticks : ℕ → ℕ → BlockError
  invalid_transactions_root : ℕ → ℕ → BlockError
  consensus : String → BlockError
  consensus_counts : ℕ → ℕ → BlockError

pub record Block : Type 0 where
  pub prev_hash : ℕ
  pub height : ℕ
  pub poh_tick_start : ℕ
  pub poh_tick_end : ℕ
  pub transactions_root : ℕ
  pub transactions : List Transaction
  pub state_root : ℕ
  pub total_supply : ℕ
  pub block_hash : ℕ
  pub block_size : ℕ
  pub is_presence_block : Bool
  pub settlement_checkpoint : Option SettlementCheckpoint

unfoldable pub checkpoint_bytes : Option SettlementCheckpoint → List ℕ
checkpoint_bytes none = []
checkpoint_bytes (some cp) = updates (
    le_bytes 8 cp.epoch_id
    ∷ le_bytes 8 cp.cursor
    ∷ le_bytes 8 cp.total_participants
    ∷ array_bytes cp.participants_commitment
    ∷ [])

abbrev pub bool_byte : Bool → ℕ
bool_byte true = 1
bool_byte false = 0

-- What `compute_hash` feeds the hasher with.
unfoldable pub block_bytes : Block → List ℕ
block_bytes b = updates (
    codes "AEVUM_BLOCK"
    ∷ le_bytes 8 b.height
    ∷ array_bytes b.prev_hash
    ∷ le_bytes 8 b.poh_tick_start
    ∷ le_bytes 8 b.poh_tick_end
    ∷ array_bytes b.transactions_root
    ∷ array_bytes b.state_root
    ∷ le_bytes 8 b.total_supply
    ∷ (bool_byte b.is_presence_block ∷ [])
    ∷ checkpoint_bytes b.settlement_checkpoint
    ∷ [])

unfoldable pub is_genesis : Block → Bool
is_genesis b = b.height == 0 && b.prev_hash == 0

unfoldable pub heartbeat_tx : Block → Option Transaction
heartbeat_tx b = elim b.transactions [
  | [] ↦ none
  | tx ∷ _ ↦ if is_heartbeat tx then some tx else none
]

unfoldable pub find_coinbase : List Transaction → Option Transaction
find_coinbase [] = none
find_coinbase (tx ∷ txs) = if is_coinbase tx then some tx else find_coinbase txs

unfoldable pub coinbase_tx : Block → Option Transaction
coinbase_tx b = find_coinbase b.transactions

-- `256usize.saturating_add(transactions.len().saturating_mul(512))`
unfoldable pub size_of : List Transaction → ℕ
size_of txs = saturating_add 256 (saturating_mul (length txs) 512)

-- The state of the loop of `validate_internal`. The two counters are `u8`s that saturate.
pub record Scan : Type 0 where
  pub heartbeats : ℕ
  pub coinbases : ℕ
  pub seen : List ℕ

-- The loop over the inputs of one transaction: the nullifiers seen after it.
unfoldable pub check_inputs : List ℕ → List TxInput → Result BlockError (List ℕ)
check_inputs seen [] = ok seen
check_inputs seen (i ∷ is) = do
  fail_if (i.nullifier == 0) (consensus "zero nullifier")
  fail_if (mem i.nullifier seen) (consensus "duplicate nullifier")
  check_inputs (i.nullifier ∷ seen) is

abbrev pub count_up : ℕ → ℕ
count_up n = if ltb n 255 then n + 1 else 255

-- `iter().map(|o| o.amount).sum()`, which wraps round in a release build.
abbrev pub output_sum : Transaction → ℕ
output_sum tx = sum_by (λ o. o.amount) tx.outputs % 2 ^ 64

unfoldable pub check_standard : Block → Scan → Transaction → Result BlockError Scan
check_standard b s tx = do
  fail_if (ltb tx.poh_tick b.poh_tick_start || ltb b.poh_tick_end tx.poh_tick)
      (consensus "tx outside PoH")
  seen ← check_inputs s.seen tx.inputs
  fail_if (output_sum tx == 0 && tx.fee == 0) (consensus "zero value tx")
  fail_if (ltb 0 tx.locktime && ltb b.height tx.locktime) (consensus "tx locked")
  ok (record s { seen = seen })

-- One round of the loop over the transactions; `i` is the index.
unfoldable pub check_tx : Block → ℕ → Scan → Transaction → Result BlockError Scan
check_tx b i s tx = elim tx.tx_type [
  | TransactionType.heartbeat ↦ do
    fail_if (not (i == 0)) (consensus "heartbeat not first")
    ok (record s { heartbeats = count_up s.heartbeats })
  | TransactionType.coinbase ↦ do
    fail_if (ltb 1 (count_up s.coinbases)) (consensus "duplicate coinbase")
    ok (record s { coinbases = count_up s.coinbases })
  | TransactionType.standard ↦ check_standard b s tx
]

unfoldable pub check_txs : Block → ℕ → Scan → List Transaction → Result BlockError Scan
check_txs b i s [] = ok s
check_txs b i s (tx ∷ txs) = do s' ← check_tx b i s tx; check_txs b (i + 1) s' txs

abbrev pub scan_start : Scan
scan_start = record { heartbeats = 0; coinbases = 0; seen = [] }

module _ (c : Crypto) where
  unfoldable pub compute_transactions_root : List Transaction → ℕ
  compute_transactions_root txs =
      merkle_root c (codes "AEVUM_MERKLE_V15") (map (λ t. t.tx_hash) txs)

  unfoldable pub compute_hash : Block → ℕ
  compute_hash b = c.digest (block_bytes b)

  -- `block.block_hash = block.compute_hash()`
  unfoldable pub seal : Block → Block
  seal b = record b { block_hash = compute_hash b }

  unfoldable pub from_candidate : BlockCandidate → StatePreview → Result BlockError Block
  from_candidate candidate preview = do
    fail_if (preview.state_root == 0 && ltb 0 candidate.height) (zero_state_root candidate.height)
    fail_if (preview.new_total_supply == 0 && ltb 0 candidate.height)
        (zero_supply candidate.height preview.new_total_supply)
    ok (
        seal (record {
          prev_hash = candidate.prev_hash;
          height = candidate.height;
          poh_tick_start = candidate.poh_tick_start;
          poh_tick_end = candidate.poh_tick_end;
          transactions_root = compute_transactions_root candidate.transactions;
          transactions = candidate.transactions;
          state_root = preview.state_root;
          total_supply = preview.new_total_supply;
          block_hash = 0;
          block_size = size_of candidate.transactions;
          is_presence_block = candidate.is_presence_block;
          settlement_checkpoint = candidate.settlement_checkpoint;
        }))

  unfoldable pub new_block : ℕ → ℕ → ℕ → ℕ → List Transaction → ℕ → ℕ → Block
  new_block prev_hash height poh_start poh_end transactions state_root total_supply = seal (record {
    prev_hash = prev_hash;
    height = height;
    poh_tick_start = poh_start;
    poh_tick_end = poh_end;
    transactions_root = compute_transactions_root transactions;
    transactions = transactions;
    state_root = state_root;
    total_supply = total_supply;
    block_hash = 0;
    block_size = size_of transactions;
    is_presence_block = true;
    settlement_checkpoint = none;
  })

  unfoldable pub finalize_state : Block → ℕ → ℕ → Block
  finalize_state b state_root new_supply =
      seal (record b { state_root = state_root; total_supply = new_supply })

  unfoldable pub validate_internal : Block → Result BlockError (Unit {0})
  validate_internal b = do
    fail_if (not (b.block_hash == compute_hash b))
        (invalid_block_hash (compute_hash b) b.block_hash)
    fail_if (ltb max_block_bytes b.block_size) (too_large b.block_size max_block_bytes)
    fail_if (is_empty b.transactions || ltb max_transactions (length b.transactions))
        (too_many_transactions (length b.transactions) max_transactions)
    fail_if (ltb b.poh_tick_end b.poh_tick_start)
        (invalid_poh_ticks b.poh_tick_start b.poh_tick_end)
    fail_if (not (b.transactions_root == compute_transactions_root b.transactions))
        (invalid_transactions_root (compute_transactions_root b.transactions) b.transactions_root)
    s ← check_txs b 0 scan_start b.transactions
    let expected_hb = if is_genesis b then 0 else 1
    fail_if (not (s.heartbeats == expected_hb) || not (s.coinbases == 1))
        (consensus_counts s.heartbeats s.coinbases)
    ok tt
