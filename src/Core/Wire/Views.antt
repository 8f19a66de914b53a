-- ===== src/Core/Wire/Views.antt =====
-- crates/aevum-core/src/wire_zero_copy.rs: the views of a block's header and of a transaction, the
-- iterator over a block's transactions, and the fast checks.
use aevum_public.Base.{
  ℕ, zero, suc, ◌+◌, ◌-◌, Bool, false, ◌&&◌, Option, none, some, List, [], ◌∷◌, ltb, leb, ◌==◌,
  length, take, drop, if◌then◌else◌,
}
use aevum_public.Core.Wire.Cursor.{
  Cursor, Parser, pure, check, ◌>>=◌, ◌>>◌, new_cursor, skip, u8, u16, u32, u64, hash, skip_inputs,
  skip_outputs, skip_witnesses,
}

abbrev pub expected_wire_version : ℕ
expected_wire_version = 5

abbrev pub block_header_size : ℕ
block_header_size = 2 + 32 + 32 + 8 + 8 + 8 + 32 + 4

pub record BlockView : Type 0 where
  pub height : ℕ
  pub poh_start : ℕ
  pub poh_end : ℕ
  pub prev_hash : ℕ
  pub block_hash : ℕ
  pub tx_count : ℕ
  pub raw : List ℕ

pub record TxView : Type 0 where
  pub tx_hash : ℕ
  pub fee : ℕ
  pub poh_tick : ℕ
  pub locktime : ℕ
  pub tx_type : ℕ
  pub input_count : ℕ
  pub output_count : ℕ
  pub parsed_len : ℕ
  pub raw : List ℕ

-- The value of a run from the start of a buffer.
abbrev pub run : {A : Type 0} → Parser A → List ℕ → Option A
run p buf = elim (p (new_cursor buf)) [ none ↦ none | some r ↦ some r.0 ]

unfoldable pub block_view : List ℕ → Parser BlockView
block_view buf = do
  version ← u16
  check (version == expected_wire_version)
  block_hash ← hash
  prev_hash ← hash
  height ← u64
  poh_start ← u64
  poh_end ← u64
  tx_root ← hash
  tx_count ← u32
  pure (record {
    height = height;
    poh_start = poh_start;
    poh_end = poh_end;
    prev_hash = prev_hash;
    block_hash = block_hash;
    tx_count = tx_count;
    raw = buf;
  })

-- `Cursor::position` as a step that reads nothing.
unfoldable pub position : Parser ℕ
position c = some (c.pos, c)

unfoldable pub tx_view : List ℕ → Parser TxView
tx_view buf = do
  version ← u16
  check (version == expected_wire_version)
  tx_version ← u32
  chain_id ← u32
  tx_type ← u8
  input_count ← u32
  skip_inputs input_count
  output_count ← u32
  skip_outputs output_count
  fee ← u64
  tx_hash ← hash
  poh_tick ← u64
  locktime ← u64
  skip_witnesses
  parsed_len ← position
  pure (record {
    tx_hash = tx_hash;
    fee = fee;
    poh_tick = poh_tick;
    locktime = locktime;
    tx_type = tx_type;
    input_count = input_count;
    output_count = output_count;
    parsed_len = parsed_len;
    raw = take parsed_len buf;
  })

-- `BlockView::parse` and `TxView::parse`.
unfoldable pub parse_block : List ℕ → Option BlockView
parse_block buf = run (block_view buf) buf

unfoldable pub parse_tx : List ℕ → Option TxView
parse_tx buf = run (tx_view buf) buf

unfoldable pub has_transactions : BlockView → Bool
has_transactions v = ltb 0 v.tx_count

unfoldable pub is_genesis : BlockView → Bool
is_genesis v = v.height == 0

unfoldable pub is_coinbase_view : TxView → Bool
is_coinbase_view v = v.input_count == 0 && ltb 0 v.output_count

unfoldable pub is_heartbeat_view : TxView → Bool
is_heartbeat_view v = v.tx_type == 2

-- `BlockTxIter`.
pub record BlockTxIter : Type 0 where
  pub cursor : Cursor
  pub left : ℕ

unfoldable pub new_iter : List ℕ → ℕ → ℕ → Option BlockTxIter
new_iter buf offset tx_count =
    if ltb (length buf) offset
    then none
    else some (record { cursor = new_cursor (drop offset buf); left = tx_count })

-- `next`: what is yielded, and the iterator after it, which only a yielded view moves on.
unfoldable pub next : BlockTxIter → Option (TxView × BlockTxIter)
next it =
    if it.left == 0
    then none
    else if ltb (length it.cursor.buf) it.cursor.pos
    then none
    else elim (parse_tx (drop it.cursor.pos it.cursor.buf)) [
      | none ↦ none
      | some tx ↦ elim (skip tx.parsed_len it.cursor) [
        | none ↦ none
        | some moved ↦ some (tx, record it { cursor = moved.1; left = it.left - 1 })
      ]
    ]

-- `collect()` on an iterator that yields at most `fuel` views.
unfoldable pub collect_views : ℕ → BlockTxIter → List TxView
collect_views zero it = []
collect_views (suc fuel) it = elim (next it) [ none ↦ [] | some r ↦ r.0 ∷ collect_views fuel r.1 ]

-- `FastValidator`.
unfoldable pub fee_field : Parser ℕ
fee_field = do
  version ← u16
  check (version == expected_wire_version)
  tx_version ← u32
  chain_id ← u32
  skip 1
  input_count ← u32
  skip_inputs input_count
  output_count ← u32
  skip_outputs output_count
  u64

unfoldable pub check_min_fee : List ℕ → ℕ → Bool
check_min_fee buf min_fee = elim (run fee_field buf) [ none ↦ false | some fee ↦ leb min_fee fee ]

unfoldable pub check_tx_size : List ℕ → ℕ → Bool
check_tx_size buf max_size = leb (length buf) max_size

unfoldable pub check_not_empty : List ℕ → Bool
check_not_empty buf = ltb block_header_size (length buf)
