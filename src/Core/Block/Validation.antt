-- ===== src/Core/Block/Validation.antt =====
-- What `validate_internal` guarantees of a block that it accepts.
use aevum_public.Base.{
  ℕ, ◌≤◌, ◌≡◌, refl, sym, ◌∙◌, ◌≢◌, inl, inr, false, List, [], ◌∷◌, arith, length, All,
  if◌then◌else◌, mem, IsDistinct, ok, Result-cases,
}
use aevum_public.Crypto.{Crypto}
use aevum_public.Core.Transaction.{Transaction}
use aevum_public.Core.Block.{
  Block, Scan, scan_start, check_txs, compute_hash, compute_transactions_root, is_genesis,
  validate_internal, max_block_bytes, max_transactions,
}
use aevum_public.Core.Block.Scanning.{
  spent_nullifiers, coinbase_count, heartbeat_count, AllTimely, New, check_txs-Scanned,
  heartbeats_first, later,
}

-- What the protocol asks of a block on its own.
pub record IsWellFormed (c : Crypto) (b : Block) : Type 0 where
  pub sealed : b.block_hash ≡ compute_hash c b
  pub rooted : b.transactions_root ≡ compute_transactions_root c b.transactions
  pub sized : b.block_size ≤ max_block_bytes
  pub filled : b.transactions ≢ []
  pub few : length b.transactions ≤ max_transactions
  pub ticks : b.poh_tick_start ≤ b.poh_tick_end
  pub one_coinbase : coinbase_count b.transactions ≡ 1
  pub heartbeats : heartbeat_count b.transactions ≡ (if is_genesis b then 0 else 1)
  pub heartbeat_first : heartbeat_count (later b.transactions) ≡ 0
  pub no_double_spend : IsDistinct (spent_nullifiers b.transactions)
  pub no_zero_nullifier : mem 0 (spent_nullifiers b.transactions) ≡ false
  pub timely : AllTimely b b.transactions

nonzero : (seen ns : List ℕ) → All (New seen) ns → mem 0 ns ≡ false
nonzero seen [] h = refl
nonzero seen (n ∷ ns) h = ground (arith, nonzero seen ns h.1)

count_of_scan :
    (b : Block) (u : Scan) (txs : List Transaction)
    → check_txs b 0 scan_start txs ≡ ok u
    → txs ≢ []
    → (u.heartbeats ≡ heartbeat_count txs) × (heartbeat_count (later txs) ≡ 0)
count_of_scan b u [] h ne = absurd (ne refl)
count_of_scan b u (tx ∷ txs) h ne =
    let (now, quiet) = heartbeats_first b scan_start u tx.tx_type tx txs refl refl h in
    (omega (arith, now, quiet), quiet)

-- The checks of `validate_internal` before and after its loop, at the scan that the loop leaves.
validate_internal-scan :
    (c : Crypto) (b : Block)
    → validate_internal c b ≡ ok tt
    → (u : Scan) × (check_txs b 0 scan_start b.transactions ≡ ok u)
      × (b.block_hash ≡ compute_hash c b)
      × (b.transactions_root ≡ compute_transactions_root c b.transactions)
      × (b.block_size ≤ max_block_bytes)
      × (b.transactions ≢ [])
      × (length b.transactions ≤ max_transactions)
      × (b.poh_tick_start ≤ b.poh_tick_end)
      × (u.coinbases ≡ 1)
      × (u.heartbeats ≡ (if is_genesis b then 0 else 1))
unfolding validate_internal
validate_internal-scan c b h = elim (Result-cases (check_txs b 0 scan_start b.transactions)) [
  | inl (u, e) ↦ (
    u,
    e,
    ground arith,
    ground arith,
    ground arith,
    ground arith,
    ground arith,
    ground arith,
    ground arith,
    ground arith,
  )
  | inr (f, e) ↦ absurd (ground arith)
]

-- A block that `validate_internal` accepts carries its own hash and the root of its transactions,
-- keeps the limits of size and number, has ordered ticks, exactly one coinbase, no heartbeat at
-- genesis and exactly one elsewhere, which stands first; over all its standard transactions no
-- nullifier is zero and none occurs twice, and each of them lies within the ticks, has an output
-- sum (modulo 2 ^ 64) or a fee that is not zero, and is not locked beyond the height.
pub validate_internal-IsWellFormed :
    (c : Crypto) (b : Block) → validate_internal c b ≡ ok tt → IsWellFormed c b
validate_internal-IsWellFormed c b h =
    let (u, scan, sealed, rooted, sized, filled, few, ticks, coinbases, heartbeats) =
      validate_internal-scan c b h in
    let s = check_txs-Scanned b 0 scan_start u b.transactions scan in
    let (counted, quiet) = count_of_scan b u b.transactions scan filled in
    record {
      sealed = sealed;
      rooted = rooted;
      sized = sized;
      filled = filled;
      few = few;
      ticks = ticks;
      one_coinbase = omega (arith, s.coinbases, coinbases);
      heartbeats = sym counted ∙ heartbeats;
      heartbeat_first = quiet;
      no_double_spend = s.distinct;
      no_zero_nullifier = nonzero [] (spent_nullifiers b.transactions) s.fresh;
      timely = s.timely;
    }
