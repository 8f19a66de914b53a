-- ===== src/Tests/Wire.antt =====
-- The wire formats at two transactions.
use aevum_public.Base.{ℕ, ◌≡◌, refl, some, List, [], ◌∷◌, ◌++◌, arith, leb, drop}
use aevum_public.Base.Bytes.{flat, le_bytes, array_bytes}
use aevum_public.Core.Transaction.{
  recompute_hash, new_transaction, new_coinbase, new_raw, compute_hash as hash_tx,
}
use aevum_public.Core.Wire.Cursor.{new_cursor}
use aevum_public.Core.Wire.Views.{parse_tx, check_min_fee, new_iter, collect_views, BlockTxIter}
use aevum_public.Core.Wire.Format.{encode_tx, encode_input, encode_output, IsEncodable}
use aevum_public.Core.Wire.Parsing.{parse_tx-encode}
use aevum_public.Core.Wire.Bounds.{check_min_fee-parse_tx}
use aevum_public.Core.Wire.Iteration.{view_of, LiesAt, collect_views-encode, collect_views-LiesAt}
use aevum_public.Tests.Values.{payment, reward, fold_bytes-IsWord32}

-- Proofs whose data is one byte.
abbrev proof_data : ℕ → List ℕ
proof_data n = n ∷ []

payment-IsEncodable : IsEncodable proof_data payment
unfolding new_transaction new_raw hash_tx recompute_hash
payment-IsEncodable = record {
  version = omega arith;
  chain_id = omega arith;
  few_inputs = omega arith;
  signatures = (omega arith, tt);
  few_outputs = omega arith;
  proofs = (omega arith, tt);
  fee = omega arith;
  tx_hash = fold_bytes-IsWord32 _;
  poh_tick = omega arith;
  locktime = omega arith;
  few_witnesses = omega arith;
  witnesses = tt;
}

reward-IsEncodable : IsEncodable proof_data reward
unfolding new_coinbase hash_tx recompute_hash
reward-IsEncodable = record {
  version = omega arith;
  chain_id = omega arith;
  few_inputs = omega arith;
  signatures = tt;
  few_outputs = omega arith;
  proofs = (omega arith, tt);
  fee = omega arith;
  tx_hash = fold_bytes-IsWord32 _;
  poh_tick = omega arith;
  locktime = omega arith;
  few_witnesses = omega arith;
  witnesses = tt;
}

parse_tx-encode_example :
    parse_tx (encode_tx proof_data payment ++ 1 ∷ 2 ∷ []) ≡ some (view_of proof_data payment)
parse_tx-encode_example = parse_tx-encode proof_data payment (1 ∷ 2 ∷ []) payment-IsEncodable

-- Three bytes in the place of a header, two transactions, and a byte behind them.
abbrev block_buffer : List ℕ
block_buffer = (7 ∷ 7 ∷ 7 ∷ []) ++ (flat (encode_tx proof_data) (reward ∷ payment ∷ []) ++ 9 ∷ [])

abbrev block_iter : BlockTxIter
block_iter = record { cursor = new_cursor (drop 3 block_buffer); left = 2 }

block_iter-new : new_iter block_buffer 3 2 ≡ some block_iter
unfolding new_iter encode_tx le_bytes new_coinbase hash_tx encode_output array_bytes new_transaction
    new_raw encode_input
block_iter-new = refl

collect_views-encode_example :
    collect_views 5 block_iter ≡ view_of proof_data reward ∷ view_of proof_data payment ∷ []
collect_views-encode_example =
    collect_views-encode proof_data (7 ∷ 7 ∷ 7 ∷ []) (9 ∷ []) (reward ∷ payment ∷ []) 5 block_iter
      (reward-IsEncodable, (payment-IsEncodable, tt)) block_iter-new (omega arith)

check_min_fee-parse_tx_example :
    check_min_fee (encode_tx proof_data payment ++ 1 ∷ []) 3
    ≡ leb 3 (view_of proof_data payment).fee
check_min_fee-parse_tx_example =
    check_min_fee-parse_tx (encode_tx proof_data payment ++ 1 ∷ []) 3 (view_of proof_data payment)
      (parse_tx-encode proof_data payment (1 ∷ []) payment-IsEncodable)

collect_views-LiesAt_example :
    LiesAt block_iter.cursor.buf block_iter.cursor.pos (collect_views 5 block_iter)
collect_views-LiesAt_example = collect_views-LiesAt 5 block_iter
