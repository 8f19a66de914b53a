-- ===== src/Tests/Chain/Money.antt =====
-- Emission, fees and the coinbase at concrete heights.
use aevum_public.Base.{◌+◌, ◌≡◌, refl, [], arith, ok}
use aevum_public.Core.Transaction.{Transaction, compute_hash, new_raw, new_coinbase_output}
use aevum_public.Core.Economics.{block_reward, fee, create_coinbase, coinbase_outputs}
use aevum_public.Core.Economics.Coinbase.{fee-splits}
use aevum_public.Tests.Values.{toy}

fee-splits_example : ((fee 50_000).0 + (fee 50_000).1 ≡ 50) × ((fee 50_000).1 ≡ 5)
fee-splits_example = fee-splits 50_000 (omega arith)

program : Unit {0}
unfolding create_coinbase compute_hash new_raw block_reward fee coinbase_outputs new_coinbase_output
program = tt

abbrev minted : Transaction
minted =
    compute_hash toy
      (new_raw 1 2 [] (coinbase_outputs toy 0 0 11 (1_000_000_000_000 + 45) 2 5 6) 0 6 3)

minted_ok : create_coinbase toy 0 0 11 3 50_000 2 1_000 6 ≡ ok minted
unfolding program
minted_ok = refl
