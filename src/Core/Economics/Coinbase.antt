-- ===== src/Core/Economics/Coinbase.antt =====
-- The outputs and the type of the transaction of `create_coinbase`, and the shares of a fee.
use aevum_public.Base.{
  ℕ, ◌+◌, ◌*◌, ◌/◌, ◌≤◌, ◌≡◌, max, arith, false, sum_by, ok, IsU64, saturating_add,
}
use aevum_public.Crypto.{Crypto}
use aevum_public.Core.Transaction.{
  Transaction, new_raw, compute_hash, new_coinbase_output, is_coinbase,
}
use aevum_public.Core.Economics.{max_supply, block_reward, fee, coinbase_outputs, create_coinbase}

-- The two shares of `fee` add up to the gross fee, a tenth of a per cent of the amount and at
-- least 1; the developers' share is the tenth part of it, rounded down.
pub fee-splits :
    (amount : ℕ)
    → IsU64 (amount * 10)
    → ((fee amount).0 + (fee amount).1 ≡ max (amount / 1000) 1)
      × ((fee amount).1 ≡ max (amount / 1000) 1 / 10)
unfolding fee
fee-splits amount h = (omega arith, omega arith)

sum-coinbase_outputs :
    (c : Crypto) (proof dna miner reward dev cut epoch : ℕ)
    → sum_by (λ o. o.amount) (coinbase_outputs c proof dna miner reward dev cut epoch)
      ≡ reward + cut
unfolding coinbase_outputs new_coinbase_output
sum-coinbase_outputs c proof dna miner reward dev cut epoch = ground arith

module _ (c : Crypto) (proof dna miner height fees dev supply epoch : ℕ) {tx : Transaction}
    (made : create_coinbase c proof dna miner height fees dev supply epoch ≡ ok tx) where
  -- When `create_coinbase` succeeds, its outputs pay the block reward and both shares of the fee,
  -- and the supply with them stays within the cap.
  pub create_coinbase-mints :
      (sum_by (λ o. o.amount) tx.outputs ≡ block_reward height + (fee fees).0 + (fee fees).1)
      × (supply + sum_by (λ o. o.amount) tx.outputs ≤ max_supply)
  unfolding create_coinbase compute_hash new_raw
  create_coinbase-mints = (ground (arith, paid), ground (arith, paid))
    where
      paid :
          sum_by
            (λ o. o.amount)
            (coinbase_outputs c proof dna miner
              (saturating_add (block_reward height) (fee fees).0)
              dev
              (fee fees).1
              epoch)
          ≡ saturating_add (block_reward height) (fee fees).0 + (fee fees).1
      paid = sum-coinbase_outputs c proof dna miner _ dev (fee fees).1 epoch

  -- The transaction that `create_coinbase` makes is not one that `is_coinbase` recognises.
  pub create_coinbase-not_coinbase : is_coinbase tx ≡ false
  unfolding create_coinbase compute_hash new_raw is_coinbase
  create_coinbase-not_coinbase = ground arith
