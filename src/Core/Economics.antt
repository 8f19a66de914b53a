-- ===== src/Core/Economics.antt =====
-- crates/aevum-core/src/economics.rs: rewards, emission, fees and the coinbase.
-- All numbers are `u64`; `>>` by n is the quotient by 2 ^ n, and `u128` intermediates do not overflow.
pub mod Emission
pub mod Coinbase
use Prim.Native.String.{String}
use aevum_public.Base.{
  ℕ, zero, suc, ◌+◌, ◌-◌, ◌*◌, ◌/◌, ◌%◌, ◌^◌, min, max, List, [], ◌∷◌, ltb, leb, ◌==◌,
  if◌then◌else◌, Result, ok, err, ◌>>=◌, ◌>>◌, fail_if, saturating_add, saturating_mul,
}
use aevum_public.Crypto.{Crypto}
use aevum_public.Core.Transaction.{
  Transaction, TxOutput, new_raw, compute_hash, new_coinbase_output,
}

abbrev pub sat : ℕ
sat = 100_000_000

abbrev pub initial_reward : ℕ
initial_reward = 10_000 * sat

abbrev pub halving_interval : ℕ
halving_interval = 350_000

abbrev pub max_supply : ℕ
max_supply = 371_000_000 * sat

abbrev pub fee_bps : ℕ
fee_bps = 10

abbrev pub dev_share_bps : ℕ
dev_share_bps = 1000

unfoldable pub block_reward : ℕ → ℕ
block_reward height =
    let halving = height / halving_interval in
    if leb 63 halving then 0 else initial_reward / 2 ^ halving

unfoldable pub complete_sum : ℕ → ℕ
complete_sum full_periods =
    let two_initial_interval : ℕ = 2 * initial_reward * halving_interval in
    if full_periods == 0
    then 0
    else if leb 63 full_periods
    then two_initial_interval
    else two_initial_interval - two_initial_interval / 2 ^ full_periods

-- The sum that `emitted` cuts off at the cap.
unfoldable pub uncapped : ℕ → ℕ
uncapped height =
    let h = min height (halving_interval * 63) in
    let full_periods = h / halving_interval in
    let remainder = h % halving_interval in
    let current_reward = if leb 63 full_periods then 0 else initial_reward / 2 ^ full_periods in
    complete_sum full_periods + current_reward * remainder

unfoldable pub emitted : ℕ → ℕ
emitted height = min (uncapped height) max_supply

-- The net fee of the miner, and the share of the developers.
unfoldable pub fee : ℕ → ℕ × ℕ
fee amount =
    let gross = max (saturating_mul amount fee_bps / 10_000) 1 in
    let dev = saturating_mul gross dev_share_bps / 10_000 in (gross - dev, dev)

unfoldable pub halving : ℕ → ℕ
halving height = height / halving_interval

unfoldable pub remaining : ℕ → ℕ
remaining supply = max_supply - supply

-- `if dev_cut > 0 { outputs.push(..) }`
unfoldable pub coinbase_outputs : Crypto → ℕ → ℕ → ℕ → ℕ → ℕ → ℕ → ℕ → List TxOutput
coinbase_outputs c proof dna miner miner_reward dev dev_cut epoch =
    new_coinbase_output c proof dna miner miner_reward epoch 0
    ∷ (if ltb 0 dev_cut then new_coinbase_output c proof dna dev dev_cut epoch 1 ∷ [] else [])

-- `proof` and `dna` name the values that the code takes from modules outside the repository.
unfoldable pub create_coinbase : Crypto → ℕ → ℕ → ℕ → ℕ → ℕ → ℕ → ℕ → ℕ → Result String Transaction
create_coinbase c proof dna miner height fees dev supply epoch = do
  fail_if (ltb max_supply supply) "invalid supply parameter"
  let base = block_reward height
  let (net_fee, dev_cut) = fee fees
  let miner_reward = saturating_add base net_fee
  let total = saturating_add miner_reward dev_cut
  fail_if (ltb max_supply (saturating_add supply total)) "supply cap exceeded"
  ok (
      compute_hash c (
        new_raw 1 2 [] (coinbase_outputs c proof dna miner miner_reward dev dev_cut epoch) 0 epoch
          height))
