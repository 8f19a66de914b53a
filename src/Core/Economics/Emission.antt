-- ===== src/Core/Economics/Emission.antt =====
-- crates/aevum-core/src/economics.rs: the closed form of the emission against the sum of the rewards.
use aevum_public.Base.{ℕ, zero, suc, ◌+◌, ◌*◌, ◌/◌}
use aevum_public.Core.Economics.{initial_reward, halving_interval}

-- A number halved some times, rounding down each time.
abbrev pub halve : ℕ → ℕ → ℕ
halve zero n = n
halve (suc times) n = halve times n / 2

-- What the blocks below a height are to be paid: each interval has half the reward of the one before.
unfoldable pub rewards_below : ℕ → ℕ
rewards_below zero = 0
rewards_below (suc h) = rewards_below h + halve (h / halving_interval) initial_reward

-- All that would be paid if the reward were not rounded, and what the halvings leave of it.
abbrev total : ℕ
total = 2 * initial_reward * halving_interval
