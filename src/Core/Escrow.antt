-- ===== src/Core/Escrow.antt =====
-- crates/aevum-core/src/escrow.rs: the reward of a task held in escrow, and how it is paid out.
-- `+`, `-` and `*` of `u64` wrap round, as in a release build. A payout is a key with an amount.
pub mod Payout
use aevum_public.Base.{
  ℕ, ◌+◌, ◌*◌, ◌/◌, ◌%◌, ◌^◌, Bool, true, false, Option, none, some, List, [], ◌∷◌, ◌++◌, ltb, ◌==◌,
  is_empty, sum_by, if◌then◌else◌, wrapping_add, wrapping_sub, wrapping_mul,
}
use aevum_public.Base.Bytes.{le_bytes, array_bytes, updates}
use aevum_public.Crypto.{Crypto}

pub data EscrowStatus : Type 0 where
  funded in_progress completed refunded : EscrowStatus

pub record EscrowContract : Type 0 where
  pub contract_id : ℕ
  pub customer : ℕ
  pub total_reward : ℕ
  pub task_id : ℕ
  pub status : EscrowStatus
  pub created_height : ℕ
  pub deadline_height : ℕ
  pub winner_bonus_percent : ℕ
  pub pool_fee_percent : ℕ
  pub miner_shares : List (ℕ × ℕ)
  pub winner : Option ℕ

unfoldable pub new_contract : Crypto → ℕ → ℕ → ℕ → ℕ → ℕ → EscrowContract
new_contract c customer total_reward task_id created_height deadline_blocks = record {
  contract_id =
      c.digest
        (updates (array_bytes customer ∷ le_bytes 8 total_reward ∷ array_bytes task_id ∷ []));
  customer = customer;
  total_reward = total_reward;
  task_id = task_id;
  status = funded;
  created_height = created_height;
  deadline_height = wrapping_add created_height deadline_blocks;
  winner_bonus_percent = 200;
  pool_fee_percent = 100;
  miner_shares = [];
  winner = none;
}

-- The first entry of the key is raised, or a new one goes to the end.
unfoldable pub raise : ℕ → ℕ → List (ℕ × ℕ) → List (ℕ × ℕ)
raise key amount [] = (key, amount) ∷ []
raise key amount ((k, a) ∷ rest) =
    if k == key then (k, wrapping_add a amount) ∷ rest else (k, a) ∷ raise key amount rest

unfoldable pub add_share : EscrowContract → ℕ → ℕ → EscrowContract
add_share e miner shares = record e { miner_shares = raise miner shares e.miner_shares }

unfoldable pub set_winner : EscrowContract → ℕ → EscrowContract
set_winner e winner = record e { winner = some winner; status = completed }

abbrev pub amounts : List (ℕ × ℕ) → ℕ
amounts = sum_by (λ p. p.1)

-- The loop over the shares: each miner's part of the base, where it is not 0.
unfoldable pub parts : ℕ → ℕ → List (ℕ × ℕ) → List (ℕ × ℕ)
parts base total [] = []
parts base total ((miner, shares) ∷ rest) =
    let amount = wrapping_mul base shares / total in
    if ltb 0 amount then (miner, amount) ∷ parts base total rest else parts base total rest

unfoldable pub pool_fee : EscrowContract → ℕ
pool_fee e = wrapping_mul e.total_reward e.pool_fee_percent / 10000

unfoldable pub winner_bonus : EscrowContract → ℕ → ℕ
winner_bonus e remaining = elim e.winner [
  | none ↦ 0
  | some w ↦ wrapping_mul remaining e.winner_bonus_percent / 10000
]

unfoldable pub pay_winner : Option ℕ → ℕ → List (ℕ × ℕ) → List (ℕ × ℕ)
pay_winner none bonus payouts = payouts
pay_winner (some w) bonus payouts = if ltb 0 bonus then raise w bonus payouts else payouts

-- What is left of the reward goes back to the customer.
unfoldable pub with_refund : ℕ → ℕ → List (ℕ × ℕ) → List (ℕ × ℕ)
with_refund customer remaining payouts =
    let refund = wrapping_sub remaining (amounts payouts % 2 ^ 64) in
    if ltb 0 refund then payouts ++ (customer, refund) ∷ [] else payouts

unfoldable pub distribute_reward : EscrowContract → List (ℕ × ℕ)
distribute_reward e =
    let remaining = wrapping_sub e.total_reward (pool_fee e) in
    let bonus = winner_bonus e remaining in
    let total = amounts e.miner_shares % 2 ^ 64 in
    if is_empty e.miner_shares
    then []
    else if total == 0
    then []
    else with_refund e.customer remaining
        (pay_winner e.winner bonus (parts (wrapping_sub remaining bonus) total e.miner_shares))

unfoldable pub refund : EscrowContract → EscrowContract × List (ℕ × ℕ)
refund e =
    (record e { status = refunded }, (e.customer, wrapping_sub e.total_reward (pool_fee e)) ∷ [])
