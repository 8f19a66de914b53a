-- ===== src/Tests/Services/Contracts.antt =====
-- An escrow with two miners and a winner.
use aevum_public.Base.{◌≡◌, arith}
use aevum_public.Core.Escrow.{
  EscrowContract, new_contract, raise, add_share, set_winner, amounts, distribute_reward,
}
use aevum_public.Core.Escrow.Payout.{IsPayable, distribute_reward-conserves}
use aevum_public.Tests.Values.{toy}

program : Unit {0}
unfolding new_contract raise add_share set_winner
program = tt

abbrev contract : EscrowContract
contract = set_winner (add_share (add_share (new_contract toy 11 1000 5 1 10) 21 3) 22 4) 22

payable : IsPayable contract
unfolding program
payable = record {
  reward = omega arith;
  pool = omega arith;
  bonus = omega arith;
  shared = omega arith;
  total = omega arith;
  shares = omega arith;
}

distribute_reward-conserves_example : amounts (distribute_reward contract) ≡ 990
unfolding program
distribute_reward-conserves_example = distribute_reward-conserves contract payable
