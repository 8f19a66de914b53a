-- ===== src/Core/Escrow/Payout.antt =====
-- The sum of the payouts of an escrow.
use native.Mathlib.Nat.{
  mul-add, add-mul, mul-le-mul_left, mul-le-mul_right, le_of_mul-le-mul_right, div-mul-le_self,
  div-le_of_le-mul,
}
use aevum_public.Base.{
  ℕ, ◌+◌, ◌-◌, ◌*◌, ◌/◌, ◌%◌, ◌^◌, ◌≤◌, ◌<◌, ◌≡◌, refl, false, Option, none, some, List, [], ◌∷◌,
  arith, ◌==◌, is_empty, sum_by-append, IsU64, wrapping_sub,
}
use aevum_public.Core.Escrow.{
  EscrowContract, amounts, raise, parts, pool_fee, winner_bonus, pay_winner, with_refund,
  distribute_reward,
}

amounts-raise :
    (w bonus : ℕ) (ps : List (ℕ × ℕ))
    → IsU64 (amounts ps + bonus)
    → amounts (raise w bonus ps) ≡ amounts ps + bonus
unfolding raise
amounts-raise w bonus [] h = omega arith
amounts-raise w bonus ((k, a) ∷ rest) h =
    ground (arith, amounts-raise w bonus rest (omega (arith, h)))

amounts-parts :
    (base total : ℕ) (ms : List (ℕ × ℕ))
    → IsU64 (base * amounts ms)
    → amounts (parts base total ms) * total ≤ base * amounts ms
unfolding parts
amounts-parts base total [] h = omega arith
amounts-parts base total ((k, s) ∷ rest) h =
    let split = mul-add base s (amounts rest) in
    let later = amounts-parts base total rest (omega (arith, h, split)) in
    let exact : base * s % 2 ^ 64 ≡ base * s = omega (arith, h, split) in
    let first = div-mul-le_self (base * s) total in
    let joined = add-mul (base * s / total) (amounts (parts base total rest)) total in
    ground (arith, split, later, exact, first, joined)

percent-le : (x p : ℕ) → p ≤ 10000 → x * p / 10000 ≤ x
percent-le x p h = div-le_of_le-mul 10000 (omega (arith, mul-le-mul_left x h))

amounts-pay_winner :
    (w : Option ℕ) (bonus : ℕ) (ps : List (ℕ × ℕ))
    → IsU64 (amounts ps + bonus)
    → amounts (pay_winner w bonus ps) ≤ amounts ps + bonus
unfolding pay_winner
amounts-pay_winner none bonus ps h = omega arith
amounts-pay_winner (some w) bonus ps h = ground (arith, amounts-raise w bonus ps h)

amounts-with_refund :
    (customer remaining : ℕ) (ps : List (ℕ × ℕ))
    → IsU64 remaining
    → amounts ps ≤ remaining
    → amounts (with_refund customer remaining ps) ≡ remaining
unfolding with_refund
amounts-with_refund customer remaining ps small h =
    let rest = wrapping_sub remaining (amounts ps % 2 ^ 64) in
    let exact : rest ≡ remaining - amounts ps = omega (arith, small, h) in
    ground (arith, exact, sum_by-append (λ p. p.1) ps ((customer, rest) ∷ []))

-- No product of the computation leaves the `u64`s, the percentages are at most the whole, and some
-- share has been registered.
pub record IsPayable (e : EscrowContract) : Type 0 where
  pub reward : IsU64 (e.total_reward * 10000)
  pub pool : e.pool_fee_percent ≤ 10000
  pub bonus : e.winner_bonus_percent ≤ 10000
  pub shared : 0 < amounts e.miner_shares
  pub total : IsU64 (amounts e.miner_shares)
  pub shares : IsU64 (e.total_reward * amounts e.miner_shares)

winner_bonus-le :
    (e : EscrowContract) (r : ℕ) → IsPayable e → r ≤ e.total_reward → winner_bonus e r ≤ r
unfolding winner_bonus
winner_bonus-le e r h small =
    let top = mul-le-mul_left r h.bonus in
    let scaled = mul-le-mul_right 10000 small in
    let part = percent-le r e.winner_bonus_percent h.bonus in
    let exact : r * e.winner_bonus_percent % 2 ^ 64 ≡ r * e.winner_bonus_percent =
      omega (arith, top, scaled, h.reward) in
    ground (arith, part, exact)

payouts_fit :
    (e : EscrowContract) (r : ℕ)
    → IsPayable e
    → r ≤ e.total_reward
    → amounts (
        pay_winner e.winner
          (winner_bonus e r)
          (parts (r - winner_bonus e r) (amounts e.miner_shares) e.miner_shares))
      ≤ r
payouts_fit e r h small =
    let total = amounts e.miner_shares in
    let bonus = winner_bonus e r in
    let capped = winner_bonus-le e r h small in
    let scaled : (r - bonus) * total ≤ e.total_reward * total =
      mul-le-mul_right total (omega (arith, small)) in
    let parted = amounts-parts (r - bonus) total e.miner_shares (omega (arith, scaled, h.shares)) in
    let base : amounts (parts (r - bonus) total e.miner_shares) ≤ r - bonus =
      le_of_mul-le-mul_right parted h.shared in
    let paid = amounts-pay_winner e.winner bonus (parts (r - bonus) total e.miner_shares) in
    omega (arith, paid (omega (arith, base, capped, small, h.reward)), base, capped)

is_empty-amounts : (ms : List (ℕ × ℕ)) → 0 < amounts ms → is_empty ms ≡ false
is_empty-amounts [] h = absurd (omega arith)
is_empty-amounts (m ∷ ms) h = refl

-- What `distribute_reward` pays to the miners, the winner and the customer adds up to the reward
-- without the fee of the pool, when shares have been registered, the percentages are at most the
-- whole, and the products stay within a `u64`.
pub distribute_reward-conserves :
    (e : EscrowContract)
    → IsPayable e
    → amounts (distribute_reward e) ≡ e.total_reward - e.total_reward * e.pool_fee_percent / 10000
unfolding distribute_reward
distribute_reward-conserves e h =
    let total = amounts e.miner_shares in
    let left = e.total_reward - e.total_reward * e.pool_fee_percent / 10000 in
    let top = mul-le-mul_left e.total_reward h.pool in
    let small_fee = percent-le e.total_reward e.pool_fee_percent h.pool in
    let remaining : wrapping_sub e.total_reward (pool_fee e) ≡ left =
      unfold pool_fee in omega (arith, top, small_fee, h.reward) in
    let bonus = winner_bonus e left in
    let capped = winner_bonus-le e left h (omega arith) in
    let base : wrapping_sub left bonus ≡ left - bonus = omega (arith, capped, h.reward) in
    let whole : total % 2 ^ 64 ≡ total = omega (arith, h.total) in
    let some_share : (total == 0) ≡ false = ground (arith, h.shared) in
    let fits = payouts_fit e left h (omega arith) in
    let settled =
      amounts-with_refund e.customer left
        (pay_winner e.winner bonus (parts (left - bonus) total e.miner_shares))
        (omega (arith, h.reward)) fits in
    rw (is_empty-amounts e.miner_shares h.shared)
      (rw whole (rw some_share (rw remaining (rw base settled))))
