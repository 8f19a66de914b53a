-- ===== src/L2/State/Balances.antt =====
-- The sum of all balances under execution.
use aevum_public.Base.{
  ℕ, ◌+◌, ◌-◌, ◌≤◌, ◌≡◌, refl, List, [], ◌∷◌, arith, sum_by, IsU64, saturating_add,
}
use aevum_public.Base.Map.{Map, insert}
use aevum_public.Crypto.{Crypto}
use aevum_public.L2.Transaction.{L2Transaction, founder_cut, community_cut}
use aevum_public.L2.Transaction.Signing.{cuts-eq-fee}
use aevum_public.L2.State.{
  L2State, ExecutionContext, amount_at, add_to, take_from, context, build_context, settle, execute,
  process_transaction, process_all, balance,
}

abbrev pub total_of : Map ℕ → ℕ
total_of = sum_by (λ e. e.1)

abbrev pub total_balance : L2State → ℕ
total_balance s = total_of s.balances

total_of-insert : (k v : ℕ) (m : Map ℕ) → total_of (insert k v m) + amount_at k m ≡ total_of m + v
total_of-insert k v [] = omega arith
total_of-insert k v ((j, w) ∷ m) = ground (arith, total_of-insert k v m)

amount_at-le-total_of : (k : ℕ) (m : Map ℕ) → amount_at k m ≤ total_of m
amount_at-le-total_of k [] = omega arith
amount_at-le-total_of k ((j, w) ∷ m) = ground (arith, amount_at-le-total_of k m)

total_of-add_to :
    (k a : ℕ) (m : Map ℕ) → IsU64 (total_of m + a) → total_of (add_to k a m) ≡ total_of m + a
unfolding add_to
total_of-add_to k a m h =
    omega (arith, total_of-insert k (saturating_add (amount_at k m) a) m, amount_at-le-total_of k m)

total_of-take_from :
    (k a : ℕ) (m : Map ℕ) → a ≤ amount_at k m → total_of (take_from k a m) + a ≡ total_of m
unfolding take_from
total_of-take_from k a m h = omega (arith, total_of-insert k (amount_at k m - a) m)

total_of-settle :
    (s : L2State) (x : ExecutionContext)
    → IsU64 (total_balance s)
    → x.required_balance ≡ x.amount + x.fee
    → x.required_balance ≤ amount_at x.sender s.balances
    → total_of (settle s x) ≡ total_balance s
unfolding settle
total_of-settle s x small e covered =
    let taken = take_from x.sender x.required_balance s.balances in
    let paid = add_to x.to x.amount taken in
    let shared = add_to s.founder (founder_cut x.fee) paid in
    let cuts = (cuts-eq-fee x.fee).0 in
    let t0 = total_of-take_from x.sender x.required_balance s.balances covered in
    let t1 = total_of-add_to x.to x.amount taken (omega (arith, t0)) in
    let t2 = total_of-add_to s.founder (founder_cut x.fee) paid (omega (arith, t0, t1, cuts)) in
    omega (
      arith,
      cuts,
      t0,
      t1,
      t2,
      total_of-add_to s.community_fund (community_cut x.fee) shared
          (omega (arith, t0, t1, t2, cuts)),
    )

-- An accepted transaction keeps the sum of all balances, whoever its parties are, if that sum is a
-- `u64` and the amount with the fee is one too; a refused one keeps it always.
pub process_transaction-conserves :
    (c : Crypto) (s : L2State) (tx : L2Transaction)
    → IsU64 (total_balance s)
    → IsU64 (tx.amount + tx.fee)
    → total_balance (process_transaction c s tx).0 ≡ total_balance s
unfolding process_transaction build_context execute balance
process_transaction-conserves c s tx small fits =
    ground (arith, total_of-settle s (context s tx) small)

abbrev pub AllFit : List L2Transaction → Type 0
AllFit [] = Unit {0}
AllFit (tx ∷ txs) = IsU64 (tx.amount + tx.fee) × AllFit txs

-- No sequence of transactions, accepted or refused, makes or destroys money, if the sum of the
-- balances is a `u64` at the start and each amount with its fee is one.
pub process_all-conserves :
    (c : Crypto) (s : L2State) (txs : List L2Transaction)
    → IsU64 (total_balance s)
    → AllFit txs
    → total_balance (process_all c s txs) ≡ total_balance s
unfolding process_all
process_all-conserves c s [] small fit = refl
process_all-conserves c s (tx ∷ txs) small fit =
    let step = process_transaction-conserves c s tx small fit.0 in
    let next = (process_transaction c s tx).0 in
    omega (arith, step, process_all-conserves c next txs (omega (arith, step)) fit.1)
