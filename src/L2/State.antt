-- ===== src/L2/State.antt =====
-- crates/aevum-l2/src/l2_state.rs: the L2 account state and the execution of a transaction.
-- `BTreeMap`s are `Map`s, the `HashSet` of processed hashes is a list. A call returns the state
-- that it leaves beside its result.
pub mod Balances
pub mod Execution
use aevum_public.Base.{
  ℕ, ◌+◌, ◌-◌, ◌≤◌, Bool, true, false, not, List, [], ◌∷◌, ◌++◌, ltb, ◌==◌, mem, length,
  if◌then◌else◌, Result, ok, err, ◌>>=◌, ◌>>◌, fail_if, saturating_add,
}
use aevum_public.Base.Map.{Map, lookup, insert, value_or}
use aevum_public.Crypto.{Crypto}
use aevum_public.L2.Transaction.{
  L2Transaction, L2Utxo, Dna, is_valid, founder_cut, community_cut, new_utxo,
}

pub data L2StateError : Type 0 where
  invalid_signature replay_detected amount_zero : L2StateError
  invalid_nonce : ℕ → ℕ → L2StateError
  insufficient_balance : ℕ → ℕ → L2StateError

pub record ExecutionContext : Type 0 where
  pub tx_hash : ℕ
  pub sender : ℕ
  pub to : ℕ
  pub required_balance : ℕ
  pub expected_nonce : ℕ
  pub amount : ℕ
  pub fee : ℕ
  pub dna : Dna

pub record L2State : Type 0 where
  pub balances : Map ℕ
  pub nonces : Map ℕ
  pub processed : List ℕ
  pub founder : ℕ
  pub community_fund : ℕ
  pub utxos : List L2Utxo
  pub tx_count : ℕ
  pub total_fees : ℕ

unfoldable pub new_state : ℕ → ℕ → L2State
new_state founder community_fund = record {
  balances = [];
  nonces = [];
  processed = [];
  founder = founder;
  community_fund = community_fund;
  utxos = [];
  tx_count = 0;
  total_fees = 0;
}

-- `map.get(user).copied().unwrap_or(0)`
abbrev pub amount_at : ℕ → Map ℕ → ℕ
amount_at user m = value_or (lookup user m) 0

-- `*map.entry(user).or_insert(0)` raised or lowered by an amount, saturating.
unfoldable pub add_to : ℕ → ℕ → Map ℕ → Map ℕ
add_to user amount m = insert user (saturating_add (amount_at user m) amount) m

unfoldable pub take_from : ℕ → ℕ → Map ℕ → Map ℕ
take_from user amount m = insert user (amount_at user m - amount) m

unfoldable pub credit : L2State → ℕ → ℕ → L2State
credit s user amount = record s { balances = add_to user amount s.balances }

unfoldable pub balance : L2State → ℕ → ℕ
balance s user = amount_at user s.balances

unfoldable pub nonce : L2State → ℕ → ℕ
nonce s user = amount_at user s.nonces

abbrev pub required : L2Transaction → ℕ
required tx = saturating_add tx.amount tx.fee

abbrev pub context : L2State → L2Transaction → ExecutionContext
context s tx = record {
  tx_hash = tx.tx_hash;
  sender = tx.sender;
  to = tx.to;
  required_balance = required tx;
  expected_nonce = nonce s tx.sender;
  amount = tx.amount;
  fee = tx.fee;
  dna = record {
    distance = tx.taint_distance;
    origin = tx.taint_origin;
    timestamp = tx.taint_timestamp;
    restriction = tx.restriction_level;
  };
}

unfoldable pub build_context :
    Crypto → L2State → L2Transaction → Result L2StateError ExecutionContext
build_context c s tx = do
  fail_if (not (is_valid c tx)) invalid_signature
  fail_if (tx.amount == 0) amount_zero
  fail_if (mem tx.tx_hash s.processed) replay_detected
  fail_if (not (tx.nonce == nonce s tx.sender)) (invalid_nonce (nonce s tx.sender) tx.nonce)
  fail_if (ltb (balance s tx.sender) (required tx))
      (insufficient_balance (required tx) (balance s tx.sender))
  ok (context s tx)

-- The four entries of the balance map that change, in the order of the code.
unfoldable pub settle : L2State → ExecutionContext → Map ℕ
settle s x = add_to s.community_fund (community_cut x.fee) (
    add_to s.founder (founder_cut x.fee)
      (add_to x.to x.amount (take_from x.sender x.required_balance s.balances)))

unfoldable pub output_of : ExecutionContext → L2Utxo
output_of x = new_utxo x.to x.amount x.tx_hash 0 x.dna

unfoldable pub execute : L2State → ExecutionContext → L2State
execute s x = record s {
  processed = x.tx_hash ∷ s.processed;
  balances = settle s x;
  total_fees = saturating_add s.total_fees x.fee;
  nonces = insert x.sender (saturating_add x.expected_nonce 1) s.nonces;
  utxos = s.utxos ++ output_of x ∷ [];
  tx_count = saturating_add s.tx_count 1;
}

unfoldable pub process_transaction :
    Crypto → L2State → L2Transaction → L2State × Result L2StateError (List L2Utxo)
process_transaction c s tx = elim (build_context c s tx) [
  | ok x ↦ (execute s x, ok (output_of x ∷ []))
  | err e ↦ (s, err e)
]

pub record L2Stats : Type 0 where
  pub accounts : ℕ
  pub transactions : ℕ
  pub total_fees : ℕ
  pub utxos : ℕ

unfoldable pub stats : L2State → L2Stats
stats s = record {
  accounts = length s.balances;
  transactions = s.tx_count;
  total_fees = s.total_fees;
  utxos = length s.utxos;
}

-- A sequence of calls, whatever each returns.
unfoldable pub process_all : Crypto → L2State → List L2Transaction → L2State
process_all c s [] = s
process_all c s (tx ∷ txs) = process_all c (process_transaction c s tx).0 txs
