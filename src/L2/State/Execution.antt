-- ===== src/L2/State/Execution.antt =====
-- When a transaction is accepted, and what it does to nonces, balances and replays.
use aevum_public.Base.{
  ℕ, ◌+◌, ◌-◌, ◌≤◌, ◌<◌, ◌≡◌, ◌⊎◌, inl, inr, true, false, List, [], ◌∷◌, arith, ◌==◌, mem, u64_max,
  ◌∙◌, ap, saturating_add, ◌*◌, ◌/◌, min, ◌++◌, refl, if◌then◌else◌, ok, err, Result-cases,
}
use aevum_public.Base.Map.{Map, lookup-insert}
use aevum_public.Crypto.{Crypto}
use aevum_public.L2.Transaction.{
  L2Transaction, L2Utxo, is_valid, founder_cut, community_cut, new_utxo,
}
use aevum_public.L2.State.{
  L2State, L2StateError, replay_detected, ExecutionContext, amount_at, add_to, take_from, required,
  context, build_context, settle, output_of, execute, process_transaction, process_all, balance,
  nonce,
}

-- What the protocol asks of a transaction in a state.
pub record IsAcceptable (c : Crypto) (s : L2State) (tx : L2Transaction) : Type 0 where
  pub valid : is_valid c tx ≡ true
  pub positive : 0 < tx.amount
  pub fresh : mem tx.tx_hash s.processed ≡ false
  pub in_turn : tx.nonce ≡ nonce s tx.sender
  pub funded : (tx.amount + tx.fee ≤ balance s tx.sender) ⊎ (u64_max ≤ balance s tx.sender)

-- A balance after a deposit, which is cut off at the greatest `u64`, and after a withdrawal, which
-- stops at zero, where the account is the one that is meant.
abbrev pub deposited : ℕ → ℕ → ℕ → ℕ → ℕ
deposited user account amount b = if user == account then min (b + amount) u64_max else b

abbrev pub withdrawn : ℕ → ℕ → ℕ → ℕ → ℕ
withdrawn user account amount b = if user == account then b - min amount u64_max else b

-- What execution leaves: the amount and the fee are taken from the sender, then the amount goes to
-- the receiver, 10 percent of the fee to the founder and the rest of it to the community fund.
pub record IsExecuted (s : L2State) (tx : L2Transaction) (s' : L2State) (u : L2Utxo) : Type 0 where
  pub balances :
      (user : ℕ)
      → balance s' user
        ≡ deposited user s.community_fund (tx.fee - tx.fee * 1000 / 10_000) (
            deposited user s.founder (tx.fee * 1000 / 10_000) (
              deposited user tx.to tx.amount
                (withdrawn user tx.sender (tx.amount + tx.fee) (balance s user))))
  pub nonces : (user : ℕ) → nonce s' user ≡ deposited user tx.sender 1 (nonce s user)
  pub processed : s'.processed ≡ tx.tx_hash ∷ s.processed
  pub output : u ≡ record {
    owner = tx.to;
    amount = tx.amount;
    tx_hash = tx.tx_hash;
    output_index = 0;
    taint_distance = tx.taint_distance;
    taint_origin = tx.taint_origin;
    taint_timestamp = tx.taint_timestamp;
    restriction_level = tx.restriction_level;
    spent = false;
  }
  pub utxos : s'.utxos ≡ s.utxos ++ u ∷ []
  pub tx_count : s'.tx_count ≡ min (s.tx_count + 1) u64_max
  pub total_fees : s'.total_fees ≡ min (s.total_fees + tx.fee) u64_max
  pub founder : s'.founder ≡ s.founder
  pub community_fund : s'.community_fund ≡ s.community_fund

build_context_sound :
    (c : Crypto) (s : L2State) (tx : L2Transaction) (x : ExecutionContext)
    → build_context c s tx ≡ ok x
    → IsAcceptable c s tx × (x ≡ context s tx)
unfolding build_context
build_context_sound c s tx x h = (
  record {
    valid = ground arith;
    positive = ground arith;
    fresh = ground arith;
    in_turn = ground arith;
    funded = ground arith;
  },
  ground arith,
)

build_context_complete :
    (c : Crypto) (s : L2State) (tx : L2Transaction)
    → IsAcceptable c s tx
    → build_context c s tx ≡ ok (context s tx)
unfolding build_context
build_context_complete c s tx h = ground arith

amount_at-add_to :
    (j k a : ℕ) (m : Map ℕ) → amount_at j (add_to k a m) ≡ deposited j k a (amount_at j m)
unfolding add_to
amount_at-add_to j k a m = ground (arith, lookup-insert j k (saturating_add (amount_at k m) a) m)

amount_at-take_from :
    (j k a : ℕ) (m : Map ℕ)
    → amount_at j (take_from k (min a u64_max) m) ≡ withdrawn j k a (amount_at j m)
unfolding take_from
amount_at-take_from j k a m = ground (arith, lookup-insert j k (amount_at k m - min a u64_max) m)

execute-IsExecuted :
    (s : L2State) (tx : L2Transaction)
    → IsExecuted s tx (execute s (context s tx)) (output_of (context s tx))
unfolding execute settle balance nonce output_of new_utxo founder_cut community_cut add_to
execute-IsExecuted s tx =
    let m1 = take_from tx.sender (required tx) s.balances in
    let m2 = add_to tx.to tx.amount m1 in
    let m3 = add_to s.founder (founder_cut tx.fee) m2 in
    record {
      balances = λ user.
          let to_founder = deposited user s.founder (founder_cut tx.fee) in
          let to_fund = deposited user s.community_fund (community_cut tx.fee) in
          amount_at-add_to user s.community_fund (community_cut tx.fee) m3
          ∙ ap to_fund (amount_at-add_to user s.founder (founder_cut tx.fee) m2)
          ∙ ap (λ b. to_fund (to_founder b)) (amount_at-add_to user tx.to tx.amount m1)
          ∙ ap (λ b. to_fund (to_founder (deposited user tx.to tx.amount b)))
              (amount_at-take_from user tx.sender (tx.amount + tx.fee) s.balances);
      nonces = λ user. amount_at-add_to user tx.sender 1 s.nonces;
      processed = refl;
      output = refl;
      utxos = refl;
      tx_count = refl;
      total_fees = refl;
      founder = refl;
      community_fund = refl;
    }

-- A transaction is executed exactly when it is valid, moves something, has not been processed,
-- carries the sender's nonce, and the sender holds the amount with the fee or, as their sum is cut
-- off at the greatest `u64`, holds that much. Then the amount and the fee, so cut off, leave the
-- sender, the amount goes to the receiver and the two shares of the fee to the founder and the
-- community fund, one after another and each cut off there, for any parties; the sender's nonce, the
-- processed hashes, the outputs and the counters move along, and the result is the output. Otherwise
-- the state stays as it was and the result is an error.
pub process_transaction_iff :
    (c : Crypto) (s : L2State) (tx : L2Transaction)
    → (IsAcceptable c s tx
        × ((s' : L2State) × (u : L2Utxo) × (process_transaction c s tx ≡ (s', ok (u ∷ [])))
            × IsExecuted s tx s' u))
      ⊎ ((¬ IsAcceptable c s tx) × ((e : L2StateError) × (process_transaction c s tx ≡ (s, err e))))
unfolding process_transaction
process_transaction_iff c s tx = elim (Result-cases (build_context c s tx)) [
  | inl (x, e) ↦
      let (fine, same) = build_context_sound c s tx x e in
      inl (
        fine,
        (
          execute s (context s tx),
          output_of (context s tx),
          rw (e, process_transaction) (rw same),
          execute-IsExecuted s tx,
        ),
      )
  | inr (f, e) ↦ inr (refused f e, (f, rw (e, process_transaction)))
]
  where
    refused : (f : L2StateError) → build_context c s tx ≡ err f → ¬ IsAcceptable c s tx
    refused f e fine = cc (build_context_complete c s tx fine)

processed-stays :
    (c : Crypto) (s : L2State) (tx : L2Transaction) (h : ℕ)
    → mem h s.processed ≡ true
    → mem h (process_transaction c s tx).0.processed ≡ true
unfolding process_transaction build_context execute
processed-stays c s tx h m = ground arith

processed-stays_all :
    (c : Crypto) (s : L2State) (txs : List L2Transaction) (h : ℕ)
    → mem h s.processed ≡ true
    → mem h (process_all c s txs).processed ≡ true
unfolding process_all
processed-stays_all c s [] h m = m
processed-stays_all c s (tx ∷ txs) h m =
    processed-stays_all c (process_transaction c s tx).0 txs h (processed-stays c s tx h m)

replay-refused :
    (c : Crypto) (s : L2State) (tx : L2Transaction)
    → is_valid c tx ≡ true
    → 0 < tx.amount
    → mem tx.tx_hash s.processed ≡ true
    → process_transaction c s tx ≡ (s, err replay_detected)
unfolding process_transaction build_context
replay-refused c s tx valid pos seen = ground arith

executed-processed :
    (c : Crypto) (s s' : L2State) (tx : L2Transaction) {us : List L2Utxo}
    → process_transaction c s tx ≡ (s', ok us)
    → mem tx.tx_hash s'.processed ≡ true
unfolding process_transaction build_context execute
executed-processed c s s' tx e = ground arith

-- An executed transaction is never executed again: after any further transactions, sending it
-- once more is refused as a replay and changes nothing.
pub process_transaction-once :
    (c : Crypto) (s s' : L2State) (tx : L2Transaction) {us : List L2Utxo}
    (later : List L2Transaction)
    → process_transaction c s tx ≡ (s', ok us)
    → process_transaction c (process_all c s' later) tx
      ≡ (process_all c s' later, err replay_detected)
process_transaction-once c s s' tx {us} later e = elim (process_transaction_iff c s tx) [
  | inl (fine, _) ↦
      replay-refused c (process_all c s' later) tx fine.valid fine.positive
        (processed-stays_all c s' later tx.tx_hash (executed-processed c s s' tx e))
  | inr (_, (f, e')) ↦ absurd (cc)
]
