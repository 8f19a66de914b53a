-- ===== src/Core/Block/Scanning.antt =====
-- What the loop of `validate_internal` over the transactions establishes.
use aevum_public.Base.{
  ℕ, ◌+◌, ◌≤◌, ◌<◌, ◌≡◌, refl, ◌≢◌, ◌⊎◌, false, ◌||◌, List, [], ◌∷◌, ◌++◌, arith, All, mem,
  IsDistinct, append-IsDistinct, >>=-eq-ok, sum_by, ok,
}
use aevum_public.Core.Transaction.{Transaction, TransactionType, TxInput}
use aevum_public.Core.Block.{
  Block, Scan, check_inputs, check_standard, check_tx, check_txs, count_up, output_sum,
}

abbrev pub nullifiers : List TxInput → List ℕ
nullifiers [] = []
nullifiers (i ∷ is) = i.nullifier ∷ nullifiers is

-- The nullifiers that the standard transactions spend, in order.
abbrev spent_by : TransactionType → Transaction → List ℕ
spent_by TransactionType.standard tx = nullifiers tx.inputs
spent_by TransactionType.coinbase tx = []
spent_by TransactionType.heartbeat tx = []

abbrev pub spent_nullifiers : List Transaction → List ℕ
spent_nullifiers [] = []
spent_nullifiers (tx ∷ txs) = spent_by tx.tx_type tx ++ spent_nullifiers txs

abbrev coinbase_weight : TransactionType → ℕ
coinbase_weight TransactionType.standard = 0
coinbase_weight TransactionType.coinbase = 1
coinbase_weight TransactionType.heartbeat = 0

abbrev heartbeat_weight : TransactionType → ℕ
heartbeat_weight TransactionType.standard = 0
heartbeat_weight TransactionType.coinbase = 0
heartbeat_weight TransactionType.heartbeat = 1

abbrev pub coinbase_count : List Transaction → ℕ
coinbase_count = sum_by (λ tx. coinbase_weight tx.tx_type)

abbrev pub heartbeat_count : List Transaction → ℕ
heartbeat_count = sum_by (λ tx. heartbeat_weight tx.tx_type)

-- A standard transaction lies within the ticks of its block, pays something, and is not locked.
pub record IsTimely (b : Block) (tx : Transaction) : Type 0 where
  pub begun : b.poh_tick_start ≤ tx.poh_tick
  pub ended : tx.poh_tick ≤ b.poh_tick_end
  pub pays : (output_sum tx ≢ 0) ⊎ (tx.fee ≢ 0)
  pub unlocked : tx.locktime ≤ b.height

abbrev TimelyAt : Block → TransactionType → Transaction → Type 0
TimelyAt b TransactionType.standard tx = IsTimely b tx
TimelyAt b TransactionType.coinbase tx = Unit {0}
TimelyAt b TransactionType.heartbeat tx = Unit {0}

abbrev pub AllTimely : Block → List Transaction → Type 0
AllTimely b [] = Unit {0}
AllTimely b (tx ∷ txs) = TimelyAt b tx.tx_type tx × AllTimely b txs

abbrev pub New : List ℕ → ℕ → Type 0
New seen n = (n ≢ 0) × (mem n seen ≡ false)

AllNew-cons :
    (n : ℕ) (seen ns : List ℕ) → All (New (n ∷ seen)) ns → (mem n ns ≡ false) × All (New seen) ns
AllNew-cons n seen [] h = (refl, tt)
AllNew-cons n seen (m ∷ ns) h = ground (arith, AllNew-cons n seen ns h.1)

check_inputs-New :
    (seen : List ℕ) (is : List TxInput) (out : List ℕ)
    → check_inputs seen is ≡ ok out
    → IsDistinct (nullifiers is) × All (New seen) (nullifiers is)
unfolding check_inputs
check_inputs-New seen [] out h = (tt, tt)
check_inputs-New seen (i ∷ is) out h = ground (
  arith,
  check_inputs-New (i.nullifier ∷ seen) is out,
  AllNew-cons i.nullifier seen (nullifiers is),
)

mem-check_inputs :
    (seen : List ℕ) (is : List TxInput) (out : List ℕ) (n : ℕ)
    → check_inputs seen is ≡ ok out
    → mem n out ≡ (mem n (nullifiers is) || mem n seen)
unfolding check_inputs
mem-check_inputs seen [] out n h = ground arith
mem-check_inputs seen (i ∷ is) out n h =
    ground (arith, mem-check_inputs (i.nullifier ∷ seen) is out n)

-- What one round of the loop has done, by the type of the transaction.
abbrev Step : Block → ℕ → Scan → Scan → TransactionType → Transaction → Type 0
Step b i s t TransactionType.standard tx =
    (check_inputs s.seen tx.inputs ≡ ok t.seen)
    × (t.heartbeats ≡ s.heartbeats)
    × (t.coinbases ≡ s.coinbases)
    × IsTimely b tx
Step b i s t TransactionType.coinbase tx =
    (t.seen ≡ s.seen)
    × (t.heartbeats ≡ s.heartbeats)
    × (t.coinbases ≡ s.coinbases + 1)
    × (t.coinbases ≤ 1)
Step b i s t TransactionType.heartbeat tx =
    (t.seen ≡ s.seen)
    × (t.heartbeats ≡ count_up s.heartbeats)
    × (t.coinbases ≡ s.coinbases)
    × (i ≡ 0)

check_standard-Step :
    (b : Block) (i : ℕ) (s t : Scan) (tx : Transaction)
    → check_standard b s tx ≡ ok t
    → Step b i s t TransactionType.standard tx
unfolding check_standard
check_standard-Step b i s t tx h = (
  ground arith,
  ground arith,
  ground arith,
  record {
    begun = ground arith;
    ended = ground arith;
    pays = ground arith;
    unlocked = ground arith;
  },
)

check_tx-Step :
    (b : Block) (i : ℕ) (s t : Scan) (k : TransactionType) (tx : Transaction)
    → tx.tx_type ≡ k
    → check_tx b i s tx ≡ ok t
    → Step b i s t k tx
unfolding check_tx
check_tx-Step b i s t TransactionType.standard tx e h =
    check_standard-Step b i s t tx (rw (e, check_tx) at h)
check_tx-Step b i s t TransactionType.coinbase tx e h = ground arith
check_tx-Step b i s t TransactionType.heartbeat tx e h = ground arith

-- What the whole loop has done.
pub record Scanned (b : Block) (i : ℕ) (s t : Scan) (txs : List Transaction) : Type 0 where
  pub fresh : All (New s.seen) (spent_nullifiers txs)
  pub distinct : IsDistinct (spent_nullifiers txs)
  pub timely : AllTimely b txs
  pub coinbases : t.coinbases ≡ s.coinbases + coinbase_count txs
  pub no_later_heartbeat : 0 < i → (heartbeat_count txs ≡ 0) × (t.heartbeats ≡ s.heartbeats)

AllNew-after :
    (seen : List ℕ) (is : List TxInput) (out ns : List ℕ)
    → check_inputs seen is ≡ ok out
    → All (New out) ns
    → All (λ n. mem n (nullifiers is) ≡ false) ns × All (New seen) ns
AllNew-after seen is out [] h k = (tt, tt)
AllNew-after seen is out (n ∷ ns) h k =
    ground (arith, mem-check_inputs seen is out n h, AllNew-after seen is out ns h k.1)

All-append :
    (P : ℕ → Type 0) (front back : List ℕ) → All P back → All P front → All P (front ++ back)
All-append P (n ∷ front) back hb hf = (hf.0, All-append P front back hb hf.1)
All-append P [] back hb hf = hb

Scanned-cons :
    (b : Block) (i : ℕ) (s t u : Scan) (k : TransactionType) (tx : Transaction)
    (txs : List Transaction)
    → tx.tx_type ≡ k
    → Step b i s t k tx
    → Scanned b (i + 1) t u txs
    → Scanned b i s u (tx ∷ txs)
Scanned-cons b i s t u TransactionType.standard tx txs e st r =
    let (d, n) = check_inputs-New s.seen tx.inputs t.seen st.0 in
    let (apart, older) = AllNew-after s.seen tx.inputs t.seen (spent_nullifiers txs) st.0 r.fresh in
    let (quiet, same) = r.no_later_heartbeat (omega arith) in
    record {
      fresh = rw e (All-append (New s.seen) (nullifiers tx.inputs) (spent_nullifiers txs) older n);
      distinct =
          rw e (append-IsDistinct (nullifiers tx.inputs) (spent_nullifiers txs) d r.distinct apart);
      timely = simp e (st.3, r.timely);
      coinbases = rw e (omega (arith, r.coinbases, st.2));
      no_later_heartbeat = λ later. (rw e (omega (arith, quiet)), omega (arith, same, st.1));
    }
Scanned-cons b i s t u TransactionType.coinbase tx txs e st r =
    let (quiet, same) = r.no_later_heartbeat (omega arith) in
    record {
      fresh = rw e (rw (← st.0) r.fresh);
      distinct = rw e r.distinct;
      timely = rw e (tt, r.timely);
      coinbases = rw e (omega (arith, r.coinbases, st.2));
      no_later_heartbeat = λ later. (rw e (omega (arith, quiet)), omega (arith, same, st.1));
    }
Scanned-cons b i s t u TransactionType.heartbeat tx txs e st r = record {
  fresh = rw e (rw (← st.0) r.fresh);
  distinct = rw e r.distinct;
  timely = rw e (tt, r.timely);
  coinbases = rw e (omega (arith, r.coinbases, st.2));
  no_later_heartbeat = λ later. absurd (omega (arith, st.3, later));
}

pub check_txs-Scanned :
    (b : Block) (i : ℕ) (s u : Scan) (txs : List Transaction)
    → check_txs b i s txs ≡ ok u
    → Scanned b i s u txs
unfolding check_txs
check_txs-Scanned b i s u [] h = record {
  fresh = tt;
  distinct = tt;
  timely = tt;
  coinbases = ground arith;
  no_later_heartbeat = λ later. (refl, ground arith);
}
check_txs-Scanned b i s u (tx ∷ txs) h =
    let (t, first, rest) = >>=-eq-ok (check_tx b i s tx) (λ t. check_txs b (i + 1) t txs) h in
    Scanned-cons b i s t u tx.tx_type tx txs refl (check_tx-Step b i s t tx.tx_type tx refl first)
      (check_txs-Scanned b (i + 1) t u txs rest)

-- The heartbeats that the loop counts are those of the block, and they stand first.
pub heartbeats_first :
    (b : Block) (s u : Scan) (k : TransactionType) (tx : Transaction) (txs : List Transaction)
    → s.heartbeats ≡ 0
    → tx.tx_type ≡ k
    → check_txs b 0 s (tx ∷ txs) ≡ ok u
    → (u.heartbeats ≡ heartbeat_weight k) × (heartbeat_count txs ≡ 0)
unfolding check_txs
heartbeats_first b s u k tx txs z e h =
    let (t, first, rest) = >>=-eq-ok (check_tx b 0 s tx) (λ t. check_txs b 1 t txs) h in
    let (quiet, same) = (check_txs-Scanned b 1 t u txs rest).no_later_heartbeat (omega arith) in
    (omega (arith, same, counted k t (check_tx-Step b 0 s t k tx e first)), quiet)
  where
    counted :
        (k : TransactionType) (t : Scan) → Step b 0 s t k tx → t.heartbeats ≡ heartbeat_weight k
    counted TransactionType.standard t st = omega (arith, st.1)
    counted TransactionType.coinbase t st = omega (arith, st.1)
    counted TransactionType.heartbeat t st = ground (arith, st.1)

abbrev pub later : List Transaction → List Transaction
later [] = []
later (tx ∷ txs) = txs
