-- ===== src/Tests/Services/Pool.antt =====
-- A pool with one payment.
use aevum_public.Base.{
  ◌≤◌, ◌<◌, ◌≡◌, refl, true, none, some, List, [], ◌∷◌, arith, mem, length, max,
}
use aevum_public.Base.Bytes.{le_bytes, array_bytes}
use aevum_public.Base.Map.{lookup}
use aevum_public.Core.Transaction.{
  Transaction, new_raw, new_transaction, recompute_hash, compute_hash, tx_bytes, input_bytes,
  output_bytes, new_coinbase_output,
}
use aevum_public.Core.Block.Scanning.{nullifiers}
use aevum_public.Node.Mempool.{
  TxRef, MempoolInner, fee_buckets, highest_bit, bucket_of, estimated_size, new_pool, store,
  insert_tx, add_nullifiers,
}
use aevum_public.Node.Mempool.Assembly.{Build, drain, build_block}
use aevum_public.Node.Mempool.Consistent.{IsConsistent}
use aevum_public.Node.Mempool.Calls.{Call, inserted, evicted, call, call_all, call_all-IsConsistent}
use aevum_public.Node.Mempool.Building.{drain-stuck}
use aevum_public.Node.Mempool.Ending.{bytes_below, refs_below, build_block-ends}
use aevum_public.Tests.Values.{payment}

program : Unit {0}
unfolding new_raw new_transaction recompute_hash compute_hash highest_bit bucket_of estimated_size
    new_pool store insert_tx add_nullifiers call call_all tx_bytes input_bytes output_bytes
    new_coinbase_output le_bytes array_bytes
program = tt

abbrev calls : List Call
calls = inserted payment 4 100 ∷ inserted payment 4 101 ∷ evicted 200 ∷ []

call_all-IsConsistent_example : IsConsistent (call_all calls new_pool)
call_all-IsConsistent_example = call_all-IsConsistent calls

abbrev one : MempoolInner
one = call_all (inserted payment 4 100 ∷ []) new_pool

held : lookup payment.tx_hash one.tx_store ≡ some payment
unfolding program
held = refl

spends : mem 5 (nullifiers payment.inputs) ≡ true
unfolding program
spends = refl

abbrev waiting : TxRef
waiting = record { hash = 1; fee = 2; size = 441; poh_tick = 4; inserted_at = 100 }

abbrev crowded : Build
crowded = record {
  pool = record new_pool { buckets = λ b. waiting ∷ []; index = (1, waiting) ∷ [] };
  out = [];
  bytes = 0;
}

drain-stuck_example : drain 1000 1 10 300 crowded ≡ none
drain-stuck_example = drain-stuck 1000 1 10 300 crowded waiting [] refl refl (omega arith)

few_refs : refs_below fee_buckets one.buckets < 100
unfolding program
few_refs = omega arith

few_bytes : bytes_below fee_buckets one.buckets ≤ 1000
unfolding program
few_bytes = omega arith

build_block-ends_example :
    (q : MempoolInner) × (out : List Transaction) × (build_block 100 10 1000 one ≡ some (q, out))
    × (length out ≤ max 10 1)
build_block-ends_example = build_block-ends 100 10 1000 one few_refs few_bytes
