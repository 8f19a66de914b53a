-- ===== src/Tests/Layer2.antt =====
-- The L2 theorems at concrete transactions.
use aevum_public.Base.{◌+◌, ◌≡◌, refl, ◌⊎◌, [], ◌∷◌, arith, min, u16_max, ok, err}
use aevum_public.Base.Bytes.{le_bytes, array_bytes}
use aevum_public.L2.Transaction.{
  L2Utxo, L2Transaction, new_unsigned, sign, is_valid, compute_hash, tx_bytes, message, inherit_dna,
  verify_signature, new_utxo,
}
use aevum_public.L2.Transaction.Signing.{IsTransaction}
use aevum_public.L2.Transaction.Lineage.{max_distance, distance-inherit_dna}
use aevum_public.L2.State.{
  L2State, L2StateError, replay_detected, context, execute, output_of, process_transaction,
  process_all, balance, nonce, new_state, credit, build_context, add_to, take_from, settle,
}
use aevum_public.L2.State.Balances.{total_balance, process_all-conserves}
use aevum_public.L2.State.Execution.{
  IsAcceptable, process_transaction_iff, process_transaction-once, IsExecuted,
}
use aevum_public.Tests.Values.{toy, transfer, ledger, near, far}

program : Unit {0}
unfolding new_state credit add_to take_from settle balance nonce build_context execute output_of
    process_transaction process_all is_valid sign new_unsigned compute_hash tx_bytes
    verify_signature new_utxo inherit_dna max_distance le_bytes array_bytes message
program = tt

in_range : IsTransaction transfer
unfolding program
in_range = record {
  version = omega arith;
  sender = omega arith;
  to = omega arith;
  amount = omega arith;
  fee = omega arith;
  nonce = omega arith;
  timestamp = omega arith;
  taint_distance = omega arith;
  taint_origin = omega arith;
  taint_timestamp = omega arith;
  restriction_level = omega arith;
  binding_salt = omega arith;
}

abbrev unsigned : L2Transaction
unsigned = record transfer { signature = [] }

unsigned_in_range : IsTransaction unsigned
unsigned_in_range = record {
  version = in_range.version;
  sender = in_range.sender;
  to = in_range.to;
  amount = in_range.amount;
  fee = in_range.fee;
  nonce = in_range.nonce;
  timestamp = in_range.timestamp;
  taint_distance = in_range.taint_distance;
  taint_origin = in_range.taint_origin;
  taint_timestamp = in_range.taint_timestamp;
  restriction_level = in_range.restriction_level;
  binding_salt = in_range.binding_salt;
}

distance-inherit_dna_example :
    (inherit_dna (near ∷ far ∷ [])).distance ≡ min (max_distance (near ∷ far ∷ []) + 1) u16_max
unfolding program
distance-inherit_dna_example = distance-inherit_dna near (far ∷ [])

process_all-conserves_example :
    total_balance (process_all toy ledger (transfer ∷ transfer ∷ [])) ≡ 1000
unfolding program
process_all-conserves_example =
    process_all-conserves toy ledger (transfer ∷ transfer ∷ []) (omega arith)
      (omega arith, (omega arith, tt))

process_transaction_iff_example :
    (IsAcceptable toy ledger transfer
      × ((s' : L2State) × (u : L2Utxo) × (process_transaction toy ledger transfer
            ≡ (s', ok (u ∷ [])))
          × IsExecuted ledger transfer s' u))
    ⊎ ((¬ IsAcceptable toy ledger transfer)
        × ((e : L2StateError) × (process_transaction toy ledger transfer ≡ (ledger, err e))))
process_transaction_iff_example = process_transaction_iff toy ledger transfer

abbrev after : L2State
after = execute ledger (context ledger transfer)

accepted :
    process_transaction toy ledger transfer ≡ (after, ok (output_of (context ledger transfer) ∷ []))
unfolding program
accepted = refl

process_transaction-once_example :
    process_transaction toy (process_all toy after (transfer ∷ [])) transfer
    ≡ (process_all toy after (transfer ∷ []), err replay_detected)
process_transaction-once_example =
    process_transaction-once toy ledger after transfer (transfer ∷ []) accepted
