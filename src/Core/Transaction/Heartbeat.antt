-- ===== src/Core/Transaction/Heartbeat.antt =====
-- The heartbeat check against a description of well-formed heartbeats, and the coverage.
use native.Mathlib.Nat.{div-le_of_le-mul}
use aevum_public.Base.{
  ℕ, ◌+◌, ◌*◌, ◌/◌, ◌≤◌, ◌<◌, ◌≡◌, refl, ◌↔◌, inl, inr, ◌≢◌, false, Option, none, some, List, [],
  ◌∷◌, arith, length, All, ok, Bool-cases, ap,
}
use aevum_public.Base.Bytes.{bytes_eq, bytes_eq→eq}
use aevum_public.Core.Transaction.{
  Transaction, TransactionType, is_heartbeat, witness_id, witness_time, check_witnesses,
  verify_heartbeat, occurs, count_unique, heartbeat_coverage_bps,
}

-- A witness holds an id and a time, and the time is at most 180 ticks old.
abbrev pub IsFresh : ℕ → List ℕ → Type 0
IsFresh now w = (40 ≤ length w) × (now ≤ witness_time w + 180)

-- The ids rise strictly from one witness to the next.
abbrev pub Rises : Option ℕ → List (List ℕ) → Type 0
Rises prev [] = Unit {0}
Rises none (w ∷ ws) = Rises (some (witness_id w)) ws
Rises (some p) (w ∷ ws) = (p < witness_id w) × Rises (some (witness_id w)) ws

pub record IsLive (now : ℕ) (tx : Transaction) : Type 0 where
  pub kind : tx.tx_type ≡ TransactionType.heartbeat
  pub witnessed : tx.heartbeat_witnesses ≢ []
  pub fresh : All (IsFresh now) tx.heartbeat_witnesses
  pub rising : Rises none tx.heartbeat_witnesses

check_witnesses_sound :
    (now : ℕ) (prev : Option ℕ) (ws : List (List ℕ))
    → check_witnesses now prev ws ≡ ok tt
    → All (IsFresh now) ws × Rises prev ws
unfolding check_witnesses
check_witnesses_sound now prev [] h = (tt, tt)
check_witnesses_sound now none (w ∷ ws) h =
    ground (arith, check_witnesses_sound now (some (witness_id w)) ws)
check_witnesses_sound now (some p) (w ∷ ws) h =
    ground (arith, check_witnesses_sound now (some (witness_id w)) ws)

check_witnesses_complete :
    (now : ℕ) (prev : Option ℕ) (ws : List (List ℕ))
    → All (IsFresh now) ws
    → Rises prev ws
    → check_witnesses now prev ws ≡ ok tt
unfolding check_witnesses
check_witnesses_complete now prev [] f r = refl
check_witnesses_complete now none (w ∷ ws) f r =
    ground (arith, check_witnesses_complete now (some (witness_id w)) ws f.1)
check_witnesses_complete now (some p) (w ∷ ws) f r =
    ground (arith, check_witnesses_complete now (some (witness_id w)) ws f.1)

verify_heartbeat_sound :
    (tx : Transaction) (now : ℕ) → verify_heartbeat tx now ≡ ok tt → IsLive now tx
unfolding verify_heartbeat is_heartbeat
verify_heartbeat_sound tx now h = record {
  kind = ground arith;
  witnessed = ground arith;
  fresh = ground (arith, check_witnesses_sound now none tx.heartbeat_witnesses);
  rising = ground (arith, check_witnesses_sound now none tx.heartbeat_witnesses);
}

verify_heartbeat_complete :
    (tx : Transaction) (now : ℕ) → IsLive now tx → verify_heartbeat tx now ≡ ok tt
unfolding verify_heartbeat is_heartbeat
verify_heartbeat_complete tx now h =
    ground (
      arith,
      h.witnessed,
      check_witnesses_complete now none tx.heartbeat_witnesses h.fresh h.rising,
    )

-- `verify_heartbeat` accepts a transaction at a time exactly when it is a heartbeat with at least
-- one witness, every witness holds an id and a time at most 180 ticks old, and the ids rise strictly.
pub verify_heartbeat-IsLive :
    (tx : Transaction) (now : ℕ) → (verify_heartbeat tx now ≡ ok tt) ↔ IsLive now tx
verify_heartbeat-IsLive tx now = (verify_heartbeat_sound tx now, verify_heartbeat_complete tx now)

-- A later witness has a greater id, so it is none of those before.
occurs-Rises :
    (w : List ℕ) (p : ℕ) (ws : List (List ℕ))
    → witness_id w ≤ p
    → Rises (some p) ws
    → occurs w ws ≡ false
occurs-Rises w p [] h r = refl
occurs-Rises w p (v ∷ ws) h r =
    ground (arith, differs, occurs-Rises w (witness_id v) ws (omega arith) r.1)
  where
    differs : bytes_eq w v ≡ false
    differs = elim (Bool-cases (bytes_eq w v)) [
      | inl same ↦ absurd (omega (arith, ap witness_id (bytes_eq→eq w v same)))
      | inr other ↦ other
    ]

count_unique-Rises :
    (prev : Option ℕ) (ws : List (List ℕ)) → Rises prev ws → count_unique ws ≡ length ws
unfolding count_unique
count_unique-Rises prev [] r = refl
count_unique-Rises none (w ∷ ws) r =
    ground (arith, occurs-Rises w (witness_id w) ws, count_unique-Rises (some (witness_id w)) ws r)
count_unique-Rises (some p) (w ∷ ws) r =
    ground
      (arith, occurs-Rises w (witness_id w) ws, count_unique-Rises (some (witness_id w)) ws r.1)

-- A heartbeat that `verify_heartbeat` accepts has no repeated witness, so its coverage of a
-- positive number of nodes counts every witness, in ten-thousandths, and is at most 10000 when
-- there are no more witnesses than nodes.
pub heartbeat_coverage_bps-verified :
    (tx : Transaction) (now total : ℕ)
    → verify_heartbeat tx now ≡ ok tt
    → 0 < total
    → length tx.heartbeat_witnesses ≤ total
    → (heartbeat_coverage_bps tx total ≡ length tx.heartbeat_witnesses * 10000 / total)
      × (heartbeat_coverage_bps tx total ≤ 10000)
unfolding heartbeat_coverage_bps
heartbeat_coverage_bps-verified tx now total h pos few =
    (ground (arith, all, small), ground (arith, all, small))
  where
    all : count_unique tx.heartbeat_witnesses ≡ length tx.heartbeat_witnesses
    all = count_unique-Rises none tx.heartbeat_witnesses (verify_heartbeat_sound tx now h).rising

    small : length tx.heartbeat_witnesses * 10000 / total ≤ 10000
    small = div-le_of_le-mul total (omega arith)
