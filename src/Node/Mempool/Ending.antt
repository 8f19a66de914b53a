-- ===== src/Node/Mempool/Ending.antt =====
-- The end of the loops of `build_block`.
use aevum_public.Base.{
  ℕ, zero, suc, ◌+◌, ◌≤◌, ◌<◌, ◌≡◌, refl, ◌∙◌, ap, ◌≢◌, inl, inr, max, Bool, true, false, some,
  List, [], ◌∷◌, arith, ltb, leb, ==_refl, length, length-append, sum_by, Bool-cases, Option-cases,
}
use aevum_public.Base.Map.{lookup, contains_key}
use aevum_public.Core.Transaction.{Transaction}
use aevum_public.Node.Mempool.{TxRef, MempoolInner, fee_buckets}
use aevum_public.Node.Mempool.Assembly.{
  Build, with_queue, take_ref, drain, drain_all, build_block, count_block,
}

abbrev pub queue_bytes : List TxRef → ℕ
queue_bytes = sum_by (λ r. r.size)

-- The bytes and the references in the buckets below a number.
abbrev pub bytes_below : ℕ → (ℕ → List TxRef) → ℕ
bytes_below zero buckets = 0
bytes_below (suc b) buckets = queue_bytes (buckets b) + bytes_below b buckets

abbrev pub refs_below : ℕ → (ℕ → List TxRef) → ℕ
refs_below zero buckets = 0
refs_below (suc b) buckets = length (buckets b) + refs_below b buckets

take_ref_state :
    (r : TxRef) (s : Build)
    → ((take_ref r s).pool.buckets ≡ s.pool.buckets)
      × ((take_ref r s).bytes ≤ s.bytes + r.size)
      × (length (take_ref r s).out ≤ length s.out + 1)
unfolding take_ref
take_ref_state r s = elim (Option-cases (lookup r.hash s.pool.tx_store)) [
  | inl e ↦ rw (e, take_ref) (refl, omega arith, omega arith)
  | inr (tx, e) ↦ rw (e, take_ref) (refl, omega arith, omega (arith, length-append s.out (tx ∷ [])))
]

-- What the loop on a bucket leaves when it ends.
record Drained (b max_tx : ℕ) (s t : Build) (full : Bool) : Type 0 where
  spent : t.bytes ≤ s.bytes + queue_bytes (s.pool.buckets b)
  others : (j : ℕ) → j ≢ b → t.pool.buckets j ≡ s.pool.buckets j
  few : length t.out ≤ max max_tx 1
  unfilled : full ≡ false → length s.out < max max_tx 1 → length t.out < max max_tx 1

module _ (b max_tx max_bytes : ℕ) where
  Ends : ℕ → Build → Type 0
  Ends fuel s =
      (full : Bool) × (t : Build) × (drain fuel b max_tx max_bytes s ≡ some (full, t))
      × Drained b max_tx s t full

  -- The loop goes on from a state whose bucket is the rest of the queue.
  Ends-after :
      (fuel : ℕ) (s n : Build) (r : TxRef) (q : List TxRef)
      → s.pool.buckets b ≡ r ∷ q
      → drain (suc fuel) b max_tx max_bytes s ≡ drain fuel b max_tx max_bytes n
      → n.pool.buckets ≡ (with_queue b q s).pool.buckets
      → n.bytes ≤ s.bytes + r.size
      → length n.out < max max_tx 1
      → Ends fuel n
      → Ends (suc fuel) s
  unfolding Ends
  Ends-after fuel s n r q e step same bytes room (full, t, d, k) =
      let here : n.pool.buckets b ≡ q = ap (λ f. f b) same ∙ ground (arith, ==_refl b) in
      (
        full,
        t,
        step ∙ d,
        record {
          spent = omega (arith, k.spent, bytes, ap queue_bytes e, ap queue_bytes here);
          others = λ j ne. k.others j ne ∙ ap (λ f. f j) same ∙ ground arith;
          few = k.few;
          unfilled = λ f _. k.unfilled f room;
        },
      )

  drain_step :
      (fuel : ℕ) (s : Build)
      → ((n : Build)
          → suc (length (n.pool.buckets b)) ≤ length (s.pool.buckets b)
          → n.bytes + queue_bytes (n.pool.buckets b) ≤ max_bytes
          → length n.out < max max_tx 1
          → Ends fuel n)
      → s.bytes + queue_bytes (s.pool.buckets b) ≤ max_bytes
      → length s.out < max max_tx 1
      → (q : List TxRef) → s.pool.buckets b ≡ q
      → Ends (suc fuel) s
  unfolding Ends
  drain_step fuel s ih fits room [] e = (
    false,
    s,
    unfold drain in rw (e, drain) refl,
    record { spent = omega arith; others = λ j ne. refl; few = omega arith; unfilled = λ f r. r },
  )
  drain_step fuel s ih fits room (r ∷ q) e =
      let rest : Build = with_queue b q s in
      let here : rest.pool.buckets b ≡ q = ground (arith, ==_refl b) in
      let fit : ltb max_bytes (s.bytes + r.size) ≡ false = ground (arith, ap queue_bytes e, fits) in
      elim (Bool-cases (contains_key r.hash s.pool.index)) [
        | inr gone ↦
            Ends-after fuel s rest r q e (unfold drain in rw (e, drain) (rw (gone, drain) refl))
              refl (omega arith) room
              (ih rest (omega (arith, ap length e, ap length here))
                (omega (arith, ap queue_bytes e, ap queue_bytes here)) room)
        | inl there ↦
            let (same, bytes, more) = take_ref_state r rest in
            let next : Build = take_ref r rest in
            let nextq : next.pool.buckets b ≡ q = ap (λ f. f b) same ∙ here in
            elim (Bool-cases (leb max_tx (length next.out))) [
              | inl full ↦ (
                true,
                next,
                unfold drain in
                    rw (e, drain) (rw (there, drain) (rw (fit, drain) (rw (full, drain) refl))),
                record {
                  spent = omega (arith, bytes, ap queue_bytes e);
                  others = λ j ne. ap (λ f. f j) same ∙ ground arith;
                  few = omega (arith, more, room);
                  unfilled = λ f _. absurd (cc);
                },
              )
              | inr part ↦
                  Ends-after fuel s next r q e
                    (unfold drain in
                      rw (e, drain) (rw (there, drain) (rw (fit, drain) (rw (part, drain) refl))))
                    same bytes (ground (arith, part))
                    (ih next (omega (arith, ap length e, ap length nextq))
                      (omega (arith, bytes, fits, ap queue_bytes e, ap queue_bytes nextq))
                      (ground (arith, part)))
            ]
      ]

  drain-Ends :
      (fuel : ℕ) (s : Build)
      → length (s.pool.buckets b) < fuel
      → s.bytes + queue_bytes (s.pool.buckets b) ≤ max_bytes
      → length s.out < max max_tx 1
      → Ends fuel s
  drain-Ends zero s h fits room = absurd (omega arith)
  drain-Ends (suc fuel) s h fits room =
      drain_step fuel s (λ n shorter f r. drain-Ends fuel n (omega (arith, shorter)) f r) fits room
        (s.pool.buckets b) refl

bytes_below-cong :
    (b : ℕ) (f g : ℕ → List TxRef)
    → ((j : ℕ) → j < b → f j ≡ g j)
    → (bytes_below b f ≡ bytes_below b g) × (refs_below b f ≡ refs_below b g)
bytes_below-cong zero f g h = (refl, refl)
bytes_below-cong (suc b) f g h =
    let (u, v) = bytes_below-cong b f g (λ j l. h j (omega (arith, l))) in
    let now = h b (omega arith) in
    (omega (arith, u, ap queue_bytes now), omega (arith, v, ap length now))

drain_all_ends :
    (fuel b max_tx max_bytes : ℕ) (s : Build)
    → refs_below b s.pool.buckets < fuel
    → s.bytes + bytes_below b s.pool.buckets ≤ max_bytes
    → length s.out < max max_tx 1
    → (t : Build) × (drain_all fuel b max_tx max_bytes s ≡ some t)
      × (length t.out ≤ max max_tx 1)
      × (t.bytes ≤ max_bytes)
unfolding drain_all Ends
drain_all_ends fuel zero max_tx max_bytes s h fits room =
    (s, refl, omega arith, omega (arith, fits))
drain_all_ends fuel (suc b) max_tx max_bytes s h fits room =
    let (full, t, e, k) =
      drain-Ends b max_tx max_bytes fuel s (omega (arith, h)) (omega (arith, fits)) room in
    let (same, count) =
      bytes_below-cong b t.pool.buckets s.pool.buckets (λ j l. k.others j (omega (arith, l))) in
    elim (Bool-cases full) [
      | inl yes_full ↦ (
        t,
        rw (e, drain_all) (rw (yes_full, drain_all) refl),
        k.few,
        omega (arith, k.spent, fits),
      )
      | inr part ↦
          let (u, d, few, small) =
            drain_all_ends fuel b max_tx max_bytes t (omega (arith, h, count))
              (omega (arith, k.spent, same, fits)) (k.unfilled part room) in
          (u, rw (e, drain_all) (rw (part, drain_all) d), few, small)
    ]

zero_add_le : (n m : ℕ) → n ≤ m → 0 + n ≤ m
zero_add_le n m h = omega arith

-- When all the references that wait fit together into the bytes of a block, `build_block` ends with
-- any fuel above their number, and takes at most `max_tx` transactions, or one where that is 0.
pub build_block-ends :
    (fuel max_tx max_bytes : ℕ) (p : MempoolInner)
    → refs_below fee_buckets p.buckets < fuel
    → bytes_below fee_buckets p.buckets ≤ max_bytes
    → (q : MempoolInner) × (out : List Transaction) × (build_block fuel max_tx max_bytes p
        ≡ some (q, out))
      × (length out ≤ max max_tx 1)
unfolding build_block
build_block-ends fuel max_tx max_bytes p h fits =
    let (t, e, few, _) =
      drain_all_ends fuel fee_buckets max_tx max_bytes (record { pool = p; out = []; bytes = 0 }) h
        (zero_add_le (bytes_below fee_buckets p.buckets) max_bytes fits) (omega arith) in
    (count_block t.pool, t.out, rw (e, build_block) refl, few)
