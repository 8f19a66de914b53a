-- ===== src/Node/Mempool/Calls.antt =====
-- Calls that insert, remove and evict, and how the maps of the pool fit together after them.
use aevum_public.Base.{
  ℕ, ◌+◌, ◌-◌, ◌≤◌, ◌<◌, ◌≡◌, refl, sym, ◌∙◌, ap, ◌⊎◌, inl, inr, Bool, true, false, none, some,
  List, [], ◌∷◌, arith, ◌==◌, mem, length, Option-cases, Bool-cases, subst,
}
use aevum_public.Base.Map.{lookup, insert, remove, contains_key, lookup-insert, lookup-remove}
use aevum_public.Base.Keys.{
  insert-IsDistinct, remove-IsDistinct, length-insert, length-remove, contains_key-insert,
  contains_key-remove,
}
use aevum_public.Core.Transaction.{Transaction}
use aevum_public.Core.Block.Scanning.{nullifiers}
use aevum_public.Node.Mempool.{
  TxRef, MempoolInner, max_mempool_tx, max_mempool_bytes, new_pool, any_spent, add_nullifiers,
  drop_nullifiers, ref_of, store, insert_tx, forget_tx, forget_ref, remove_one, remove_loop,
  remove_transactions, evict_loop, evict_stale, adjust_fee_floor, all_stale, fee_buckets, retain,
}
use aevum_public.Node.Mempool.Consistent.{
  sizes, sizes-insert, sizes-remove, lookup-add_nullifiers, lookup-drop_nullifiers, any_spent-mem,
  IsConsistent,
}

store-IsConsistent :
    (p : MempoolInner) (tx : Transaction) (poh_tick now : ℕ)
    → IsConsistent p
    → contains_key tx.tx_hash p.index ≡ false
    → any_spent p.nullifiers tx.inputs ≡ false
    → length p.index < max_mempool_tx
    → p.total_bytes + (ref_of tx poh_tick now).size ≤ max_mempool_bytes
    → IsConsistent (store p tx poh_tick now)
unfolding store
store-IsConsistent p tx poh_tick now c new free room fits =
    let r = ref_of tx poh_tick now in
    record {
      bytes = omega (arith, c.bytes, sizes-insert tx.tx_hash r p.index new);
      small = fits;
      few = omega (arith, room, length-insert tx.tx_hash r p.index);
      distinct = insert-IsDistinct tx.tx_hash r p.index c.distinct;
      indexed = λ h t e. ground (
        arith,
        c.indexed h t,
        lookup-insert h tx.tx_hash tx p.tx_store,
        contains_key-insert h tx.tx_hash r p.index,
      );
      owned = λ h n t e m. owner h n t e m;
    }
  where
    owner :
        (h n : ℕ) (t : Transaction)
        → lookup h (insert tx.tx_hash tx p.tx_store) ≡ some t
        → mem n (nullifiers t.inputs) ≡ true
        → lookup n (add_nullifiers tx.tx_hash tx.inputs p.nullifiers) ≡ some h
    owner h n t e m = elim (Bool-cases (h == tx.tx_hash)) [
      | inl same ↦
          let eh : h ≡ tx.tx_hash = ground arith in
          let et : tx ≡ t = ground (arith, lookup-insert h tx.tx_hash tx p.tx_store) in
          let mt : mem n (nullifiers tx.inputs) ≡ true = rw et m in
          ground (arith, lookup-add_nullifiers n tx.tx_hash tx.inputs p.nullifiers)
      | inr other ↦
          let held = c.owned h n t (ground (arith, lookup-insert h tx.tx_hash tx p.tx_store)) m in
          ground (
            arith,
            lookup-add_nullifiers n tx.tx_hash tx.inputs p.nullifiers,
            any_spent-mem n tx.inputs p.nullifiers free,
          )
    ]

abbrev without : ℕ → TxRef → MempoolInner → MempoolInner
without h r p = record p { index = remove h p.index; total_bytes = p.total_bytes - r.size }

abbrev without_both : ℕ → TxRef → Transaction → MempoolInner → MempoolInner
without_both h r tx p = record p {
  index = remove h p.index;
  total_bytes = p.total_bytes - r.size;
  tx_store = remove h p.tx_store;
  nullifiers = drop_nullifiers tx.inputs p.nullifiers;
}

module _ (p : MempoolInner) (c : IsConsistent p) (h : ℕ) (r : TxRef)
    (there : lookup h p.index ≡ some r) where
  without-IsConsistent : lookup h p.tx_store ≡ none → IsConsistent (without h r p)
  without-IsConsistent bare =
      let left = sizes-remove h r p.index c.distinct there in
      record {
        bytes = omega (arith, c.bytes, left);
        small = omega (arith, c.small);
        few = omega (arith, c.few, length-remove h p.index);
        distinct = remove-IsDistinct h p.index c.distinct;
        indexed = λ k t e. ground (arith, bare, c.indexed k t e, contains_key-remove k h p.index);
        owned = c.owned;
      }

  without_both-IsConsistent :
      (tx : Transaction) → lookup h p.tx_store ≡ some tx → IsConsistent (without_both h r tx p)
  without_both-IsConsistent tx stored =
      let left = sizes-remove h r p.index c.distinct there in
      record {
        bytes = omega (arith, c.bytes, left);
        small = omega (arith, c.small);
        few = omega (arith, c.few, length-remove h p.index);
        distinct = remove-IsDistinct h p.index c.distinct;
        indexed = λ k t e.
            ground
              (arith, lookup-remove k h p.tx_store, c.indexed k t, contains_key-remove k h p.index);
        owned = λ k n t e m. ground (
          arith,
          lookup-remove k h p.tx_store,
          lookup-drop_nullifiers n tx.inputs p.nullifiers,
          c.owned k n t,
          c.owned h n tx stored,
        );
      }

forget-IsConsistent :
    (h : ℕ) (p : MempoolInner) → IsConsistent p → IsConsistent (forget_tx h (forget_ref h p))
forget-IsConsistent h p c = elim (Option-cases (lookup h p.index)) [
  | inl gone ↦ elim (Option-cases (lookup h p.tx_store)) [
    | inl bare ↦
        let same : forget_tx h (forget_ref h p) ≡ p = ground (arith, gone, bare) in
        subst IsConsistent (sym same) c
    | inr (tx, stored) ↦ absurd (ground (arith, gone, c.indexed h tx stored))
  ]
  | inr (r, there) ↦ elim (Option-cases (lookup h p.tx_store)) [
    | inl bare ↦
        let same : forget_tx h (forget_ref h p) ≡ without h r p = ground (arith, there, bare) in
        subst IsConsistent (sym same) (without-IsConsistent p c h r there bare)
    | inr (tx, stored) ↦
        let same : forget_tx h (forget_ref h p) ≡ without_both h r tx p =
          ground (arith, there, stored) in
        subst IsConsistent (sym same) (without_both-IsConsistent p c h r there tx stored)
  ]
]

remove_one-IsConsistent :
    (h : ℕ) (p : MempoolInner) → IsConsistent p → IsConsistent (remove_one h p)
unfolding remove_one
remove_one-IsConsistent h p c = elim (Option-cases (lookup h p.index)) [
  | inl gone ↦
      let same : remove_one h p ≡ p = ground (arith, gone) in subst IsConsistent (sym same) c
  | inr (r, there) ↦
      let same : remove_one h p ≡ forget_tx h (forget_ref h p) = ground (arith, there) in
      subst IsConsistent (sym same) (forget-IsConsistent h p c)
]

remove_loop-IsConsistent :
    (hs : List ℕ) (p : MempoolInner) → IsConsistent p → IsConsistent (remove_loop hs p)
unfolding remove_loop
remove_loop-IsConsistent [] p c = c
remove_loop-IsConsistent (h ∷ hs) p c =
    remove_loop-IsConsistent hs (remove_one h p) (remove_one-IsConsistent h p c)

evict_loop-IsConsistent :
    (hs : List ℕ) (p : MempoolInner) → IsConsistent p → IsConsistent (evict_loop hs p)
unfolding evict_loop
evict_loop-IsConsistent [] p c = c
evict_loop-IsConsistent (h ∷ hs) p c =
    evict_loop-IsConsistent hs (forget_tx h (forget_ref h p)) (forget-IsConsistent h p c)

-- Consistency does not look at the queues, the fee floor and the statistics.
same_maps :
    (p q : MempoolInner)
    → q.index ≡ p.index
    → q.nullifiers ≡ p.nullifiers
    → q.tx_store ≡ p.tx_store
    → q.total_bytes ≡ p.total_bytes
    → IsConsistent p
    → IsConsistent q
same_maps p q ei en et eb c = record {
  bytes = eb ∙ c.bytes ∙ ap sizes (sym ei);
  small = omega (arith, c.small);
  few = rw (← ei) at c.few;
  distinct = rw (← ei) at c.distinct;
  indexed = λ h t e. ground (arith, c.indexed h t);
  owned = λ h n t e m. ground (arith, c.owned h n t);
}

-- One call on the pool, at a time of the clock.
pub data Call : Type 0 where
  inserted : Transaction → ℕ → ℕ → Call
  removed : List ℕ → Call
  evicted : ℕ → Call
  adjusted : Bool → Call

unfoldable pub call : Call → MempoolInner → MempoolInner
call (inserted tx poh_tick now) p = (insert_tx p tx poh_tick now).0
call (removed hs) p = remove_transactions hs p
call (evicted now) p = (evict_stale now p).0
call (adjusted congestion) p = adjust_fee_floor congestion p

unfoldable pub call_all : List Call → MempoolInner → MempoolInner
call_all [] p = p
call_all (x ∷ xs) p = call_all xs (call x p)

-- Either every check of `insert` has passed and the transaction is stored, or only the statistics
-- have changed.
pub insert_tx-cases :
    (p : MempoolInner) (tx : Transaction) (poh_tick now : ℕ)
    → ((insert_tx p tx poh_tick now ≡ (store p tx poh_tick now, true))
        × (p.min_fee_watermark ≤ tx.fee)
        × (contains_key tx.tx_hash p.index ≡ false)
        × (any_spent p.nullifiers tx.inputs ≡ false)
        × (length p.index < max_mempool_tx)
        × (p.total_bytes + (ref_of tx poh_tick now).size ≤ max_mempool_bytes))
      ⊎ ((insert_tx p tx poh_tick now).1 ≡ false)
        × ((insert_tx p tx poh_tick now).0
            ≡ record p { stats = (insert_tx p tx poh_tick now).0.stats })
unfolding insert_tx
insert_tx-cases p tx poh_tick now = ground arith

insert_tx-IsConsistent :
    (p : MempoolInner) (tx : Transaction) (poh_tick now : ℕ)
    → IsConsistent p
    → IsConsistent (insert_tx p tx poh_tick now).0
insert_tx-IsConsistent p tx poh_tick now c = elim (insert_tx-cases p tx poh_tick now) [
  | inl (e, _, new, free, room, fits) ↦
      let stored = store-IsConsistent p tx poh_tick now c new free room fits in
      subst (λ (q : MempoolInner × Bool). IsConsistent q.0) (sym e) stored
  | inr (_, e) ↦ subst IsConsistent (sym e) (same_maps p _ refl refl refl refl c)
]

call-IsConsistent : (x : Call) (p : MempoolInner) → IsConsistent p → IsConsistent (call x p)
unfolding call remove_transactions evict_stale adjust_fee_floor
call-IsConsistent (inserted tx poh_tick now) p c = insert_tx-IsConsistent p tx poh_tick now c
call-IsConsistent (removed hs) p c =
    same_maps (remove_loop hs p) _ refl refl refl refl (remove_loop-IsConsistent hs p c)
call-IsConsistent (evicted now) p c =
    let kept : MempoolInner = record p { buckets = λ b. retain now (p.buckets b) } in
    let hs = all_stale now fee_buckets p.buckets in
    same_maps (evict_loop hs kept) _ refl refl refl refl
      (evict_loop-IsConsistent hs kept (same_maps p kept refl refl refl refl c))
call-IsConsistent (adjusted congestion) p c = same_maps p _ refl refl refl refl c

new_pool-IsConsistent : IsConsistent new_pool
unfolding new_pool
new_pool-IsConsistent = record {
  bytes = refl;
  small = omega arith;
  few = omega arith;
  distinct = tt;
  indexed = λ h t e. absurd (cc);
  owned = λ h n t e m. absurd (cc);
}

pub call_all-IsConsistent_from :
    (xs : List Call) (p : MempoolInner) → IsConsistent p → IsConsistent (call_all xs p)
unfolding call_all
call_all-IsConsistent_from [] p c = c
call_all-IsConsistent_from (x ∷ xs) p c =
    call_all-IsConsistent_from xs (call x p) (call-IsConsistent x p c)

-- After any calls of `insert`, `remove_transactions`, `evict_stale` and `adjust_fee_floor` on a new
-- pool, its bytes are the sizes of its entries and within the limit, its entries are within theirs,
-- every stored transaction is indexed, and owns each nullifier that it spends.
pub call_all-IsConsistent : (xs : List Call) → IsConsistent (call_all xs new_pool)
call_all-IsConsistent xs = call_all-IsConsistent_from xs new_pool new_pool-IsConsistent

-- After any such calls, no two transactions in the pool with different hashes spend one nullifier.
pub call_all-no_conflict :
    (xs : List Call) (g h n : ℕ) (s t : Transaction)
    → lookup g (call_all xs new_pool).tx_store ≡ some s
    → lookup h (call_all xs new_pool).tx_store ≡ some t
    → mem n (nullifiers s.inputs) ≡ true
    → mem n (nullifiers t.inputs) ≡ true
    → g ≡ h
call_all-no_conflict xs g h n s t es et ms mt =
    let c = call_all-IsConsistent xs in ground (arith, c.owned g n s es ms, c.owned h n t et mt)
