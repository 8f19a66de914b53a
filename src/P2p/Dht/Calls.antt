-- ===== src/P2p/Dht/Calls.antt =====
-- crates/aevum-p2p/src/dht.rs: any sequence of calls on a new table.
use aevum_public.Base.{
  ℕ, zero, suc, ◌+◌, ◌*◌, ◌≤◌, ◌≡◌, ◌≢◌, ◌∙◌, Bool, List, [], ◌∷◌, ◌==◌, length, sum_by, replicate,
  length-map, length-replicate, arith, Bool-cases, inl, inr,
}
use aevum_public.P2p.Dht.{
  DhtNode, Dht, k_buckets, new_dht, k_buckets, bucket_add, index_of, add_or_update, is_alive,
  retain, cleanup, total_nodes, alive_nodes, bucket_index, distance,
}
use aevum_public.P2p.Dht.Table.{
  IsBucket, AllFrom, IsTable, update_at-AllFrom, length-update_at, map-AllFrom, length-retain,
  retain-IsBucket, bucket_add-IsBucket,
}

-- A call that changes the table.
pub data DhtCall : Type 0 where
  adding : ℕ → ℕ → ℕ → DhtCall
  cleaning : ℕ → ℕ → DhtCall

unfoldable pub dht_run : List DhtCall → Dht → Dht
dht_run [] t = t
dht_run (adding id addr now ∷ cs) t = dht_run cs (add_or_update id addr now t)
dht_run (cleaning now timeout ∷ cs) t = dht_run cs (cleanup now timeout t)

add_or_update-IsTable :
    (id addr now : ℕ) (t : Dht) → IsTable t → IsTable (add_or_update id addr now t)
unfolding add_or_update index_of
add_or_update-IsTable id addr now t h = elim (Bool-cases (id == t.our_id)) [
  | inl e ↦ rw (e, add_or_update) h
  | inr e ↦
      let node : DhtNode = record { node_id = id; addr = addr; last_seen = now } in
      let i = index_of t id in
      let other : id ≢ t.our_id = λ same. absurd (ground (arith, e, same)) in
      let here : bucket_index (distance t.our_id id) ≡ 0 + i = omega arith in
      rw (e, add_or_update)
        (
          length-update_at (bucket_add node) i t.buckets ∙ h.0,
          update_at-AllFrom (IsBucket t.our_id) (bucket_add node) 0 i t.buckets
              (λ b k. bucket_add-IsBucket t.our_id (0 + i) node b (other, here) k) h.1,
        )
]

cleanup-IsTable : (now timeout : ℕ) (t : Dht) → IsTable t → IsTable (cleanup now timeout t)
unfolding cleanup
cleanup-IsTable now timeout t h = (
  length-map t.buckets (retain (is_alive now timeout)) ∙ h.0,
  map-AllFrom (IsBucket t.our_id) (retain (is_alive now timeout)) 0 t.buckets
      (retain-IsBucket t.our_id (is_alive now timeout)) h.1,
)

run-keeps : (cs : List DhtCall) (t : Dht) → IsTable t → IsTable (dht_run cs t)
unfolding dht_run
run-keeps [] t h = h
run-keeps (adding id addr now ∷ cs) t h =
    run-keeps cs (add_or_update id addr now t) (add_or_update-IsTable id addr now t h)
run-keeps (cleaning now timeout ∷ cs) t h =
    run-keeps cs (cleanup now timeout t) (cleanup-IsTable now timeout t h)

-- After any calls on a new table, it has 256 buckets of at most 8 nodes; every node is in the bucket
-- of its distance and is not ourselves, and no id stands twice in a bucket.
pub dht_run-IsTable : (cs : List DhtCall) (our_id : ℕ) → IsTable (dht_run cs (new_dht our_id))
unfolding new_dht
dht_run-IsTable cs our_id =
    run-keeps cs (new_dht our_id)
      (length-replicate {A = List DhtNode} k_buckets [], empty k_buckets 0)
  where
    empty : (n start : ℕ) → AllFrom (IsBucket our_id) start (replicate n [])
    empty zero start = tt
    empty (suc n) start = ((omega arith, tt, tt), empty n (start + 1))

-- The nodes of a well-formed part of the table.
nodes_le :
    (our_id start : ℕ) (bs : List (List DhtNode))
    → AllFrom (IsBucket our_id) start bs
    → sum_by length bs ≤ 8 * length bs
nodes_le our_id start [] h = omega arith
nodes_le our_id start (b ∷ bs) h = omega (arith, h.0.0, nodes_le our_id (start + 1) bs h.1)

alive_le :
    (keep : DhtNode → Bool) (bs : List (List DhtNode))
    → sum_by (λ b. length (retain keep b)) bs ≤ sum_by length bs
alive_le keep [] = omega arith
alive_le keep (b ∷ bs) = omega (arith, length-retain keep b, alive_le keep bs)

-- A table that any calls made has 2048 nodes at most, and no fewer than are alive at any time.
pub dht_run-bounded :
    (cs : List DhtCall) (our_id now timeout : ℕ)
    → let t = dht_run cs (new_dht our_id) in
      (alive_nodes now timeout t ≤ total_nodes t) × (total_nodes t ≤ 2048)
unfolding total_nodes alive_nodes
dht_run-bounded cs our_id now timeout =
    let t = dht_run cs (new_dht our_id) in
    let h = dht_run-IsTable cs our_id in
    (
      alive_le (is_alive now timeout) t.buckets,
      omega (arith, h.0, nodes_le t.our_id 0 t.buckets h.1),
    )
