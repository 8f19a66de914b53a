-- ===== src/P2p/Dht/Table.antt =====
-- crates/aevum-p2p/src/dht.rs: where the nodes of the table are, under any calls.
use aevum_public.Base.{
  ℕ, zero, suc, ◌+◌, ◌≤◌, ◌<◌, ◌≡◌, ◌≢◌, refl, sym, ap, ◌∙◌, subst, Bool, false, List, [], ◌∷◌,
  ◌++◌, map, ltb, length, length-append, mem, IsDistinct, All, append-IsDistinct, arith, Bool-cases,
  inl, inr,
}
use aevum_public.P2p.Dht.{
  DhtNode, Dht, k_buckets, bucket_max, has_node, refresh, sort_by_key, set_first, bucket_add,
  update_at, retain, bucket_index, distance,
}
use aevum_public.P2p.Dht.Buckets.{
  ids, mem-has_node, length-refresh, ids-refresh, refresh-All, sort_by_key-All, mem-sort_by_key,
  length-sort_by_key, sort_by_key-IsDistinct,
}

-- A node that belongs in the bucket `i` of the table of `our_id`, and a bucket of such nodes that is
-- not too long and has no id twice.
abbrev pub Belongs : ℕ → ℕ → ℕ → Type 0
Belongs our_id i id = (id ≢ our_id) × (bucket_index (distance our_id id) ≡ i)

abbrev pub IsBucket : ℕ → ℕ → List DhtNode → Type 0
IsBucket our_id i b =
    (length b ≤ bucket_max) × All (λ n. Belongs our_id i n.node_id) b × IsDistinct (ids b)

abbrev pub AllFrom : (ℕ → List DhtNode → Type 0) → ℕ → List (List DhtNode) → Type 0
AllFrom P i [] = Unit {0}
AllFrom P i (b ∷ bs) = P i b × AllFrom P (i + 1) bs

abbrev pub IsTable : Dht → Type 0
IsTable t = (length t.buckets ≡ k_buckets) × AllFrom (IsBucket t.our_id) 0 t.buckets

All-append {ℓ} :
    {A : Type 0} (P : A → Type ℓ) (xs ys : List A) → All P xs → All P ys → All P (xs ++ ys)
All-append P [] ys h k = k
All-append P (x ∷ xs) ys h k = (h.0, All-append P xs ys h.1 k)

ids-append : (a b : List DhtNode) → ids (a ++ b) ≡ ids a ++ ids b
ids-append [] b = refl
ids-append (n ∷ a) b = ap (λ l. n.node_id ∷ l) (ids-append a b)

-- A new node in the place of the first.
set_first-IsBucket :
    (our_id i : ℕ) (node : DhtNode) (b : List DhtNode)
    → Belongs our_id i node.node_id
    → mem node.node_id (ids b) ≡ false
    → IsBucket our_id i b
    → IsBucket our_id i (set_first node b)
unfolding set_first
set_first-IsBucket our_id i node [] p new h = h
set_first-IsBucket our_id i node (n ∷ b) p new h = (h.0, (p, h.1.1), (ground (arith, new), h.2.1))

push-IsBucket :
    (our_id i : ℕ) (node : DhtNode) (b : List DhtNode)
    → Belongs our_id i node.node_id
    → mem node.node_id (ids b) ≡ false
    → length b < bucket_max
    → IsBucket our_id i b
    → IsBucket our_id i (b ++ node ∷ [])
push-IsBucket our_id i node b p new room h = (
  omega (arith, length-append b (node ∷ [])),
  All-append (λ n. Belongs our_id i n.node_id) b (node ∷ []) h.1 (p, tt),
  rw (ids-append b (node ∷ []))
      (append-IsDistinct (ids b) (node.node_id ∷ []) h.2 (refl, tt) (new, tt)),
)

sort-IsBucket :
    (our_id i : ℕ) (key : DhtNode → ℕ) (b : List DhtNode)
    → IsBucket our_id i b
    → IsBucket our_id i (sort_by_key key b)
sort-IsBucket our_id i key b h = (
  omega (arith, length-sort_by_key key b, h.0),
  sort_by_key-All (Belongs our_id i) key b h.1,
  sort_by_key-IsDistinct key b h.2,
)

refresh-IsBucket :
    (our_id i : ℕ) (node : DhtNode) (b : List DhtNode)
    → IsBucket our_id i b
    → IsBucket our_id i (refresh node b)
refresh-IsBucket our_id i node b h = (
  omega (arith, length-refresh node b, h.0),
  refresh-All (Belongs our_id i) node b h.1,
  subst IsDistinct (sym (ids-refresh node b)) h.2,
)

pub bucket_add-IsBucket :
    (our_id i : ℕ) (node : DhtNode) (b : List DhtNode)
    → Belongs our_id i node.node_id
    → IsBucket our_id i b
    → IsBucket our_id i (bucket_add node b)
unfolding bucket_add
bucket_add-IsBucket our_id i node b p h = elim (Bool-cases (has_node node.node_id b)) [
  | inl e ↦ rw (e, bucket_add) (refresh-IsBucket our_id i node b h)
  | inr e ↦
      let new = sym (mem-has_node node.node_id b) ∙ e in
      let sorted = sort_by_key (λ n. n.last_seen) b in
      elim (Bool-cases (ltb (length b) bucket_max)) [
        | inl k ↦ rw (e, k, bucket_add) (push-IsBucket our_id i node b p new (ground arith) h)
        | inr k ↦
            rw (e, k, bucket_add)
              (set_first-IsBucket our_id i node sorted p
                (mem-sort_by_key node.node_id (λ n. n.last_seen) b ∙ new)
                (sort-IsBucket our_id i (λ n. n.last_seen) b h))
      ]
]

pub update_at-AllFrom :
    (P : ℕ → List DhtNode → Type 0) (f : List DhtNode → List DhtNode) (start i : ℕ)
    (bs : List (List DhtNode))
    → ((b : List DhtNode) → P (start + i) b → P (start + i) (f b))
    → AllFrom P start bs
    → AllFrom P start (update_at i f bs)
unfolding update_at
update_at-AllFrom P f start i [] step h = tt
update_at-AllFrom P f start zero (b ∷ bs) step h =
    let same : start + 0 ≡ start = omega arith in
    (subst (λ n. P n (f b)) same (step b (subst (λ n. P n b) (sym same) h.0)), h.1)
update_at-AllFrom P f start (suc i) (b ∷ bs) step h =
    let same : start + suc i ≡ start + 1 + i = omega arith in
    (
      h.0,
      update_at-AllFrom P f (start + 1) i bs
          (subst (λ n. (c : List DhtNode) → P n c → P n (f c)) same step) h.1,
    )

pub length-update_at :
    (f : List DhtNode → List DhtNode) (i : ℕ) (bs : List (List DhtNode))
    → length (update_at i f bs) ≡ length bs
unfolding update_at
length-update_at f i [] = refl
length-update_at f zero (b ∷ bs) = refl
length-update_at f (suc i) (b ∷ bs) = ap suc (length-update_at f i bs)

pub map-AllFrom :
    (P : ℕ → List DhtNode → Type 0) (f : List DhtNode → List DhtNode) (start : ℕ)
    (bs : List (List DhtNode))
    → ((i : ℕ) (b : List DhtNode) → P i b → P i (f b))
    → AllFrom P start bs
    → AllFrom P start (map f bs)
map-AllFrom P f start [] step h = tt
map-AllFrom P f start (b ∷ bs) step h = (step start b h.0, map-AllFrom P f (start + 1) bs step h.1)

pub length-retain : (keep : DhtNode → Bool) (b : List DhtNode) → length (retain keep b) ≤ length b
unfolding retain
length-retain keep [] = omega arith
length-retain keep (n ∷ b) = ground (arith, length-retain keep b)

mem-retain :
    (a : ℕ) (keep : DhtNode → Bool) (b : List DhtNode)
    → mem a (ids b) ≡ false
    → mem a (ids (retain keep b)) ≡ false
unfolding retain
mem-retain a keep [] h = refl
mem-retain a keep (n ∷ b) h = ground (arith, mem-retain a keep b)

pub retain-IsBucket :
    (our_id : ℕ) (keep : DhtNode → Bool) (i : ℕ) (b : List DhtNode)
    → IsBucket our_id i b
    → IsBucket our_id i (retain keep b)
unfolding retain
retain-IsBucket our_id keep i [] h = h
retain-IsBucket our_id keep i (n ∷ b) h =
    let rest = retain-IsBucket our_id keep i b (omega (arith, h.0), h.1.1, h.2.1) in
    elim (Bool-cases (keep n)) [
      | inl e ↦
          rw (e, retain)
            (
              omega (arith, h.0, length-retain keep b),
              (h.1.0, rest.1),
              (mem-retain n.node_id keep b h.2.0, rest.2),
            )
      | inr e ↦ rw (e, retain) rest
    ]
