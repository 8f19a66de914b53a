-- ===== src/P2p/Dht/Buckets.antt =====
-- crates/aevum-p2p/src/dht.rs: a bucket under refreshing and sorting.
use aevum_public.Base.{
  ℕ, suc, ◌≡◌, refl, ap, ◌∙◌, false, ◌||◌, List, [], ◌∷◌, map, ◌==◌, length, mem, IsDistinct, All,
  arith, Bool-cases, inl, inr,
}
use aevum_public.P2p.Dht.{DhtNode, has_node, refresh, insert_by, sort_by_key}

abbrev pub ids : List DhtNode → List ℕ
ids = map (λ n. n.node_id)

pub mem-has_node : (id : ℕ) (b : List DhtNode) → has_node id b ≡ mem id (ids b)
unfolding has_node
mem-has_node id [] = refl
mem-has_node id (n ∷ b) = ground (arith, mem-has_node id b)

pub length-refresh : (node : DhtNode) (b : List DhtNode) → length (refresh node b) ≡ length b
unfolding refresh
length-refresh node [] = refl
length-refresh node (n ∷ b) = ground (arith, length-refresh node b)

pub ids-refresh : (node : DhtNode) (b : List DhtNode) → ids (refresh node b) ≡ ids b
unfolding refresh
ids-refresh node [] = refl
ids-refresh node (n ∷ b) = ground (arith, ids-refresh node b)

-- A property of nodes that their ids decide.
module _ (P : ℕ → Type 0) where
  abbrev HasId : DhtNode → Type 0
  HasId n = P n.node_id

  pub refresh-All : (node : DhtNode) (b : List DhtNode) → All HasId b → All HasId (refresh node b)
  unfolding refresh
  refresh-All node [] h = tt
  refresh-All node (n ∷ b) h = elim (Bool-cases (n.node_id == node.node_id)) [
    | inl e ↦ rw (e, refresh) h
    | inr e ↦ rw (e, refresh) (h.0, refresh-All node b h.1)
  ]

  insert_by-All :
      (key : DhtNode → ℕ) (n : DhtNode) (b : List DhtNode)
      → P n.node_id
      → All HasId b
      → All HasId (insert_by key n b)
  unfolding insert_by
  insert_by-All key n [] p h = (p, tt)
  insert_by-All key n (m ∷ b) p h = ground (arith, insert_by-All key n b p h.1, h, p)

  pub sort_by_key-All :
      (key : DhtNode → ℕ) (b : List DhtNode) → All HasId b → All HasId (sort_by_key key b)
  unfolding sort_by_key
  sort_by_key-All key [] h = tt
  sort_by_key-All key (n ∷ b) h =
      insert_by-All key n (sort_by_key key b) h.0 (sort_by_key-All key b h.1)

length-insert_by :
    (key : DhtNode → ℕ) (n : DhtNode) (b : List DhtNode)
    → length (insert_by key n b) ≡ suc (length b)
unfolding insert_by
length-insert_by key n [] = refl
length-insert_by key n (m ∷ b) = ground (arith, length-insert_by key n b)

pub length-sort_by_key :
    (key : DhtNode → ℕ) (b : List DhtNode) → length (sort_by_key key b) ≡ length b
unfolding sort_by_key
length-sort_by_key key [] = refl
length-sort_by_key key (n ∷ b) =
    length-insert_by key n (sort_by_key key b) ∙ ap suc (length-sort_by_key key b)

mem-insert_by :
    (a : ℕ) (key : DhtNode → ℕ) (n : DhtNode) (b : List DhtNode)
    → mem a (ids (insert_by key n b)) ≡ (a == n.node_id || mem a (ids b))
unfolding insert_by
mem-insert_by a key n [] = refl
mem-insert_by a key n (m ∷ b) = ground (arith, mem-insert_by a key n b)

pub mem-sort_by_key :
    (a : ℕ) (key : DhtNode → ℕ) (b : List DhtNode) → mem a (ids (sort_by_key key b)) ≡ mem a (ids b)
unfolding sort_by_key
mem-sort_by_key a key [] = refl
mem-sort_by_key a key (n ∷ b) =
    ground (arith, mem-insert_by a key n (sort_by_key key b), mem-sort_by_key a key b)

insert_by-IsDistinct :
    (key : DhtNode → ℕ) (n : DhtNode) (b : List DhtNode)
    → mem n.node_id (ids b) ≡ false
    → IsDistinct (ids b)
    → IsDistinct (ids (insert_by key n b))
unfolding insert_by
insert_by-IsDistinct key n [] new h = (refl, tt)
insert_by-IsDistinct key n (m ∷ b) new h =
    ground (arith, insert_by-IsDistinct key n b, mem-insert_by m.node_id key n b, h, new)

pub sort_by_key-IsDistinct :
    (key : DhtNode → ℕ) (b : List DhtNode)
    → IsDistinct (ids b)
    → IsDistinct (ids (sort_by_key key b))
unfolding sort_by_key
sort_by_key-IsDistinct key [] h = tt
sort_by_key-IsDistinct key (n ∷ b) h =
    insert_by-IsDistinct key n (sort_by_key key b) (mem-sort_by_key n.node_id key b ∙ h.0)
      (sort_by_key-IsDistinct key b h.1)
