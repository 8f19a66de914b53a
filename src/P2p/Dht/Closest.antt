-- ===== src/P2p/Dht/Closest.antt =====
-- crates/aevum-p2p/src/dht.rs: the search for the nodes nearest to an id.
use aevum_public.Base.{
  ℕ, zero, suc, ◌+◌, ◌-◌, ◌≤◌, ◌≡◌, refl, Bool, true, false, List, [], ◌∷◌, ◌++◌, ◌==◌, ltb, leb,
  length, take, All, if◌then◌else◌, arith, Bool-cases, inl, inr, ◌⊎◌, ◌<◌, subst, some,
}
use native.Mathlib.Decide.{dec_lt}
use aevum_public.P2p.Dht.Reached.{Holds, Holds-All, gather-cases, gather-Holds, nearest-Holds}
use aevum_public.P2p.Dht.{
  DhtNode, Dht, k_buckets, insert_by, sort_by_key, bucket_at, bucket_index, index_from, distance,
  distance_key, is_alive, retain, gather, find_closest,
}

-- The loop ends: each turn takes a bucket on the left or one on the right.
gather-ends :
    (fuel : ℕ) (alive_at : ℕ → List DhtNode) (count left right : ℕ) (closest : List DhtNode)
    → left + (k_buckets - right) < fuel
    → (nodes : List DhtNode) × (gather fuel alive_at count left right closest ≡ some nodes)
unfolding gather
gather-ends zero alive_at count left right closest h = absurd (omega arith)
gather-ends (suc fuel) alive_at count left right closest h =
    let on_left = if left == 0 then [] else alive_at (left - 1) in
    let on_right = if ltb right k_buckets then alive_at right else [] in
    let right' = if ltb right k_buckets then right + 1 else right in
    let closest' = closest ++ (on_left ++ on_right) in
    elim (Bool-cases (leb count (length closest))) [
      | inl full ↦ (closest, rw (gather, full) refl)
      | inr room ↦ elim (Bool-cases (left == 0)) [
        | inl no_left ↦ elim (Bool-cases (ltb right k_buckets)) [
          | inl more ↦
              let ih = gather-ends fuel alive_at count (left - 1) right' closest' (ground arith) in
              (ih.0, ground (arith, ih.1))
          | inr no_right ↦ (closest, ground arith)
        ]
        | inr more ↦
            let ih = gather-ends fuel alive_at count (left - 1) right' closest' (ground arith) in
            (ih.0, ground (arith, ih.1))
      ]
    ]

index_from_le : (i : ℕ) (ds : List ℕ) → index_from i ds ≤ 255
unfolding index_from
index_from_le i [] = omega arith
index_from_le i (d ∷ ds) = ground (arith, index_from_le (i + 1) ds)

either : {A : Type 0} (Q : A → Type 0) (b : Bool) {x y : A} → Q x → Q y → Q (if b then x else y)
either Q true hx hy = hx
either Q false hx hy = hy

-- What holds of each node of a bucket holds of each node that is found.
module _ (P : DhtNode → Type 0) where
  retain-All :
      (keep : DhtNode → Bool) (b : List DhtNode)
      → ((n : DhtNode) → keep n ≡ true → Holds n b → P n)
      → All P (retain keep b)
  unfolding retain
  retain-All keep [] h = tt
  retain-All keep (n ∷ b) h =
      let later = retain-All keep b (λ m e k. h m e (inr k)) in
      elim (Bool-cases (keep n)) [
        | inl e ↦ rw (e, retain) (h n e (inl refl), later)
        | inr e ↦ rw (e, retain) later
      ]

  append-All : (xs ys : List DhtNode) → All P xs → All P ys → All P (xs ++ ys)
  append-All [] ys h k = k
  append-All (x ∷ xs) ys h k = (h.0, append-All xs ys h.1 k)

  take-All : (n : ℕ) (xs : List DhtNode) → All P xs → All P (take n xs)
  take-All zero xs h = tt
  take-All (suc n) [] h = tt
  take-All (suc n) (x ∷ xs) h = (h.0, take-All n xs h.1)

  insert_by-All :
      (key : DhtNode → ℕ) (n : DhtNode) (b : List DhtNode)
      → P n
      → All P b
      → All P (insert_by key n b)
  unfolding insert_by
  insert_by-All key n [] p h = (p, tt)
  insert_by-All key n (m ∷ b) p h = ground (arith, insert_by-All key n b p h.1, h, p)

  sort_by_key-All : (key : DhtNode → ℕ) (b : List DhtNode) → All P b → All P (sort_by_key key b)
  unfolding sort_by_key
  sort_by_key-All key [] h = tt
  sort_by_key-All key (n ∷ b) h =
      insert_by-All key n (sort_by_key key b) h.0 (sort_by_key-All key b h.1)

  gather-All :
      (fuel : ℕ) (alive_at : ℕ → List DhtNode) (count left right : ℕ) (closest nodes : List DhtNode)
      → ((i : ℕ) → All P (alive_at i))
      → All P closest
      → gather fuel alive_at count left right closest ≡ some nodes
      → All P nodes
  unfolding gather
  gather-All zero alive_at count left right closest nodes each h e = ground arith
  gather-All (suc fuel) alive_at count left right closest nodes each h e =
      let on_left = if left == 0 then [] else alive_at (left - 1) in
      let on_right = if ltb right k_buckets then alive_at right else [] in
      let right' = if ltb right k_buckets then right + 1 else right in
      let closest' = closest ++ (on_left ++ on_right) in
      let all' : All P closest' = append-All closest (on_left ++ on_right) h (
        append-All on_left on_right (either (All P) (left == 0) tt (each (left - 1)))
          (either (All P) (ltb right k_buckets) (each right) tt)) in
      let more = gather-All fuel alive_at count (left - 1) right' closest' nodes each all' in
      elim (gather-cases fuel alive_at count left right closest nodes e) [
        | inl same ↦ subst (All P) same.0 h
        | inr later ↦ more later
      ]

-- The nodes come nearest first.
abbrev pub IsOrdered : (DhtNode → ℕ) → List DhtNode → Type 0
IsOrdered key [] = Unit {0}
IsOrdered key (n ∷ ns) = All (λ m. key n ≤ key m) ns × IsOrdered key ns

farther :
    (key : DhtNode → ℕ) (n m : DhtNode) (ks : List DhtNode)
    → key n ≤ key m
    → All (λ k. key m ≤ key k) ks
    → All (λ k. key n ≤ key k) ks
farther key n m [] first h = tt
farther key n m (k ∷ ks) first h = (omega (arith, h.0), farther key n m ks first h.1)

insert_by-IsOrdered :
    (key : DhtNode → ℕ) (n : DhtNode) (ns : List DhtNode)
    → IsOrdered key ns
    → IsOrdered key (insert_by key n ns)
unfolding insert_by
insert_by-IsOrdered key n [] h = (tt, tt)
insert_by-IsOrdered key n (m ∷ ms) h = elim (Bool-cases (leb (key n) (key m))) [
  | inl e ↦
      let first : key n ≤ key m = ground (arith, e) in
      rw (e, insert_by) ((first, farther key n m ms first h.0), h)
  | inr e ↦
      let last : key m ≤ key n = ground (arith, e) in
      rw (e, insert_by)
        (insert_by-All (λ k. key m ≤ key k) key n ms last h.0, insert_by-IsOrdered key n ms h.1)
]

sort_by_key-IsOrdered : (key : DhtNode → ℕ) (ns : List DhtNode) → IsOrdered key (sort_by_key key ns)
unfolding sort_by_key
sort_by_key-IsOrdered key [] = tt
sort_by_key-IsOrdered key (n ∷ ns) =
    insert_by-IsOrdered key n (sort_by_key key ns) (sort_by_key-IsOrdered key ns)

take-IsOrdered :
    (key : DhtNode → ℕ) (n : ℕ) (ns : List DhtNode) → IsOrdered key ns → IsOrdered key (take n ns)
take-IsOrdered key zero ns h = tt
take-IsOrdered key (suc n) [] h = tt
take-IsOrdered key (suc n) (m ∷ ms) h =
    (take-All (λ k. key m ≤ key k) n ms h.0, take-IsOrdered key n ms h.1)

length-take_le : {A : Type 0} (n : ℕ) (xs : List A) → length (take n xs) ≤ n
length-take_le zero xs = omega arith
length-take_le (suc n) [] = omega arith
length-take_le (suc n) (x ∷ xs) = omega (arith, length-take_le n xs)

-- The search ends, at the latest when the loop has taken a turn for each of the 256 buckets and
-- tested its condition once more; it returns at most `count` nodes, each alive and from a bucket of
-- the table, the nearest to the target first; and they are `count` many or have among them every
-- node of the table (of any one of its 256 buckets) that is alive.
pub find_closest-returns :
    (target_id count now timeout : ℕ) (t : Dht) (i : ℕ)
    → i < k_buckets
    → (found : List DhtNode) × (find_closest target_id count now timeout t ≡ some found)
      × (length found ≤ count)
      × All
          (λ n. (is_alive now timeout n ≡ true) × ((j : ℕ) × Holds n (bucket_at j t.buckets)))
          found
      × IsOrdered (distance_key target_id) found
      × All
          (λ n. (length found ≡ count) ⊎ Holds n found)
          (retain (is_alive now timeout) (bucket_at i t.buckets))
unfolding find_closest bucket_index
find_closest-returns target_id count now timeout t i h =
    let Known : DhtNode → Type 0 =
      λ n. (is_alive now timeout n ≡ true) × ((j : ℕ) × Holds n (bucket_at j t.buckets)) in
    let start = index_from 0 (distance target_id t.our_id) in
    let low = index_from_le 0 (distance target_id t.our_id) in
    let key = distance_key target_id in
    let alive_at : ℕ → List DhtNode = λ j. retain (is_alive now timeout) (bucket_at j t.buckets) in
    let ends =
      gather-ends (k_buckets + 1) alive_at count (start + 1) (start + 1) [] (omega arith) in
    let sorted = sort_by_key key ends.0 in
    let side : (i < start + 1) ⊎ ((start + 1 ≤ i) × (i < k_buckets)) = elim (dec_lt i (start + 1)) [
      | yes lower ↦ inl lower
      | no higher ↦ inr (omega arith, h)
    ] in
    (
      take count sorted,
      rw (ends.1, find_closest) refl,
      length-take_le count sorted,
      take-All Known count sorted (
          sort_by_key-All Known key ends.0 (
            gather-All Known (k_buckets + 1) alive_at count (start + 1) (start + 1) [] ends.0
              (λ j.
                retain-All Known (is_alive now timeout) (bucket_at j t.buckets)
                  (λ n e k. (e, (j, k))))
              tt ends.1)),
      take-IsOrdered key count sorted (sort_by_key-IsOrdered key ends.0),
      Holds-All _ (alive_at i) (λ n k. nearest-Holds key count n ends.0 (
          gather-Holds (k_buckets + 1) alive_at count (start + 1) (start + 1) [] ends.0 i n ends.1
            side k)),
    )
