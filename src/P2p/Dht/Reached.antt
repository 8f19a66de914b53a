-- ===== src/P2p/Dht/Reached.antt =====
-- crates/aevum-p2p/src/dht.rs: the nodes that the loop of `find_closest` comes to.
use aevum_public.Base.{
  ℕ, zero, suc, ◌+◌, ◌-◌, ◌≤◌, ◌<◌, ◌≡◌, refl, sym, ap, subst, true, false, some, List, [], ◌∷◌,
  ◌++◌, ◌==◌, ltb, leb, length, take, if◌then◌else◌, arith, Bool-cases, inl, inr, ◌⊎◌, All,
}
use native.Mathlib.Decide.{dec_lt}
use aevum_public.P2p.Dht.{DhtNode, k_buckets, insert_by, sort_by_key, gather}

-- The node is one of the list.
abbrev pub Holds : DhtNode → List DhtNode → Type 0
Holds n [] = ⊥
Holds n (m ∷ ms) = (n ≡ m) ⊎ Holds n ms

-- A loop that ends does so at once, with enough nodes or no bucket left, or behind one more turn.
pub gather-cases :
    (fuel : ℕ) (alive_at : ℕ → List DhtNode) (count left right : ℕ) (closest nodes : List DhtNode)
    → gather (suc fuel) alive_at count left right closest ≡ some nodes
    → ((closest ≡ nodes) × ((count ≤ length closest) ⊎ ((left ≡ 0) × (k_buckets ≤ right))))
      ⊎ (gather fuel alive_at count (left - 1) (if ltb right k_buckets then right + 1 else right) (
            closest
            ++ ((if left == 0 then [] else alive_at (left - 1))
                ++ (if ltb right k_buckets then alive_at right else [])))
          ≡ some nodes)
unfolding gather
gather-cases fuel alive_at count left right closest nodes e =
    elim (Bool-cases (leb count (length closest))) [
      | inl full ↦ inl (ground arith, inl (ground arith))
      | inr room ↦ elim (Bool-cases (left == 0)) [
        | inl no_left ↦ elim (Bool-cases (ltb right k_buckets)) [
          | inl more ↦ inr (ground arith)
          | inr no_right ↦ inl (ground arith, inr (ground arith, ground arith))
        ]
        | inr more ↦ inr (ground arith)
      ]
    ]

Holds-left : (n : DhtNode) (xs ys : List DhtNode) → Holds n xs → Holds n (xs ++ ys)
Holds-left n [] ys h = elim h [ ]
Holds-left n (x ∷ xs) ys (inl e) = inl e
Holds-left n (x ∷ xs) ys (inr h) = inr (Holds-left n xs ys h)

Holds-right : (n : DhtNode) (xs ys : List DhtNode) → Holds n ys → Holds n (xs ++ ys)
Holds-right n [] ys h = h
Holds-right n (x ∷ xs) ys h = inr (Holds-right n xs ys h)

gather-keeps :
    (fuel : ℕ) (alive_at : ℕ → List DhtNode) (count left right : ℕ) (closest nodes : List DhtNode)
    (n : DhtNode)
    → gather fuel alive_at count left right closest ≡ some nodes
    → Holds n closest
    → Holds n nodes
unfolding gather
gather-keeps zero alive_at count left right closest nodes n e h = ground arith
gather-keeps (suc fuel) alive_at count left right closest nodes n e h =
    elim (gather-cases fuel alive_at count left right closest nodes e) [
      | inl same ↦ subst (Holds n) same.0 h
      | inr later ↦
          gather-keeps fuel alive_at count (left - 1)
            (if ltb right k_buckets then right + 1 else right) _ nodes n later
            (Holds-left n closest _ h)
    ]

-- The buckets that are still to be taken.
abbrev IsAhead : ℕ → ℕ → ℕ → Type 0
IsAhead left right i = (i < left) ⊎ ((right ≤ i) × (i < k_buckets))

-- One turn comes to the node, or its bucket is still to be taken.
turn :
    (alive_at : ℕ → List DhtNode) (left right i : ℕ) (n : DhtNode)
    → IsAhead left right i
    → Holds n (alive_at i)
    → Holds n (
        (if left == 0 then [] else alive_at (left - 1))
        ++ (if ltb right k_buckets then alive_at right else []))
      ⊎ IsAhead (left - 1) (if ltb right k_buckets then right + 1 else right) i
turn alive_at left right i n (inl low) h = elim (dec_lt i (left - 1)) [
  | yes lower ↦ inr (inl lower)
  | no last ↦
      let some_left : (left == 0) ≡ false = ground arith in
      let here : i ≡ left - 1 = omega arith in
      rw some_left
        (inl (Holds-left n (alive_at (left - 1)) _ (subst (λ k. Holds n (alive_at k)) here h)))
]
turn alive_at left right i n (inr high) h = elim (dec_lt right i) [
  | yes higher ↦
      let some_right : ltb right k_buckets ≡ true = ground arith in
      rw some_right (inr (inr (omega arith, high.1)))
  | no last ↦
      let some_right : ltb right k_buckets ≡ true = ground arith in
      let here : i ≡ right = omega arith in
      rw some_right
        (inl (Holds-right n _ (alive_at right) (subst (λ k. Holds n (alive_at k)) here h)))
]

-- The loop ends with enough nodes, or with all nodes of the buckets that it had to take.
pub gather-Holds :
    (fuel : ℕ) (alive_at : ℕ → List DhtNode) (count left right : ℕ) (closest nodes : List DhtNode)
    (i : ℕ) (n : DhtNode)
    → gather fuel alive_at count left right closest ≡ some nodes
    → IsAhead left right i
    → Holds n (alive_at i)
    → (count ≤ length nodes) ⊎ Holds n nodes
unfolding gather
gather-Holds zero alive_at count left right closest nodes i n e ahead h = ground arith
gather-Holds (suc fuel) alive_at count left right closest nodes i n e ahead h =
    elim (gather-cases fuel alive_at count left right closest nodes e) [
      | inl (same, inl full) ↦ inl (omega (arith, ap length same))
      | inl (same, inr over) ↦ elim ahead [
        | inl low ↦ absurd (omega arith)
        | inr high ↦ absurd (omega arith)
      ]
      | inr later ↦ elim (turn alive_at left right i n ahead h) [
        | inl taken ↦
            inr
              (gather-keeps fuel alive_at count _ _ _ nodes n later (Holds-right n closest _ taken))
        | inr ahead' ↦ gather-Holds fuel alive_at count _ _ _ nodes i n later ahead' h
      ]
    ]

Holds-insert_by :
    (key : DhtNode → ℕ) (n m : DhtNode) (ms : List DhtNode)
    → (n ≡ m) ⊎ Holds n ms
    → Holds n (insert_by key m ms)
unfolding insert_by
Holds-insert_by key n m [] h = h
Holds-insert_by key n m (k ∷ ms) h = elim (Bool-cases (leb (key m) (key k))) [
  | inl e ↦ rw (e, insert_by) h
  | inr e ↦
      rw (e, insert_by)
        (elim h [
          | inl this ↦ inr (Holds-insert_by key n m ms (inl this))
          | inr (inl next) ↦ inl next
          | inr (inr rest) ↦ inr (Holds-insert_by key n m ms (inr rest))
        ])
]

Holds-sort_by_key :
    (key : DhtNode → ℕ) (n : DhtNode) (ms : List DhtNode)
    → Holds n ms
    → Holds n (sort_by_key key ms)
unfolding sort_by_key
Holds-sort_by_key key n [] h = elim h [ ]
Holds-sort_by_key key n (m ∷ ms) (inl e) = Holds-insert_by key n m (sort_by_key key ms) (inl e)
Holds-sort_by_key key n (m ∷ ms) (inr h) =
    Holds-insert_by key n m (sort_by_key key ms) (inr (Holds-sort_by_key key n ms h))

length-insert_by :
    (key : DhtNode → ℕ) (n : DhtNode) (ms : List DhtNode)
    → length (insert_by key n ms) ≡ suc (length ms)
unfolding insert_by
length-insert_by key n [] = refl
length-insert_by key n (m ∷ ms) = ground (arith, length-insert_by key n ms)

length-sort_by_key :
    (key : DhtNode → ℕ) (ms : List DhtNode) → length (sort_by_key key ms) ≡ length ms
unfolding sort_by_key
length-sort_by_key key [] = refl
length-sort_by_key key (m ∷ ms) =
    omega (arith, length-insert_by key m (sort_by_key key ms), length-sort_by_key key ms)

length-take : (count : ℕ) (ms : List DhtNode) → count ≤ length ms → length (take count ms) ≡ count
length-take zero ms h = refl
length-take (suc count) [] h = absurd (omega arith)
length-take (suc count) (m ∷ ms) h = ap suc (length-take count ms (omega arith))

take-whole : (count : ℕ) (ms : List DhtNode) → length ms ≤ count → take count ms ≡ ms
take-whole zero [] h = refl
take-whole zero (m ∷ ms) h = absurd (omega arith)
take-whole (suc count) [] h = refl
take-whole (suc count) (m ∷ ms) h = ap (◌∷◌ m) (take-whole count ms (omega arith))

-- The first nodes in order of their keys are as many as asked for, or the node is one of them.
pub nearest-Holds :
    (key : DhtNode → ℕ) (count : ℕ) (n : DhtNode) (ms : List DhtNode)
    → (count ≤ length ms) ⊎ Holds n ms
    → (length (take count (sort_by_key key ms)) ≡ count) ⊎ Holds n (take count (sort_by_key key ms))
nearest-Holds key count n ms h = elim (dec_lt (length ms) count) [
  | no enough ↦
      inl (length-take count (sort_by_key key ms) (omega (arith, length-sort_by_key key ms)))
  | yes few ↦ elim h [
    | inl enough ↦ absurd (omega arith)
    | inr one ↦
        let whole =
          take-whole count (sort_by_key key ms) (omega (arith, length-sort_by_key key ms)) in
        inr (subst (Holds n) (sym whole) (Holds-sort_by_key key n ms one))
  ]
]

-- What holds of each node of a list.
pub Holds-All :
    (P : DhtNode → Type 0) (b : List DhtNode) → ((n : DhtNode) → Holds n b → P n) → All P b
Holds-All P [] h = tt
Holds-All P (n ∷ b) h = (h n (inl refl), Holds-All P b (λ m k. h m (inr k)))
