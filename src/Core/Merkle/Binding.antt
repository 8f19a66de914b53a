-- ===== src/Core/Merkle/Binding.antt =====
-- What a Merkle root commits to, and what it leaves open.
use aevum_public.Base.{
  ℕ, zero, suc, ◌≡◌, refl, ap, ap₂, sym, subst, ◌∙◌, ◌⊎◌, inl, inr, List, [], ◌∷◌, ◌++◌, arith,
  length, All, IsWord32, length-append,
}
use aevum_public.Base.Bytes.{append_inj, array_field, array_bytes, updates}
use aevum_public.Crypto.{
  Crypto, Clash, Clashes, here, there, Clashes-left, Clashes-right, digest_binds,
}
use aevum_public.Core.Merkle.{
  node, next_level, climb, merkle_root, first_or_zero, climb-fuel, climb-ends, length-next_level,
}

-- Pairs of leaves, as one list.
abbrev pub pairs : List (ℕ × ℕ) → List ℕ
pairs [] = []
pairs ((a, b) ∷ ps) = a ∷ b ∷ pairs ps

module _ (c : Crypto) (domain : List ℕ) where
  -- The bytes that are hashed for one node, for one level of nodes, and for all levels up to the
  -- root, in order.
  abbrev node_input : ℕ → ℕ → List ℕ
  node_input a b = updates (domain ∷ array_bytes a ∷ array_bytes b ∷ [])

  abbrev level_inputs : List ℕ → List (List ℕ)
  level_inputs [] = []
  level_inputs (a ∷ []) = node_input a a ∷ []
  level_inputs (a ∷ b ∷ level) = node_input a b ∷ level_inputs level

  abbrev climb_inputs : ℕ → List ℕ → List (List ℕ)
  climb_inputs zero level = []
  climb_inputs (suc fuel) [] = []
  climb_inputs (suc fuel) (a ∷ []) = []
  climb_inputs (suc fuel) (a ∷ b ∷ level) =
      level_inputs (a ∷ b ∷ level) ++ climb_inputs fuel (next_level c domain (a ∷ b ∷ level))

  abbrev pub tree_inputs : List ℕ → List (List ℕ)
  tree_inputs leaves = climb_inputs (length leaves) leaves

  node-binds :
      (a b x y : ℕ)
      → IsWord32 a
      → IsWord32 b
      → IsWord32 x
      → IsWord32 y
      → node c domain a b ≡ node c domain x y
      → ((a ≡ x) × (b ≡ y)) ⊎ Clash c (node_input a b) (node_input x y)
  unfolding node
  node-binds a b x y ha hb hx hy h = elim (digest_binds c _ _ h) [
    | inl same ↦
        let t0 = (append_inj domain domain refl same).1 in
        let (e1, t1) = array_field a x ha hx t0 in
        let (e2, t2) = array_field b y hb hy t1 in inl (e1, e2)
    | inr clash ↦ inr clash
  ]

  next_level-IsWord32 : (level : List ℕ) → All IsWord32 (next_level c domain level)
  unfolding next_level node
  next_level-IsWord32 [] = tt
  next_level-IsWord32 (a ∷ []) = (c.digest-IsWord32 _, tt)
  next_level-IsWord32 (a ∷ b ∷ level) = (c.digest-IsWord32 _, next_level-IsWord32 level)

  next_level-binds :
      (xs ys : List ℕ)
      → length xs ≡ length ys
      → All IsWord32 xs
      → All IsWord32 ys
      → next_level c domain xs ≡ next_level c domain ys
      → (xs ≡ ys) ⊎ Clashes c (level_inputs xs) (level_inputs ys)
  unfolding next_level
  next_level-binds [] [] n hx hy e = inl refl
  next_level-binds (a ∷ []) (x ∷ []) n hx hy e =
      elim (node-binds a a x x hx.0 hx.0 hy.0 hy.0 (cc)) [
        | inl (p, q) ↦ inl (ap (λ v. v ∷ []) p)
        | inr clash ↦ inr (here clash)
      ]
  next_level-binds (a ∷ b ∷ xs) (x ∷ y ∷ ys) n hx hy e =
      elim (node-binds a b x y hx.0 hx.1.0 hy.0 hy.1.0 (cc)) [
        | inl (p, q) ↦ elim (next_level-binds xs ys (omega arith) hx.1.1 hy.1.1 (cc)) [
          | inl r ↦ inl (ap₂ ◌∷◌ p (ap₂ ◌∷◌ q r))
          | inr clash ↦ inr (there clash)
        ]
        | inr clash ↦ inr (here clash)
      ]
  next_level-binds _ _ n hx hy e = absurd (omega arith)

  length-next_level-eq :
      (xs ys : List ℕ)
      → length xs ≡ length ys
      → length (next_level c domain xs) ≡ length (next_level c domain ys)
  unfolding next_level
  length-next_level-eq [] [] n = refl
  length-next_level-eq (a ∷ []) (x ∷ []) n = refl
  length-next_level-eq (a ∷ b ∷ xs) (x ∷ y ∷ ys) n =
      ap suc (length-next_level-eq xs ys (omega arith))
  length-next_level-eq _ _ n = absurd (omega arith)

  length-level_inputs :
      (xs ys : List ℕ) → length xs ≡ length ys → length (level_inputs xs) ≡ length (level_inputs ys)
  length-level_inputs [] [] n = refl
  length-level_inputs (a ∷ []) (x ∷ []) n = refl
  length-level_inputs (a ∷ b ∷ xs) (x ∷ y ∷ ys) n = ap suc (length-level_inputs xs ys (omega arith))
  length-level_inputs _ _ n = absurd (omega arith)

  climb-binds :
      (fuel : ℕ) (xs ys : List ℕ)
      → length xs ≡ length ys
      → All IsWord32 xs
      → All IsWord32 ys
      → climb c domain fuel xs ≡ climb c domain fuel ys
      → (xs ≡ ys) ⊎ Clashes c (climb_inputs fuel xs) (climb_inputs fuel ys)
  unfolding climb
  climb-binds zero xs ys n hx hy e = inl e
  climb-binds (suc fuel) [] [] n hx hy e = inl refl
  climb-binds (suc fuel) (a ∷ []) (x ∷ []) n hx hy e = inl e
  climb-binds (suc fuel) (a ∷ b ∷ xs) (x ∷ y ∷ ys) n hx hy e =
      let lower = level_inputs (a ∷ b ∷ xs) in
      let lower' = level_inputs (x ∷ y ∷ ys) in
      elim (climb-binds fuel (next_level c domain (a ∷ b ∷ xs)) (next_level c domain (x ∷ y ∷ ys))
        (length-next_level-eq (a ∷ b ∷ xs) (x ∷ y ∷ ys) n) (next_level-IsWord32 _)
        (next_level-IsWord32 _) e) [
          | inr above ↦
              inr
                (Clashes-right lower lower' (length-level_inputs (a ∷ b ∷ xs) (x ∷ y ∷ ys) n) above)
          | inl same ↦ elim (next_level-binds (a ∷ b ∷ xs) (x ∷ y ∷ ys) n hx hy same) [
            | inl r ↦ inl r
            | inr clash ↦ inr (Clashes-left _ _ clash)
          ]
        ]
  climb-binds (suc fuel) _ _ n hx hy e = absurd (omega arith)

  -- Two equally long lists of hashes with one root are equal, or at one place of the two trees the
  -- bytes that are hashed for the nodes differ and have one digest.
  pub merkle_root-binds :
      (xs ys : List ℕ)
      → length xs ≡ length ys
      → All IsWord32 xs
      → All IsWord32 ys
      → merkle_root c domain xs ≡ merkle_root c domain ys
      → (xs ≡ ys) ⊎ Clashes c (tree_inputs xs) (tree_inputs ys)
  merkle_root-binds [] [] n hx hy e = inl refl
  merkle_root-binds (a ∷ xs) (x ∷ ys) n hx hy e =
      subst
        (λ fuel.
          ((a ∷ xs) ≡ (x ∷ ys))
          ⊎ Clashes c (climb_inputs (length (a ∷ xs)) (a ∷ xs)) (climb_inputs fuel (x ∷ ys)))
        n
        (climb-binds (length (a ∷ xs)) (a ∷ xs) (x ∷ ys) n hx hy (
          climb-ends c domain a xs
          ∙ ap (λ r. r ∷ []) e
          ∙ sym (climb-ends c domain x ys)
          ∙ climb-fuel c domain (length (x ∷ ys)) (length (a ∷ xs)) (x ∷ ys) (omega arith)
              (omega arith)))
  merkle_root-binds _ _ n hx hy e = absurd (omega arith)

  next_level-repeat :
      (ps : List (ℕ × ℕ)) (x : ℕ)
      → next_level c domain (pairs ps ++ x ∷ x ∷ []) ≡ next_level c domain (pairs ps ++ x ∷ [])
  unfolding next_level
  next_level-repeat [] x = refl
  next_level-repeat ((a, b) ∷ ps) x = ap (◌∷◌ (node c domain a b)) (next_level-repeat ps x)

  -- Behind one or more pairs of leaves, a single last leaf and the same leaf twice give one root.
  pub merkle_root-repeat :
      (p : ℕ × ℕ) (ps : List (ℕ × ℕ)) (x : ℕ)
      → merkle_root c domain (pairs (p ∷ ps) ++ x ∷ x ∷ [])
        ≡ merkle_root c domain (pairs (p ∷ ps) ++ x ∷ [])
  unfolding merkle_root climb
  merkle_root-repeat (a, b) ps x =
      let once = pairs ps ++ x ∷ [] in
      let twice = pairs ps ++ x ∷ x ∷ [] in
      let half = length-next_level c domain (a ∷ b ∷ once) in
      let n1 = length-append (pairs ps) (x ∷ []) in
      let n2 = length-append (pairs ps) (x ∷ x ∷ []) in
      ap first_or_zero (
        ap (climb c domain (length (b ∷ twice))) (next_level-repeat ((a, b) ∷ ps) x)
        ∙ climb-fuel c domain (length (b ∷ twice)) (length (b ∷ once))
            (next_level c domain (a ∷ b ∷ once)) (omega (arith, half, n1, n2))
            (omega (arith, half, n1)))
