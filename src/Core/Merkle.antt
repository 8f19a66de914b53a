-- ===== src/Core/Merkle.antt =====
-- The Merkle loop that block.rs, settlement.rs and state_root.rs of crates/aevum-core/src share but
-- for the domain: hash the nodes in pairs, an odd last one with itself, until one is left.
pub mod Binding
use aevum_public.Base.{
  ℕ, zero, suc, ◌+◌, ◌≤◌, ◌<◌, ◌≡◌, refl, List, [], ◌∷◌, arith, length, Option, none, some,
}
use aevum_public.Base.Bytes.{array_bytes, updates}
use aevum_public.Crypto.{Crypto}

-- `level[0]`, or the zero hash where there was no leaf.
abbrev pub first_or_zero : List ℕ → ℕ
first_or_zero [] = 0
first_or_zero (a ∷ level) = a

module _ (c : Crypto) (domain : List ℕ) where
  unfoldable pub node : ℕ → ℕ → ℕ
  node a b = c.digest (updates (domain ∷ array_bytes a ∷ array_bytes b ∷ []))

  -- One level, `chunks(2)`.
  unfoldable pub next_level : List ℕ → List ℕ
  next_level [] = []
  next_level (a ∷ []) = node a a ∷ []
  next_level (a ∷ b ∷ level) = node a b ∷ next_level level

  -- `while level.len() > 1`, on fuel.
  unfoldable pub climb : ℕ → List ℕ → List ℕ
  climb zero level = level
  climb (suc fuel) [] = []
  climb (suc fuel) (a ∷ []) = a ∷ []
  climb (suc fuel) (a ∷ b ∷ level) = climb fuel (next_level (a ∷ b ∷ level))

  unfoldable pub merkle_root : List ℕ → ℕ
  merkle_root leaves = first_or_zero (climb (length leaves) leaves)

  length-next_level :
      (level : List ℕ) → length (next_level level) + length (next_level level) ≤ length level + 1
  unfolding next_level
  length-next_level [] = omega arith
  length-next_level (a ∷ []) = omega arith
  length-next_level (a ∷ b ∷ level) = omega (arith, length-next_level level)

  next_level-ne : (a : ℕ) (level : List ℕ) → 1 ≤ length (next_level (a ∷ level))
  unfolding next_level
  next_level-ne a [] = omega arith
  next_level-ne a (b ∷ level) = omega arith

  climb-total :
      (fuel : ℕ) (level : List ℕ)
      → length level ≤ fuel
      → 1 ≤ length level
      → (r : ℕ) × (climb fuel level ≡ r ∷ [])
  unfolding climb
  climb-total zero level h k = absurd (omega arith)
  climb-total (suc fuel) [] h k = absurd (omega arith)
  climb-total (suc fuel) (a ∷ []) h k = (a, refl)
  climb-total (suc fuel) (a ∷ b ∷ level) h k =
      climb-total fuel (next_level (a ∷ b ∷ level))
        (omega (arith, length-next_level (a ∷ b ∷ level))) (next_level-ne a (b ∷ level))

  -- With as much fuel as there are leaves, the loop ends with one node, for any leaves but none.
  pub climb-ends :
      (a : ℕ) (leaves : List ℕ)
      → climb (length (a ∷ leaves)) (a ∷ leaves) ≡ merkle_root (a ∷ leaves) ∷ []
  unfolding merkle_root
  climb-ends a leaves =
      let (r, e) = climb-total (length (a ∷ leaves)) (a ∷ leaves) (omega arith) (omega arith) in
      rw e

  -- Fuel beyond the number of nodes changes nothing.
  pub climb-fuel :
      (f g : ℕ) (level : List ℕ)
      → length level ≤ f
      → length level ≤ g
      → climb f level ≡ climb g level
  unfolding climb
  climb-fuel zero zero level hf hg = refl
  climb-fuel zero (suc g) [] hf hg = refl
  climb-fuel zero (suc g) (a ∷ level) hf hg = absurd (omega arith)
  climb-fuel (suc f) zero [] hf hg = refl
  climb-fuel (suc f) zero (a ∷ level) hf hg = absurd (omega arith)
  climb-fuel (suc f) (suc g) [] hf hg = refl
  climb-fuel (suc f) (suc g) (a ∷ []) hf hg = refl
  climb-fuel (suc f) (suc g) (a ∷ b ∷ level) hf hg =
      climb-fuel f g (next_level (a ∷ b ∷ level)) (omega (arith, length-next_level (a ∷ b ∷ level)))
        (omega (arith, length-next_level (a ∷ b ∷ level)))
