-- ===== src/Core/DnaRange/Splitting.antt =====
-- Splits of a range, and chains of splits of a list of ranges.
use Prim.Native.String.{String}
use aevum_public.Base.{
  ℕ, zero, suc, ◌+◌, ◌-◌, ◌≤◌, ◌<◌, ◌≡◌, refl, ◌∙◌, ◌⊎◌, inl, inr, true, false, ◌&&◌, ◌||◌, List,
  [], ◌∷◌, arith, ltb, leb, ==_refl, if◌then◌else◌, Bool-cases, All, sum_by, Result, ok, err,
  u64_max,
}
use aevum_public.Crypto.{Crypto}
use aevum_public.Core.DnaRange.{
  DnaRange, amount, contains, verify_split, verify_lineage, id, hash, id_bytes, proof_bytes,
  seal_range, child, split, verify_range,
}

-- A range of `u64`s that is not empty and does not hold all of them.
abbrev pub IsRange : DnaRange → Type 0
IsRange r = (r.start ≤ r.end) × (r.end < u64_max)

-- The two halves of a range: both verify and descend from it, each satoshi of the range is in exactly
-- one of them, and they hold no other.
pub record IsTiling (c : Crypto) (r a b : DnaRange) : Type 0 where
  pub left_verifies : verify_range c a ≡ true
  pub right_verifies : verify_range c b ≡ true
  pub left_descends : verify_lineage r a ≡ true
  pub right_descends : verify_lineage r b ≡ true
  pub covered : (s : ℕ) → contains r s ≡ (contains a s || contains b s)
  pub disjoint : (s : ℕ) → (contains a s && contains b s) ≡ false
  pub conserved : amount r ≡ amount a + amount b
  pub left_ranged : IsRange a
  pub right_ranged : IsRange b

abbrev pub IsOutside : DnaRange → ℕ → Type 0
IsOutside r point = (point ≤ r.start) ⊎ (r.end < point)

module _ (c : Crypto) where
  verify_range-child :
      (r : DnaRange) (start end owner tx block : ℕ)
      → start ≤ end
      → verify_range c (child c r start end owner tx block) ≡ true
  unfolding verify_range child seal_range id hash id_bytes proof_bytes
  verify_range-child r start end owner tx block h =
      let e : leb start end ≡ true = ground arith in simp (==_refl, e)

  split_accepts :
      (r : DnaRange) (point left right tx block : ℕ)
      → IsRange r
      → r.start < point
      → point ≤ r.end
      → split c r point left right tx block
        ≡ ok (child c r r.start (point - 1) left tx block, child c r point r.end right tx block)
  unfolding split
  split_accepts r point left right tx block h low high =
      let early : (leb point r.start || ltb r.end point) ≡ false = ground arith in
      let tiled : verify_split r (child c r r.start (point - 1) left tx block)
            (child c r point r.end right tx block)
          ≡ true =
        unfold verify_split child seal_range amount in ground arith in
      rw (early, split) (rw tiled refl)

  child-IsTiling :
      (r : DnaRange) (point left right tx block : ℕ)
      → IsRange r
      → r.start < point
      → point ≤ r.end
      → IsTiling c r
          (child c r r.start (point - 1) left tx block)
          (child c r point r.end right tx block)
  child-IsTiling r point left right tx block h low high = record {
    left_verifies = verify_range-child r r.start (point - 1) left tx block (omega arith);
    right_verifies = verify_range-child r point r.end right tx block (omega arith);
    left_descends =
        unfold verify_lineage child seal_range in
        ground (arith, ==_refl r.range_id, ==_refl r.root_id);
    right_descends =
        unfold verify_lineage child seal_range in
        ground (arith, ==_refl r.range_id, ==_refl r.root_id);
    covered = λ s. unfold contains child seal_range in ground arith;
    disjoint = λ s. unfold contains child seal_range in ground arith;
    conserved = unfold amount child seal_range in omega arith;
    left_ranged = unfold child seal_range in (omega arith, omega arith);
    right_ranged = unfold child seal_range in (omega arith, omega arith);
  }

  -- A range that is not empty and ends below the greatest `u64` splits into two halves at every
  -- point behind its start and up to its end, and is refused at every other point. The halves
  -- verify and descend from the range, each satoshi of the range is in exactly one of them, they
  -- hold no other, and their amounts add up to that of the range.
  pub split-IsTiling :
      (r : DnaRange) (point left right tx block : ℕ)
      → IsRange r
      → ((¬ IsOutside r point)
          × ((a : DnaRange) × (b : DnaRange) × (split c r point left right tx block ≡ ok (a, b))
              × IsTiling c r a b))
        ⊎ (IsOutside r point × (split c r point left right tx block ≡ err "invalid split"))
  split-IsTiling r point left right tx block h =
      elim (Bool-cases (leb point r.start || ltb r.end point)) [
        | inl out ↦ inr (ground arith, unfold split in ground arith)
        | inr inside ↦
            let low : r.start < point = ground arith in
            let high : point ≤ r.end = ground arith in
            inl (
              λ out. ground arith,
              (
                child c r r.start (point - 1) left tx block,
                child c r point r.end right tx block,
                split_accepts r point left right tx block h low high,
                child-IsTiling r point left right tx block h low high,
              ),
            )
      ]

-- A split of the range at an index of a list.
pub record Cut : Type 0 where
  pub index : ℕ
  pub point : ℕ
  pub left : ℕ
  pub right : ℕ
  pub tx : ℕ
  pub block : ℕ

-- The list after a split of its first range, which stays where the split is refused.
abbrev put_halves : Result String (DnaRange × DnaRange) → DnaRange → List DnaRange → List DnaRange
put_halves (ok (a, b)) r rs = a ∷ b ∷ rs
put_halves (err e) r rs = r ∷ rs

unfoldable pub cut_at : Crypto → ℕ → Cut → List DnaRange → List DnaRange
cut_at c k x [] = []
cut_at c zero x (r ∷ rs) = put_halves (split c r x.point x.left x.right x.tx x.block) r rs
cut_at c (suc k) x (r ∷ rs) = r ∷ cut_at c k x rs

unfoldable pub cut_all : Crypto → List Cut → List DnaRange → List DnaRange
cut_all c [] rs = rs
cut_all c (x ∷ xs) rs = cut_all c xs (cut_at c x.index x rs)

-- How many ranges of a list hold a satoshi, and how many satoshis they hold.
abbrev pub holders : ℕ → List DnaRange → ℕ
holders s = sum_by (λ r. if contains r s then 1 else 0)

abbrev pub total : List DnaRange → ℕ
total = sum_by amount

-- The same satoshis are held, each by as many ranges, and the ranges are still proper.
record SameHoldings (before after : List DnaRange) : Type 0 where
  held : (s : ℕ) → holders s after ≡ holders s before
  amounts : total after ≡ total before
  ranged : All IsRange after

module _ (c : Crypto) where
  cut_at-SameHoldings :
      (k : ℕ) (x : Cut) (rs : List DnaRange) → All IsRange rs → SameHoldings rs (cut_at c k x rs)
  unfolding cut_at
  cut_at-SameHoldings k x [] h = record { held = λ s. refl; amounts = refl; ranged = tt }
  cut_at-SameHoldings zero x (r ∷ rs) h =
      elim (split-IsTiling c r x.point x.left x.right x.tx x.block h.0) [
        | inl (_, (a, b, e, t)) ↦ simp e (record {
          held = λ s. ground (arith, t.covered s, t.disjoint s);
          amounts = omega (arith, t.conserved);
          ranged = (t.left_ranged, (t.right_ranged, h.1));
        })
        | inr (_, e) ↦ simp e (record { held = λ s. refl; amounts = refl; ranged = h })
      ]
  cut_at-SameHoldings (suc k) x (r ∷ rs) h =
      let rest = cut_at-SameHoldings k x rs h.1 in
      record {
        held = λ s. omega (arith, rest.held s);
        amounts = omega (arith, rest.amounts);
        ranged = (h.0, rest.ranged);
      }

  -- No sequence of splits, accepted or refused, of ranges that are not empty and end below the
  -- greatest `u64` changes how many ranges hold a satoshi, or how many satoshis they hold together.
  pub cut_all-conserves :
      (xs : List Cut) (rs : List DnaRange)
      → All IsRange rs
      → ((s : ℕ) → holders s (cut_all c xs rs) ≡ holders s rs)
        × (total (cut_all c xs rs) ≡ total rs)
  unfolding cut_all
  cut_all-conserves [] rs h = (λ s. refl, refl)
  cut_all-conserves (x ∷ xs) rs h =
      let now = cut_at-SameHoldings x.index x rs h in
      let (held, amounts) = cut_all-conserves xs (cut_at c x.index x rs) now.ranged in
      (λ s. held s ∙ now.held s, amounts ∙ now.amounts)
