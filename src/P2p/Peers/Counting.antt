-- ===== src/P2p/Peers/Counting.antt =====
-- crates/aevum-p2p/src/peers.rs: sums over the registered peers, and the counts for each address.
use aevum_public.Base.{
  ℕ, ◌+◌, ◌-◌, ◌^◌, ◌≤◌, ◌<◌, ◌≡◌, refl, false, Option, none, some, [], ◌∷◌, ◌==◌, sum_by, mem,
  IsDistinct, if◌then◌else◌, wrapping_add, arith, Option-cases, inl, inr,
}
use aevum_public.Base.Map.{
  Map, lookup, insert, remove, keys, value_or, lookup-insert, lookup-remove,
}
use aevum_public.P2p.Peers.{decrement_ip, increment_ip}

module _ {V : Type 0} where
  abbrev pub total : (V → ℕ) → Map V → ℕ
  total f = sum_by (λ e. f e.1)

  -- What an entry counts for, if there is one.
  abbrev pub part : (V → ℕ) → Option V → ℕ
  part f none = 0
  part f (some v) = f v

  pub total-insert :
      (f : V → ℕ) (k : ℕ) (v : V) (m : Map V)
      → total f (insert k v m) + part f (lookup k m) ≡ total f m + f v
  total-insert f k v [] = omega arith
  total-insert f k v ((j, w) ∷ m) = ground (arith, total-insert f k v m)

  remove-absent : (k : ℕ) (m : Map V) → mem k (keys m) ≡ false → remove k m ≡ m
  remove-absent k [] h = refl
  remove-absent k ((j, w) ∷ m) h = ground (arith, remove-absent k m)

  pub total-remove :
      (f : V → ℕ) (k : ℕ) (m : Map V)
      → IsDistinct (keys m)
      → total f (remove k m) + part f (lookup k m) ≡ total f m
  total-remove f k [] h = omega arith
  total-remove f k ((j, w) ∷ m) h = ground (arith, total-remove f k m h.1, remove-absent k m, h.0)

  pub total-le : (f g : V → ℕ) (m : Map V) → ((v : V) → f v ≤ g v) → total f m ≤ total g m
  total-le f g [] h = omega arith
  total-le f g ((j, w) ∷ m) h = omega (arith, h w, total-le f g m h)

  pub part-le_total : (f : V → ℕ) (k : ℕ) (m : Map V) → part f (lookup k m) ≤ total f m
  part-le_total f k [] = omega arith
  part-le_total f k ((j, w) ∷ m) = ground (arith, part-le_total f k m)

abbrev pub count_at : ℕ → Map ℕ → ℕ
count_at a m = value_or (lookup a m) 0

pub count_at-decrement_ip :
    (a b : ℕ) (m : Map ℕ) → count_at a (decrement_ip b m) ≡ count_at a m - (if a == b then 1 else 0)
unfolding decrement_ip
count_at-decrement_ip a b m = elim (Option-cases (lookup b m)) [
  | inl e ↦ rw (e, decrement_ip) (ground (arith, e))
  | inr k ↦
      let m' = insert b (k.0 - 1) m in
      rw (k.1, decrement_ip)
        (ground (arith, k.1, lookup-insert a b (k.0 - 1) m, lookup-remove a b m'))
]

pub count_at-increment_ip :
    (a b : ℕ) (m : Map ℕ)
    → count_at b m + 1 < 2 ^ 64
    → count_at a (increment_ip b m) ≡ count_at a m + (if a == b then 1 else 0)
unfolding increment_ip
count_at-increment_ip a b m h = ground (arith, lookup-insert a b (wrapping_add (count_at b m) 1) m)
