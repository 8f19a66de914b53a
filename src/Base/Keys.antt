-- ===== src/Base/Keys.antt =====
-- The keys of a map, under insertion and removal.
use aevum_public.Base.Tests.{◌==◌, if◌then◌else◌}
use aevum_public.Base.Lists.{mem, length, IsDistinct}
use Prim.Native.Nat.{ℕ, ◌+◌, ◌≤◌}
use mathlib.Core.Path.{◌≡◌, refl}
use mathlib.Core.Bool.{false, ◌||◌}
use mathlib.Core.List.{[], ◌∷◌}
use native.Mathlib.Omega.{arith}
use aevum_public.Base.Map.{Map, insert, remove, contains_key, keys, lookup-insert, lookup-remove}

module _ {V : Type 0} where
  pub mem-keys : (k : ℕ) (m : Map V) → mem k (keys m) ≡ contains_key k m
  mem-keys k [] = refl
  mem-keys k ((j, v) ∷ m) = ground (arith, mem-keys k m)

  pub mem-keys-insert :
      (j k : ℕ) (v : V) (m : Map V) → mem j (keys (insert k v m)) ≡ (j == k || mem j (keys m))
  mem-keys-insert j k v [] = refl
  mem-keys-insert j k v ((i, w) ∷ m) = ground (arith, mem-keys-insert j k v m)

  pub mem-keys-remove :
      (j k : ℕ) (m : Map V) → mem j (keys m) ≡ false → mem j (keys (remove k m)) ≡ false
  mem-keys-remove j k [] h = refl
  mem-keys-remove j k ((i, w) ∷ m) h = ground (arith, mem-keys-remove j k m)

  pub insert-IsDistinct :
      (k : ℕ) (v : V) (m : Map V) → IsDistinct (keys m) → IsDistinct (keys (insert k v m))
  insert-IsDistinct k v [] h = (refl, tt)
  insert-IsDistinct k v ((j, w) ∷ m) h =
      ground (arith, insert-IsDistinct k v m h.1, mem-keys-insert j k v m)

  pub remove-IsDistinct : (k : ℕ) (m : Map V) → IsDistinct (keys m) → IsDistinct (keys (remove k m))
  remove-IsDistinct k [] h = tt
  remove-IsDistinct k ((j, w) ∷ m) h =
      ground (arith, remove-IsDistinct k m h.1, mem-keys-remove j k m h.0)

  pub length-insert : (k : ℕ) (v : V) (m : Map V) → length (insert k v m) ≤ length m + 1
  length-insert k v [] = omega arith
  length-insert k v ((j, w) ∷ m) = ground (arith, length-insert k v m)

  pub length-remove : (k : ℕ) (m : Map V) → length (remove k m) ≤ length m
  length-remove k [] = omega arith
  length-remove k ((j, w) ∷ m) = ground (arith, length-remove k m)

  pub contains_key-insert :
      (j k : ℕ) (v : V) (m : Map V) → contains_key j (insert k v m) ≡ (j == k || contains_key j m)
  contains_key-insert j k v m = ground (arith, lookup-insert j k v m)

  pub contains_key-remove :
      (j k : ℕ) (m : Map V)
      → contains_key j (remove k m) ≡ (if j == k then false else contains_key j m)
  contains_key-remove j k m = ground (arith, lookup-remove j k m)
