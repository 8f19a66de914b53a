-- ===== src/Base/Set.antt =====
-- `BTreeSet` of numbers: a strictly increasing list, which iterates in order.
use Prim.Native.Nat.{ℕ, ◌+◌, ◌≤◌, ◌<◌}
use mathlib.Core.Path.{◌≡◌, refl}
use mathlib.Core.Bool.{false, ◌||◌}
use mathlib.Core.List.{List, [], ◌∷◌}
use native.Mathlib.Omega.{arith}
use aevum_public.Base.Tests.{◌==◌, ltb, if◌then◌else◌}
use aevum_public.Base.Lists.{All, length, mem, IsDistinct, erase}

abbrev pub set_insert : ℕ → List ℕ → List ℕ
set_insert k [] = k ∷ []
set_insert k (x ∷ xs) =
    if k == x then x ∷ xs else if ltb k x then k ∷ x ∷ xs else x ∷ set_insert k xs

-- `iter().collect::<BTreeSet<_>>()`
abbrev pub set_of : List ℕ → List ℕ
set_of [] = []
set_of (x ∷ xs) = set_insert x (set_of xs)

abbrev pub IsSorted : List ℕ → Type 0
IsSorted [] = Unit {0}
IsSorted (x ∷ xs) = All (λ y. x < y) xs × IsSorted xs

pub mem-set_insert : (j k : ℕ) (xs : List ℕ) → mem j (set_insert k xs) ≡ (j == k || mem j xs)
mem-set_insert j k [] = refl
mem-set_insert j k (x ∷ xs) = ground (arith, mem-set_insert j k xs)

pub mem-set_of : (j : ℕ) (xs : List ℕ) → mem j (set_of xs) ≡ mem j xs
mem-set_of j [] = refl
mem-set_of j (x ∷ xs) = ground (arith, mem-set_of j xs, mem-set_insert j x (set_of xs))

All-set_insert :
    (low k : ℕ) (xs : List ℕ)
    → low < k
    → All (λ y. low < y) xs
    → All (λ y. low < y) (set_insert k xs)
All-set_insert low k [] b h = (b, tt)
All-set_insert low k (x ∷ xs) b h = ground (arith, All-set_insert low k xs b h.1)

All-lower :
    (low high : ℕ) (xs : List ℕ) → low < high → All (λ y. high < y) xs → All (λ y. low < y) xs
All-lower low high [] b h = tt
All-lower low high (x ∷ xs) b h = (omega (arith, h.0), All-lower low high xs b h.1)

pub set_insert-IsSorted : (k : ℕ) (xs : List ℕ) → IsSorted xs → IsSorted (set_insert k xs)
set_insert-IsSorted k [] h = (tt, tt)
set_insert-IsSorted k (x ∷ xs) h =
    ground (arith, set_insert-IsSorted k xs h.1, All-set_insert x k xs, All-lower k x xs, h)

pub set_of-IsSorted : (xs : List ℕ) → IsSorted (set_of xs)
set_of-IsSorted [] = tt
set_of-IsSorted (x ∷ xs) = set_insert-IsSorted x (set_of xs) (set_of-IsSorted xs)

mem-All-lt : (low : ℕ) (xs : List ℕ) → All (λ y. low < y) xs → mem low xs ≡ false
mem-All-lt low [] h = refl
mem-All-lt low (x ∷ xs) h = ground (arith, mem-All-lt low xs h.1)

pub IsSorted-IsDistinct : (xs : List ℕ) → IsSorted xs → IsDistinct xs
IsSorted-IsDistinct [] h = tt
IsSorted-IsDistinct (x ∷ xs) h = (mem-All-lt x xs h.0, IsSorted-IsDistinct xs h.1)

pub length-set_insert :
    (k : ℕ) (xs : List ℕ) → mem k xs ≡ false → length (set_insert k xs) ≡ length xs + 1
length-set_insert k [] h = refl
length-set_insert k (x ∷ xs) h = ground (arith, length-set_insert k xs)

All-erase : (low k : ℕ) (xs : List ℕ) → All (λ y. low < y) xs → All (λ y. low < y) (erase k xs)
All-erase low k [] h = tt
All-erase low k (x ∷ xs) h = ground (arith, All-erase low k xs h.1)

pub erase-IsSorted : (k : ℕ) (xs : List ℕ) → IsSorted xs → IsSorted (erase k xs)
erase-IsSorted k [] h = tt
erase-IsSorted k (x ∷ xs) h = ground (arith, erase-IsSorted k xs h.1, All-erase x k xs h.0)

pub length-erase : (k : ℕ) (xs : List ℕ) → length (erase k xs) ≤ length xs
length-erase k [] = omega arith
length-erase k (x ∷ xs) = ground (arith, length-erase k xs)

pub mem-erase :
    (j k : ℕ) (xs : List ℕ)
    → IsDistinct xs
    → mem j (erase k xs) ≡ (if j == k then false else mem j xs)
mem-erase j k [] h = ground arith
mem-erase j k (x ∷ xs) h = ground (arith, mem-erase j k xs h.1)
