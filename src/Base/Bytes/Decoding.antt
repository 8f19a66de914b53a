-- ===== src/Base/Bytes/Decoding.antt =====
-- Reading back the numbers and arrays that were written as bytes.
use aevum_public.Base.{
  ℕ, zero, suc, ◌+◌, ◌*◌, ◌/◌, ◌^◌, ◌<◌, ◌≡◌, refl, ap, ◌∙◌, List, [], ◌∷◌, ◌++◌, reverse, arith,
  IsWord32,
}
use mathlib.Core.List.{reverse-append}
use native.Mathlib.Nat.{pow-suc}
use aevum_public.Base.Bytes.{le_bytes, array_bytes, from_le_bytes, from_be_bytes, to_array}

pub from_le_bytes-le_bytes : (k n : ℕ) → n < 256 ^ k → from_le_bytes (le_bytes k n) ≡ n
unfolding le_bytes from_le_bytes
from_le_bytes-le_bytes zero n h = omega arith
from_le_bytes-le_bytes (suc k) n h =
    let below : n / 256 < 256 ^ k = omega (arith, pow-suc 256 k) in
    omega (arith, from_le_bytes-le_bytes k (n / 256) below)

from_be_bytes-append :
    (acc : ℕ) (xs ys : List ℕ)
    → from_be_bytes acc (xs ++ ys) ≡ from_be_bytes (from_be_bytes acc xs) ys
unfolding from_be_bytes
from_be_bytes-append acc [] ys = refl
from_be_bytes-append acc (x ∷ xs) ys = from_be_bytes-append (acc * 256 + x) xs ys

to_array-reverse : (xs : List ℕ) → to_array (reverse xs) ≡ from_le_bytes xs
unfolding to_array from_be_bytes from_le_bytes
to_array-reverse [] = refl
to_array-reverse (x ∷ xs) = omega (
  arith,
  ap to_array (reverse-append (x ∷ []) xs),
  from_be_bytes-append 0 (reverse xs) (x ∷ []),
  to_array-reverse xs,
)

pub to_array-array_bytes : (n : ℕ) → IsWord32 n → to_array (array_bytes n) ≡ n
unfolding array_bytes
to_array-array_bytes n h =
    to_array-reverse (le_bytes 32 n) ∙ from_le_bytes-le_bytes 32 n (omega arith)
