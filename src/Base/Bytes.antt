-- ===== src/Base/Bytes.antt =====
-- Bytes: the encodings that are hashed and sent, and that a concatenation of fields determines them.
pub mod Decoding
use Prim.Native.Char.{code}
use Prim.Native.String.{String}
use Prim.Native.Nat.{◌+◌, ◌*◌, ℕ, zero, suc, ◌/◌, ◌%◌, ◌^◌, ◌<◌}
use mathlib.Core.Path.{◌≡◌, refl, sym, ap, ap₂, ◌∙◌}
use mathlib.Core.List.{
  List, [], ◌∷◌, ◌++◌, map, reverse, reverse-reverse, reverse-append, append_assoc,
}
use mathlib.Core.Bool.{Bool, true, false, ◌&&◌}
use aevum_public.Base.Tests.{◌==◌}
use native.Mathlib.Omega.{arith}
use native.Mathlib.Nat.{pow-suc}
use aevum_public.Base.Lists.{length, length-append, All}
use aevum_public.Base.Words.{IsU64, IsU32, IsWord32}

-- The bytes of a literal `b"..."`.
abbrev pub codes : String → List ℕ
codes String.[] = []
codes (String.◌∷◌ c s) = code c ∷ codes s

-- `n.to_le_bytes()` at a width of `k` bytes.
unfoldable pub le_bytes : ℕ → ℕ → List ℕ
le_bytes zero n = []
le_bytes (suc k) n = (n % 256) ∷ le_bytes k (n / 256)

-- `Hash::as_bytes`: the array that the number stands for, its top byte first.
unfoldable pub array_bytes : ℕ → List ℕ
array_bytes n = reverse (le_bytes 32 n)

pub length-le_bytes : (k n : ℕ) → length (le_bytes k n) ≡ k
unfolding le_bytes
length-le_bytes zero n = refl
length-le_bytes (suc k) n = ap suc (length-le_bytes k (n / 256))

length-reverse {ℓ} : {A : Type ℓ} (xs : List A) → length (reverse xs) ≡ length xs
length-reverse [] = refl
length-reverse (x ∷ xs) = omega (
  arith,
  ap length (reverse-append (x ∷ []) xs),
  length-append (reverse xs) (x ∷ []),
  length-reverse xs,
)

pub length-array_bytes : (n : ℕ) → length (array_bytes n) ≡ 32
unfolding array_bytes
length-array_bytes n = length-reverse (le_bytes 32 n) ∙ length-le_bytes 32 n

-- Two concatenations with first parts of one length agree part by part.
pub append_inj {ℓ} :
    {A : Type ℓ} (a b : List A) {x y : List A}
    → length a ≡ length b
    → a ++ x ≡ b ++ y
    → (a ≡ b) × (x ≡ y)
append_inj [] [] h e = (refl, e)
append_inj [] (v ∷ b) h e = absurd (omega arith)
append_inj (u ∷ a) [] h e = absurd (omega arith)
append_inj (u ∷ a) (v ∷ b) {x} {y} h e =
    let first : u ≡ v = cc in
    let later : a ++ x ≡ b ++ y = cc in
    let r = append_inj a b {x = x} {y = y} (omega arith) later in (ap₂ ◌∷◌ first r.0, r.1)

pub le_bytes_inj : (k a b : ℕ) → a < 256 ^ k → b < 256 ^ k → le_bytes k a ≡ le_bytes k b → a ≡ b
unfolding le_bytes
le_bytes_inj zero a b ha hb e = omega arith
le_bytes_inj (suc k) a b ha hb e =
    let low : a % 256 ≡ b % 256 = cc in
    let high = le_bytes_inj k (a / 256) (b / 256) (below a ha) (below b hb) (cc) in
    omega (arith, low, high)
  where
    below : (n : ℕ) → n < 256 ^ suc k → n / 256 < 256 ^ k
    below n h = omega (arith, pow-suc 256 k)

pub array_bytes_inj : (a b : ℕ) → IsWord32 a → IsWord32 b → array_bytes a ≡ array_bytes b → a ≡ b
unfolding array_bytes
array_bytes_inj a b ha hb e =
    le_bytes_inj 32 a b ha hb
      (sym (reverse-reverse (le_bytes 32 a)) ∙ ap reverse e ∙ reverse-reverse (le_bytes 32 b))

-- One field in front of the rest: equal encodings have the field and the rest in common.
pub le_field :
    (k a b : ℕ) {x y : List ℕ}
    → a < 256 ^ k
    → b < 256 ^ k
    → le_bytes k a ++ x ≡ le_bytes k b ++ y
    → (a ≡ b) × (x ≡ y)
le_field k a b ha hb e =
    let r =
      append_inj (le_bytes k a) (le_bytes k b) (length-le_bytes k a ∙ sym (length-le_bytes k b))
        e in
    (le_bytes_inj k a b ha hb r.0, r.1)

pub u64_field :
    (a b : ℕ) {x y : List ℕ}
    → IsU64 a
    → IsU64 b
    → le_bytes 8 a ++ x ≡ le_bytes 8 b ++ y
    → (a ≡ b) × (x ≡ y)
u64_field a b ha hb e = le_field 8 a b (omega arith) (omega arith) e

pub u32_field :
    (a b : ℕ) {x y : List ℕ}
    → IsU32 a
    → IsU32 b
    → le_bytes 4 a ++ x ≡ le_bytes 4 b ++ y
    → (a ≡ b) × (x ≡ y)
u32_field a b ha hb e = le_field 4 a b (omega arith) (omega arith) e

pub array_field :
    (a b : ℕ) {x y : List ℕ}
    → IsWord32 a
    → IsWord32 b
    → array_bytes a ++ x ≡ array_bytes b ++ y
    → (a ≡ b) × (x ≡ y)
array_field a b ha hb e =
    let r =
      append_inj (array_bytes a) (array_bytes b) (length-array_bytes a ∙ sym (length-array_bytes b))
        e in
    (array_bytes_inj a b ha hb r.0, r.1)

-- What a hasher has been fed: each `update` appends its bytes.
abbrev pub updates : List (List ℕ) → List ℕ
updates [] = []
updates (chunk ∷ chunks) = chunk ++ updates chunks

-- `u64::from_le_bytes` on a slice, and the array that a slice of 32 bytes is.
unfoldable pub from_le_bytes : List ℕ → ℕ
from_le_bytes [] = 0
from_le_bytes (b ∷ bs) = b + 256 * from_le_bytes bs

unfoldable pub from_be_bytes : ℕ → List ℕ → ℕ
from_be_bytes acc [] = acc
from_be_bytes acc (b ∷ bs) = from_be_bytes (acc * 256 + b) bs

unfoldable pub to_array : List ℕ → ℕ
unfolding from_be_bytes
to_array = from_be_bytes 0

-- Equality of byte strings.
abbrev pub bytes_eq : List ℕ → List ℕ → Bool
bytes_eq [] [] = true
bytes_eq [] (b ∷ bs) = false
bytes_eq (a ∷ as') [] = false
bytes_eq (a ∷ as') (b ∷ bs) = a == b && bytes_eq as' bs

pub bytes_eq_refl : (a : List ℕ) → bytes_eq a a ≡ true
bytes_eq_refl [] = refl
bytes_eq_refl (x ∷ a) = ground (arith, bytes_eq_refl a)

pub bytes_eq→eq : (a b : List ℕ) → bytes_eq a b ≡ true → a ≡ b
bytes_eq→eq [] [] h = refl
bytes_eq→eq [] (b ∷ bs) h = absurd (cc)
bytes_eq→eq (a ∷ as') [] h = absurd (cc)
bytes_eq→eq (a ∷ as') (b ∷ bs) h = ground (arith, bytes_eq→eq as' bs)

-- Concatenated encodings of one width each, of as many values, agree value by value.
abbrev pub flat {ℓ} : {A : Type ℓ} → (A → List ℕ) → List A → List ℕ
flat f [] = []
flat f (a ∷ xs) = f a ++ flat f xs

pub flat_field {ℓ} :
    {A : Type ℓ} {B : Type 0} (f : A → List ℕ) (view : A → B) (P : A → Type 0) (n : ℕ)
    → ((a : A) → length (f a) ≡ n)
    → ((a b : A) → P a → P b → f a ≡ f b → view a ≡ view b)
    → (xs ys : List A) {x y : List ℕ} → length xs ≡ length ys
    → All P xs
    → All P ys
    → flat f xs ++ x ≡ flat f ys ++ y
    → (map view xs ≡ map view ys) × (x ≡ y)
flat_field f view P n width inj [] [] h px py e = (refl, e)
flat_field f view P n width inj [] (b ∷ ys) h px py e = absurd (omega arith)
flat_field f view P n width inj (a ∷ xs) [] h px py e = absurd (omega arith)
flat_field f view P n width inj (a ∷ xs) (b ∷ ys) {x} {y} h px py e =
    let r =
      append_inj (f a) (f b) (width a ∙ sym (width b))
        (sym (append_assoc (f a) (flat f xs) x) ∙ e ∙ append_assoc (f b) (flat f ys) y) in
    let rest = flat_field f view P n width inj xs ys {x = x} {y = y} (omega arith) px.1 py.1 r.1 in
    (ap₂ ◌∷◌ (inj a b px.0 py.0 r.0) rest.0, rest.1)
