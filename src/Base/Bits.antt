-- ===== src/Base/Bits.antt =====
-- `|` and `&` on words: setting a bit, and testing for it.
use Prim.Native.Nat.{
  ℕ, zero, suc, ◌+◌, ◌*◌, ◌/◌, ◌%◌, ◌^◌, ◌≤◌, ◌<◌, min, max, digits, bitwise, bit_and, bit_or,
  bit_and-bitwise, bit_or-bitwise,
}
use mathlib.Core.Path.{◌≡◌, refl, ap}
use native.Mathlib.Omega.{arith}
use native.Mathlib.Nat.{pow-suc}

module _ (rest : ℕ → ℕ) (digit : ℕ → ℕ → ℕ) where
  -- Any count of digits to go that is large enough gives the same number.
  enough_digits : (n k a b : ℕ) → a ≤ n → a ≤ k → digits rest digit n a b ≡ digits rest digit k a b
  enough_digits zero zero a b hn hk = refl
  enough_digits zero (suc k) zero b hn hk = refl
  enough_digits zero (suc k) (suc a) b hn hk = absurd (omega arith)
  enough_digits (suc n) zero zero b hn hk = refl
  enough_digits (suc n) zero (suc a) b hn hk = absurd (omega arith)
  enough_digits (suc n) (suc k) zero b hn hk = refl
  enough_digits (suc n) (suc k) (suc a) b hn hk =
      let halved = enough_digits n k (suc a / 2) (b / 2) (omega arith) (omega arith) in
      rw halved refl

  lowest_digit :
      (a b : ℕ)
      → bitwise rest digit (suc a) b
        ≡ bitwise rest digit (suc a / 2) (b / 2) * 2 + digit (suc a % 2) (b % 2)
  lowest_digit a b =
      omega (arith, enough_digits a (suc a / 2) (suc a / 2) (b / 2) (omega arith) (omega arith))

or_step : (a b : ℕ) → bit_or a b ≡ bit_or (a / 2) (b / 2) * 2 + max (a % 2) (b % 2)
or_step zero b = simp bit_or-bitwise (omega arith)
or_step (suc a) b = simp bit_or-bitwise (lowest_digit (λ y. y) max a b)

and_step : (a b : ℕ) → bit_and a b ≡ bit_and (a / 2) (b / 2) * 2 + min (a % 2) (b % 2)
and_step zero b = simp bit_and-bitwise (omega arith)
and_step (suc a) b = simp bit_and-bitwise (lowest_digit (λ y. 0) min a b)

-- The higher digits of `|`.
or_half : (a b : ℕ) → bit_or a b / 2 ≡ bit_or (a / 2) (b / 2)
or_half a b = omega (arith, or_step a b)

-- Induction on the digits: a bound on two numbers halves.
or_and_half :
    (a b m : ℕ)
    → bit_and (bit_or a b) m
      ≡ bit_and (bit_or (a / 2) (b / 2)) (m / 2) * 2 + min (max (a % 2) (b % 2)) (m % 2)
or_and_half a b m =
    omega (arith, and_step (bit_or a b) m, ap (λ h. bit_and h (m / 2)) (or_half a b), or_step a b)

-- Digits that are set are found again.
pub and-or_self : (n a m : ℕ) → a + m ≤ n → bit_and (bit_or a m) m ≡ m
and-or_self zero a m h =
    let none_a : a ≡ 0 = omega arith in let none_m : m ≡ 0 = omega arith in rw (none_a, none_m) refl
and-or_self (suc n) a m h =
    omega (arith, or_and_half a m m, and-or_self n (a / 2) (m / 2) (omega arith))

-- Setting others does not clear them.
pub and-or_le : (n a b m : ℕ) → a + b + m ≤ n → bit_and a m ≤ bit_and (bit_or a b) m
and-or_le zero a b m h =
    let none_a : a ≡ 0 = omega arith in
    let none_b : b ≡ 0 = omega arith in
    let none_m : m ≡ 0 = omega arith in rw (none_a, none_b, none_m) (omega arith)
and-or_le (suc n) a b m h =
    omega
      (arith, or_and_half a b m, and_step a m, and-or_le n (a / 2) (b / 2) (m / 2) (omega arith))

-- `|` stays in the width of its arguments.
pub or_lt : (k a b : ℕ) → a < 2 ^ k → b < 2 ^ k → bit_or a b < 2 ^ k
or_lt zero a b ha hb =
    let none_a : a ≡ 0 = omega arith in
    let none_b : b ≡ 0 = omega arith in rw (none_a, none_b) (omega arith)
or_lt (suc k) a b ha hb = omega (
  arith,
  pow-suc 2 k,
  or_step a b,
  or_lt k (a / 2) (b / 2) (omega (arith, pow-suc 2 k)) (omega (arith, pow-suc 2 k)),
)
