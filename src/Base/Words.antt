-- ===== src/Base/Words.antt =====
-- Machine words as native numbers: `u64` and `usize` are numbers below 2 ^ 64.
use Prim.Native.Nat.{ℕ, ◌+◌, ◌-◌, ◌*◌, ◌%◌, ◌^◌, ◌≤◌, ◌<◌, min}
use native.Mathlib.Omega.{arith}

abbrev pub u64_max : ℕ
u64_max = 2 ^ 64 - 1

abbrev pub u32_max : ℕ
u32_max = 2 ^ 32 - 1

abbrev pub u16_max : ℕ
u16_max = 2 ^ 16 - 1

abbrev pub IsU64 : ℕ → Type 0
IsU64 n = n ≤ u64_max

abbrev pub IsU32 : ℕ → Type 0
IsU32 n = n ≤ u32_max

-- A 32-byte array is the number that its bytes spell, the first byte on top: `==` and `Ord` of
-- arrays are those of the numbers, and `[0; 32]` is 0.
abbrev pub IsWord32 : ℕ → Type 0
IsWord32 n = n < 2 ^ 256

-- `u64::saturating_add` and `saturating_mul`; `saturating_sub` is the `-` of ℕ.
abbrev pub saturating_add : ℕ → ℕ → ℕ
saturating_add a b = min (a + b) u64_max

abbrev pub saturating_mul : ℕ → ℕ → ℕ
saturating_mul a b = min (a * b) u64_max

-- `+`, `*` and `-` on `u64` in a release build, where they wrap round.
abbrev pub wrapping_add : ℕ → ℕ → ℕ
wrapping_add a b = (a + b) % 2 ^ 64

abbrev pub wrapping_mul : ℕ → ℕ → ℕ
wrapping_mul a b = (a * b) % 2 ^ 64

abbrev pub wrapping_sub : ℕ → ℕ → ℕ
wrapping_sub a b = (a + 2 ^ 64 - b) % 2 ^ 64

pub saturating_add-IsU64 : (a b : ℕ) → IsU64 (saturating_add a b)
saturating_add-IsU64 a b = omega arith
