-- ===== src/Core/Wire/Cursor.antt =====
-- crates/aevum-core/src/wire_zero_copy.rs: the cursor. Each method takes the cursor as it is and
-- returns the one it leaves with what was read; the buffer never changes, and a position is at
-- most the length of the buffer, so that `self.pos + n` with a length of 32 bits does not wrap.
use aevum_public.Base.{
  ℕ, zero, suc, ◌+◌, ◌-◌, Bool, Option, none, some, List, ltb, length, take, drop, if◌then◌else◌,
}
use aevum_public.Base.Bytes.{from_le_bytes, to_array}

pub record Cursor : Type 0 where
  pub buf : List ℕ
  pub pos : ℕ

-- What a method of `&mut self` with a result `Option<A>` does: `none` is a return by `?`.
abbrev pub Parser : Type 0 → Type 0
Parser A = Cursor → Option (A × Cursor)

abbrev pub pure : {A : Type 0} → A → Parser A
pure a c = some (a, c)

abbrev pub fail : {A : Type 0} → Parser A
fail c = none

infixl 5 ◌>>=◌ ◌>>◌
abbrev pub ◌>>=◌ : {A B : Type 0} → Parser A → (A → Parser B) → Parser B
p >>= f = λ c. elim (p c) [ none ↦ none | some r ↦ f r.0 r.1 ]

abbrev pub ◌>>◌ : {A B : Type 0} → Parser A → Parser B → Parser B
p >> q = p >>= (λ u. q)

-- `if !good { return None; }`
abbrev pub check : Bool → Parser (Unit {0})
check good = if good then pure tt else fail

unfoldable pub new_cursor : List ℕ → Cursor
new_cursor buf = record { buf = buf; pos = 0 }

unfoldable pub remaining : Cursor → ℕ
remaining c = length c.buf - c.pos

-- `Cursor::slice`, and `Cursor::read` with the length as a constant.
unfoldable pub slice : ℕ → Parser (List ℕ)
slice n c =
    if ltb (length c.buf) (c.pos + n)
    then none
    else some (take n (drop c.pos c.buf), record c { pos = c.pos + n })

unfoldable pub skip : ℕ → Parser (Unit {0})
skip n c = if ltb (length c.buf) (c.pos + n) then none else some (tt, record c { pos = c.pos + n })

unfoldable pub uint : ℕ → Parser ℕ
uint k = do bytes ← slice k; pure (from_le_bytes bytes)

unfoldable pub u8 : Parser ℕ
u8 = uint 1

unfoldable pub u16 : Parser ℕ
u16 = uint 2

unfoldable pub u32 : Parser ℕ
u32 = uint 4

unfoldable pub u64 : Parser ℕ
u64 = uint 8

unfoldable pub hash : Parser ℕ
hash = do bytes ← slice 32; pure (to_array bytes)

-- One turn of each loop, and the loops over a count that was read.
unfoldable pub skip_input : Parser (Unit {0})
skip_input = do skip (32 + 4 + 32); sig_len ← u32; skip sig_len; skip (32 + 32 + 8)

unfoldable pub skip_output : Parser (Unit {0})
skip_output = do
  skip 8
  skip 32
  skip 32
  skip 32
  skip 32
  skip 8
  zk_len ← u32
  skip zk_len
  skip 32
  skip 32
  skip 8
  skip 8
  skip 8
  skip 4

unfoldable pub skip_witness : Parser (Unit {0})
skip_witness = do len ← u32; skip len

-- `for _ in 0..count { .. }`
unfoldable pub times : ℕ → Parser (Unit {0}) → Parser (Unit {0})
times zero turn = pure tt
times (suc n) turn = turn >> times n turn

unfoldable pub skip_inputs : ℕ → Parser (Unit {0})
skip_inputs count = times count skip_input

unfoldable pub skip_outputs : ℕ → Parser (Unit {0})
skip_outputs count = times count skip_output

unfoldable pub skip_witnesses : Parser (Unit {0})
skip_witnesses = do count ← u32; times count skip_witness
