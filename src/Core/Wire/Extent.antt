-- ===== src/Core/Wire/Extent.antt =====
-- crates/aevum-core/src/wire_zero_copy.rs: how far a parser goes in a buffer of any content.
use aevum_public.Base.{
  ℕ, zero, suc, ◌+◌, ◌≤◌, ◌≡◌, refl, sym, ap, ◌∙◌, Bool, none, some, List, length, ◌==◌, inl, inr,
  Option-cases, arith,
}
use aevum_public.Base.Bytes.{from_le_bytes, to_array}
use mathlib.Core.Option.{none-ne-some}
use aevum_public.Core.Wire.Cursor.{
  Cursor, Parser, pure, check, ◌>>=◌, ◌>>◌, slice, skip, uint, u8, u16, u32, u64, hash, times,
  skip_inputs, skip_outputs, skip_witnesses, skip_input, skip_output, skip_witness,
}
use aevum_public.Core.Wire.Views.{tx_view, position, expected_wire_version}

chain-none :
    {A B : Type 0} (p : Parser A) (f : A → Parser B) (c : Cursor) → p c ≡ none → (p >>= f) c ≡ none
chain-none p f c e = rw (e, ◌>>=◌) refl

-- A chain that succeeds has a first call that did.
pub chain-some :
    {A B : Type 0} (p : Parser A) (f : A → Parser B) (c : Cursor) (out : B × Cursor)
    → (p >>= f) c ≡ some out
    → (r : A × Cursor) × (p c ≡ some r) × (f r.0 r.1 ≡ some out)
chain-some p f c out h = elim (Option-cases (p c)) [
  | inl e ↦ absurd (none-ne-some out (sym (chain-none p f c e) ∙ h))
  | inr k ↦ (k.0, k.1, sym (rw (k.1, ◌>>=◌) refl) ∙ h)
]

-- The parser takes `n` bytes at least and stays inside the buffer, which it keeps.
abbrev pub Takes : {A : Type 0} → ℕ → Parser A → Type 0
Takes {A} n p =
    (c : Cursor) (r : A × Cursor)
    → p c ≡ some r
    → c.pos ≤ length c.buf
    → (r.1.buf ≡ c.buf) × (c.pos + n ≤ r.1.pos) × (r.1.pos ≤ length c.buf)

then-Takes :
    {A B : Type 0} (n m : ℕ) (p : Parser A) (f : A → Parser B)
    → Takes n p
    → ((a : A) → Takes m (f a))
    → Takes (n + m) (p >>= f)
then-Takes n m p f first second c r e room =
    let k = chain-some p f c r e in
    let one = first c k.0 k.1 room in
    let two = second k.0.0 k.0.1 r k.2 (omega (arith, ap length one.0, one.2)) in
    (two.0 ∙ one.0, omega (arith, one.1, two.1), omega (arith, ap length one.0, two.2))

slice-Takes : (n : ℕ) → Takes n (slice n)
unfolding slice
slice-Takes n c r e room = ground arith

skip-Takes : (n : ℕ) → Takes n (skip n)
unfolding skip
skip-Takes n c r e room = ground arith

pure-Takes : {A : Type 0} (a : A) → Takes 0 (pure a)
pure-Takes a c r e room = ground arith

check-Takes : (good : Bool) → Takes 0 (check good)
check-Takes good c r e room = ground arith

times-Takes : (n : ℕ) (turn : Parser (Unit {0})) → Takes 0 turn → Takes 0 (times n turn)
unfolding times
times-Takes zero turn one = pure-Takes tt
times-Takes (suc n) turn one = then-Takes 0 0 turn _ one (λ u. times-Takes n turn one)

Takes-more : {A : Type 0} (n m : ℕ) (p : Parser A) → Takes n p → m ≤ n → Takes m p
Takes-more n m p h le c r e room = let k = h c r e room in (k.0, omega (arith, k.1), k.2)

uint-Takes : (k : ℕ) → Takes k (uint k)
unfolding uint
uint-Takes k =
    Takes-more (k + 0) k (uint k)
      (then-Takes k 0 (slice k) _ (slice-Takes k) (λ bytes. pure-Takes (from_le_bytes bytes)))
      (omega arith)

hash-Takes : Takes 32 hash
unfolding hash
hash-Takes = then-Takes 32 0 (slice 32) _ (slice-Takes 32) (λ bytes. pure-Takes (to_array bytes))

-- A step that skips takes no less than nothing.
skips : {B : Type 0} {q : Parser B} (n : ℕ) → Takes 0 q → Takes 0 (skip n >> q)
skips {q} n h =
    Takes-more (n + 0) 0 (skip n >> q) (then-Takes n 0 (skip n) _ (skip-Takes n) (λ u. h))
      (omega arith)

skip_any : (n : ℕ) → Takes 0 (skip n)
skip_any n = Takes-more n 0 (skip n) (skip-Takes n) (omega arith)

counted : {B : Type 0} (f : ℕ → Parser B) → ((n : ℕ) → Takes 0 (f n)) → Takes 0 (u32 >>= f)
unfolding u32
counted f h = Takes-more 4 0 (u32 >>= f) (then-Takes 4 0 u32 f (uint-Takes 4) h) (omega arith)

skip_inputs-Takes : (n : ℕ) → Takes 0 (skip_inputs n)
unfolding skip_inputs skip_input
skip_inputs-Takes n =
    times-Takes n skip_input (skips 68 (counted _ (λ len. skips len (skip_any 72))))

skip_outputs-Takes : (n : ℕ) → Takes 0 (skip_outputs n)
unfolding skip_outputs skip_output
skip_outputs-Takes n = times-Takes n skip_output (
    skips 8 (
      skips 32 (
        skips 32 (
          skips 32 (
            skips 32 (
              skips 8 (
                counted _ (λ len.
                  skips len (skips 32 (skips 32 (skips 8 (skips 8 (skips 8 (skip_any 4))))))))))))))

skip_witnesses-Takes : Takes 4 skip_witnesses
unfolding skip_witnesses u32 skip_witness
skip_witnesses-Takes =
    then-Takes 4 0 u32 _ (uint-Takes 4) (λ n. times-Takes n skip_witness (counted _ skip_any))

position-Takes : Takes 0 position
unfolding position
position-Takes c r e room = ground arith

pub tx_view-Takes : (buf : List ℕ) → Takes 79 (tx_view buf)
unfolding tx_view u8 u16 u32 u64
tx_view-Takes buf = then-Takes 2 _ (uint 2) _ (uint-Takes 2) (λ version.
    then-Takes 0 _ (check (version == expected_wire_version)) _
      (check-Takes (version == expected_wire_version))
      (λ u. then-Takes 4 _ (uint 4) _ (uint-Takes 4) (λ tx_version.
        then-Takes 4 _ (uint 4) _ (uint-Takes 4) (λ chain_id.
          then-Takes 1 _ (uint 1) _ (uint-Takes 1) (λ tx_type.
            then-Takes 4 _ (uint 4) _ (uint-Takes 4) (λ input_count.
              then-Takes 0 _ (skip_inputs input_count) _ (skip_inputs-Takes input_count) (λ u.
                then-Takes 4 _ (uint 4) _ (uint-Takes 4) (λ output_count.
                  then-Takes 0 _ (skip_outputs output_count) _ (skip_outputs-Takes output_count)
                    (λ u. then-Takes 8 _ (uint 8) _ (uint-Takes 8) (λ fee.
                      then-Takes 32 _ hash _ hash-Takes (λ tx_hash.
                        then-Takes 8 _ (uint 8) _ (uint-Takes 8) (λ poh_tick.
                          then-Takes 8 _ (uint 8) _ (uint-Takes 8) (λ locktime.
                            then-Takes 4 _ skip_witnesses _ skip_witnesses-Takes (λ u.
                              then-Takes 0 _ position _ position-Takes
                                (λ parsed_len. pure-Takes _)))))))))))))))
