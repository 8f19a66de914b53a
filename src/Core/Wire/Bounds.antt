-- ===== src/Core/Wire/Bounds.antt =====
-- crates/aevum-core/src/wire_zero_copy.rs: the views of a buffer of any content, and the fee check
-- beside the view.
use aevum_public.Base.{
  ℕ, ◌≤◌, ◌≡◌, refl, sym, ap, ◌∙◌, some, List, length, take, leb, ◌==◌, inl, inr, Option-cases,
  arith,
}
use aevum_public.Base.Bytes.{from_le_bytes}
use mathlib.Core.Option.{none-ne-some, some-injective}
use aevum_public.Core.Wire.Cursor.{
  Cursor, Parser, pure, check, ◌>>=◌, ◌>>◌, slice, skip, uint, u8, u16, u32, u64, hash, skip_inputs,
  skip_outputs, skip_witnesses, new_cursor,
}
use aevum_public.Core.Wire.Views.{
  TxView, tx_view, position, parse_tx, fee_field, check_min_fee, run, expected_wire_version,
}
use aevum_public.Core.Wire.Reading.{chain, run_eq}
use aevum_public.Core.Wire.Extent.{chain-some, tx_view-Takes}

-- Whatever the parser returns satisfies `Q`.
abbrev pub Ensures : {A : Type 0} → (A → Cursor → Type 0) → Parser A → Type 0
Ensures {A} Q p = (c : Cursor) (r : A × Cursor) → p c ≡ some r → Q r.0 r.1

then-Ensures :
    {A B : Type 0} (Q : B → Cursor → Type 0) (p : Parser A) (f : A → Parser B)
    → ((a : A) → Ensures Q (f a))
    → Ensures Q (p >>= f)
then-Ensures Q p f h c r e = let k = chain-some p f c r e in h k.0.0 k.0.1 r k.2

-- The view ends where the cursor does, and refers to the bytes up to there.
abbrev EndsAt : List ℕ → TxView → Cursor → Type 0
EndsAt buf v d = (v.parsed_len ≡ d.pos) × (v.raw ≡ take d.pos buf)

position-EndsAt :
    (buf : List ℕ) (view : ℕ → TxView)
    → ((n : ℕ) → ((view n).parsed_len ≡ n) × ((view n).raw ≡ take n buf))
    → Ensures (EndsAt buf) (position >>= (λ n. pure (view n)))
unfolding position
position-EndsAt buf view same c r e = ground (arith, same c.pos)

tx_view-EndsAt : (buf : List ℕ) → Ensures (EndsAt buf) (tx_view buf)
unfolding tx_view u8 u16 u32 u64
tx_view-EndsAt buf = then-Ensures (EndsAt buf) (uint 2) _ (λ version.
    then-Ensures (EndsAt buf) (check (version == expected_wire_version)) _ (λ u.
      then-Ensures (EndsAt buf) (uint 4) _ (λ tx_version.
        then-Ensures (EndsAt buf) (uint 4) _ (λ chain_id.
          then-Ensures (EndsAt buf) (uint 1) _ (λ tx_type.
            then-Ensures (EndsAt buf) (uint 4) _ (λ input_count.
              then-Ensures (EndsAt buf) (skip_inputs input_count) _ (λ u.
                then-Ensures (EndsAt buf) (uint 4) _ (λ output_count.
                  then-Ensures (EndsAt buf) (skip_outputs output_count) _ (λ u.
                    then-Ensures (EndsAt buf) (uint 8) _ (λ fee.
                      then-Ensures (EndsAt buf) hash _ (λ tx_hash.
                        then-Ensures (EndsAt buf) (uint 8) _ (λ poh_tick.
                          then-Ensures (EndsAt buf) (uint 8) _ (λ locktime.
                            then-Ensures (EndsAt buf) skip_witnesses _
                              (λ u. position-EndsAt buf _ (λ n. (refl, refl))))))))))))))))

-- A run that yields `a` left some cursor.
run-some :
    {A : Type 0} (p : Parser A) (buf : List ℕ) (a : A)
    → run p buf ≡ some a
    → (d : Cursor) × (p (new_cursor buf) ≡ some (a, d))
run-some p buf a h = elim (Option-cases (p (new_cursor buf))) [
  | inl e ↦ absurd (none-ne-some a (sym (rw (e, run) refl) ∙ h))
  | inr k ↦ (
    k.0.1,
    k.1 ∙ ap (λ b. some (b, k.0.1)) (some-injective k.0.0 a (sym (rw (k.1, run) refl) ∙ h)),
  )
]

-- Every view of a buffer of any content takes 79 bytes at least, lies in the buffer, and refers to
-- the bytes that it takes.
pub parse_tx-extent :
    (buf : List ℕ) (v : TxView)
    → parse_tx buf ≡ some v
    → (79 ≤ v.parsed_len) × (v.parsed_len ≤ length buf) × (v.raw ≡ take v.parsed_len buf)
unfolding parse_tx new_cursor
parse_tx-extent buf v h =
    let r = run-some (tx_view buf) buf v h in
    let ends = tx_view-EndsAt buf (new_cursor buf) (v, r.0) r.1 in
    let takes = tx_view-Takes buf (new_cursor buf) (v, r.0) r.1 (omega arith) in
    (
      omega (arith, takes.1, ends.0),
      omega (arith, takes.2, ends.0),
      ends.1 ∙ ap (λ n. take n buf) (sym ends.0),
    )

-- Where the first parser returns a view, the second returns its fee.
abbrev FeeOf : Parser TxView → Parser ℕ → Type 0
FeeOf p q =
    (c : Cursor) (r : TxView × Cursor) → p c ≡ some r → (d : Cursor) × (q c ≡ some (r.0.fee, d))

same_step :
    {A : Type 0} (p : Parser A) (f : A → Parser TxView) (g : A → Parser ℕ)
    → ((a : A) → FeeOf (f a) (g a))
    → FeeOf (p >>= f) (p >>= g)
same_step p f g h c r e =
    let k = chain-some p f c r e in let q = h k.0.0 k.0.1 r k.2 in (q.0, chain p g c k.1 ∙ q.1)

-- Skipping leaves the cursor where reading does.
slice-skip :
    (n : ℕ) (c : Cursor) (r : List ℕ × Cursor) → slice n c ≡ some r → skip n c ≡ some (tt, r.1)
unfolding slice skip
slice-skip n c r e = ground arith

uint-skip : (n : ℕ) (c : Cursor) (r : ℕ × Cursor) → uint n c ≡ some r → skip n c ≡ some (tt, r.1)
unfolding uint
uint-skip n c r e =
    let k = chain-some (slice n) _ c r e in
    slice-skip n c k.0 k.1
    ∙ ap (λ x. some (tt, x.1)) (some-injective (from_le_bytes k.0.0, k.0.1) r k.2)

type_step :
    (f : ℕ → Parser TxView) (q : Parser ℕ)
    → ((a : ℕ) → FeeOf (f a) q)
    → FeeOf (uint 1 >>= f) (skip 1 >> q)
type_step f q h c r e =
    let k = chain-some (uint 1) f c r e in
    let out = h k.0.0 k.0.1 r k.2 in
    (out.0, chain (skip 1) (λ u. q) c (uint-skip 1 c k.0 k.1) ∙ out.1)

fee_step :
    (f : ℕ → Parser TxView)
    → ((fee : ℕ) → Ensures (λ v d. v.fee ≡ fee) (f fee))
    → FeeOf (uint 8 >>= f) (uint 8)
fee_step f h c r e =
    let k = chain-some (uint 8) f c r e in
    (k.0.1, k.1 ∙ ap (λ n. some (n, k.0.1)) (sym (h k.0.0 k.0.1 r k.2)))

tx_view_fee : (buf : List ℕ) → FeeOf (tx_view buf) fee_field
unfolding tx_view fee_field u8 u16 u32 u64
tx_view_fee buf = same_step (uint 2) _ _ (λ version.
    same_step (check (version == expected_wire_version)) _ _ (λ u.
      same_step (uint 4) _ _ (λ tx_version. same_step (uint 4) _ _ (λ chain_id.
        type_step _ _ (λ tx_type. same_step (uint 4) _ _ (λ input_count.
          same_step (skip_inputs input_count) _ _ (λ u. same_step (uint 4) _ _ (λ output_count.
            same_step (skip_outputs output_count) _ _ (λ u. fee_step _ (λ fee.
              then-Ensures (λ v d. v.fee ≡ fee) hash _
                (λ tx_hash.
                  then-Ensures (λ v d. v.fee ≡ fee) (uint 8) _
                    (λ poh_tick.
                      then-Ensures (λ v d. v.fee ≡ fee) (uint 8) _
                        (λ locktime.
                          then-Ensures (λ v d. v.fee ≡ fee) skip_witnesses _
                            (λ u.
                              then-Ensures (λ v d. v.fee ≡ fee) position _
                                (λ parsed_len. λ c r e. ground arith)))))))))))))))

-- Where the view parses, the minimum fee check is the test of its fee.
pub check_min_fee-parse_tx :
    (buf : List ℕ) (min_fee : ℕ) (v : TxView)
    → parse_tx buf ≡ some v
    → check_min_fee buf min_fee ≡ leb min_fee v.fee
unfolding parse_tx check_min_fee
check_min_fee-parse_tx buf min_fee v h =
    let r = run-some (tx_view buf) buf v h in
    let q = tx_view_fee buf (new_cursor buf) (v, r.0) r.1 in
    rw (run_eq fee_field buf q.1, check_min_fee) refl
