-- ===== src/Core/Wire/Iteration.antt =====
-- crates/aevum-core/src/wire_zero_copy.rs: the iterator over the transactions of a block.
use aevum_public.Base.{
  ℕ, zero, suc, ◌+◌, ◌-◌, ◌≤◌, ◌≡◌, refl, sym, ap, ◌∙◌, none, some, List, [], ◌∷◌, ◌++◌,
  append_assoc, map, length, drop, drop-append, length-append, take, subst, false, ◌==◌, ltb,
  le→ltb, Option-cases, inl, inr, All, arith,
}
use mathlib.Core.Option.{some-injective}
use aevum_public.Base.Bytes.{flat}
use aevum_public.Core.Transaction.{Transaction, type_byte}
use aevum_public.Core.Wire.Cursor.{Cursor, skip, new_cursor}
use aevum_public.Core.Wire.Views.{TxView, BlockTxIter, parse_tx, new_iter, next, collect_views}
use aevum_public.Core.Wire.Format.{encode_tx, IsEncodable}
use aevum_public.Core.Wire.Reading.{Ahead, advance, Ahead-advance, skip-Reads}
use aevum_public.Core.Wire.Parsing.{parse_tx-encode}
use aevum_public.Core.Wire.Bounds.{parse_tx-extent}

module _ (proof_data : ℕ → List ℕ) where
  -- What the view of an encoded transaction says.
  abbrev pub view_of : Transaction → TxView
  view_of tx = record {
    tx_hash = tx.tx_hash;
    fee = tx.fee;
    poh_tick = tx.poh_tick;
    locktime = tx.locktime;
    tx_type = type_byte tx.tx_type;
    input_count = length tx.inputs;
    output_count = length tx.outputs;
    parsed_len = length (encode_tx proof_data tx);
    raw = encode_tx proof_data tx;
  }

  next-encode :
      (it : BlockTxIter) (tx : Transaction) (rest : List ℕ) (n : ℕ)
      → IsEncodable proof_data tx
      → Ahead it.cursor (encode_tx proof_data tx ++ rest)
      → it.left ≡ suc n
      → next it
        ≡ some (
          view_of tx,
          record { cursor = advance (length (encode_tx proof_data tx)) it.cursor; left = n },
        )
  unfolding next
  next-encode it tx rest n h ahead left =
      let more : (it.left == 0) ≡ false = ground arith in
      let fewer : it.left - 1 ≡ n = omega arith in
      rw
        (
          more,
          le→ltb (length it.cursor.buf) it.cursor.pos ahead.0,
          ahead.1,
          parse_tx-encode proof_data tx rest h,
          skip-Reads _ (encode_tx proof_data tx) refl _ it.cursor rest ahead refl,
          fewer,
        )
        refl

  next-done : (it : BlockTxIter) → it.left ≡ 0 → next it ≡ none
  unfolding next
  next-done it left = ground arith

  collect-encode :
      (txs : List Transaction) (it : BlockTxIter) (rest : List ℕ) (fuel : ℕ)
      → All (IsEncodable proof_data) txs
      → Ahead it.cursor (flat (encode_tx proof_data) txs ++ rest)
      → it.left ≡ length txs
      → length txs ≤ fuel
      → collect_views fuel it ≡ map view_of txs
  unfolding collect_views next
  collect-encode [] it rest zero h ahead left enough = refl
  collect-encode [] it rest (suc fuel) h ahead left enough =
      rw (next-done it left, collect_views) refl
  collect-encode (tx ∷ txs) it rest zero h ahead left enough = absurd (omega arith)
  collect-encode (tx ∷ txs) it rest (suc fuel) h ahead left enough =
      let later = flat (encode_tx proof_data) txs ++ rest in
      let here : Ahead it.cursor (encode_tx proof_data tx ++ later) = (
        ahead.0,
        ahead.1 ∙ append_assoc (encode_tx proof_data tx) (flat (encode_tx proof_data) txs) rest,
      ) in
      let moved = advance (length (encode_tx proof_data tx)) it.cursor in
      let behind =
        collect-encode txs (record { cursor = moved; left = length txs }) rest fuel h.1
          (Ahead-advance it.cursor (encode_tx proof_data tx) later here) refl (omega arith) in
      rw (next-encode it tx later (length txs) h.0 here left, collect_views, behind) refl

  -- On a header and the encodings of a block's transactions, whatever follows them, the iterator that
  -- starts behind the header yields the view of each transaction, in order, and then no more.
  pub collect_views-encode :
      (header rest : List ℕ) (txs : List Transaction) (fuel : ℕ) (it : BlockTxIter)
      → All (IsEncodable proof_data) txs
      → new_iter (header ++ (flat (encode_tx proof_data) txs ++ rest)) (length header) (length txs)
        ≡ some it
      → length txs ≤ fuel
      → collect_views fuel it ≡ map view_of txs
  unfolding new_iter new_cursor
  collect_views-encode header rest txs fuel it h start enough =
      let body = flat (encode_tx proof_data) txs ++ rest in
      let there = drop-append header body (length header) refl in
      let first : BlockTxIter = record {
        cursor = new_cursor (drop (length header) (header ++ body));
        left = length txs;
      } in
      let inside : ltb (length (header ++ body)) (length header) ≡ false =
        le→ltb (length (header ++ body)) (length header)
          (omega (arith, length-append header body)) in
      let same : first ≡ it = some-injective first it (sym (rw (inside, new_iter) refl) ∙ start) in
      subst (λ (i : BlockTxIter). collect_views fuel i ≡ map view_of txs) same
        (collect-encode txs first rest fuel h (omega arith, there) refl enough)

next-advances :
    (it : BlockTxIter) (r : TxView × BlockTxIter)
    → next it ≡ some r
    → (r.1.cursor ≡ advance r.0.parsed_len it.cursor)
      × (it.cursor.pos + r.0.parsed_len ≤ length it.cursor.buf)
      × (parse_tx (drop it.cursor.pos it.cursor.buf) ≡ some r.0)
unfolding next skip
next-advances it r e = ground arith

-- The views lie in the buffer one after another from `pos` on, with no byte between them: each is at
-- least 79 bytes long, does not pass the end, and its raw bytes are those of its place.
abbrev pub LiesAt : List ℕ → ℕ → List TxView → Type 0
LiesAt buf pos [] = Unit {0}
LiesAt buf pos (v ∷ vs) =
    (79 ≤ v.parsed_len)
    × (pos + v.parsed_len ≤ length buf)
    × (v.raw ≡ take v.parsed_len (drop pos buf))
    × LiesAt buf (pos + v.parsed_len) vs

-- On a buffer of any content, the views that the iterator yields lie in the buffer one after
-- another, from the cursor on and with no byte between them: each is at least 79 bytes long, ends
-- within the buffer and has the bytes at its place as its raw bytes.
pub collect_views-LiesAt :
    (fuel : ℕ) (it : BlockTxIter) → LiesAt it.cursor.buf it.cursor.pos (collect_views fuel it)
unfolding collect_views
collect_views-LiesAt zero it = tt
collect_views-LiesAt (suc fuel) it = elim (Option-cases (next it)) [
  | inl e ↦ rw (e, collect_views) tt
  | inr k ↦
      let moved = next-advances it k.0 k.1 in
      let size = parse_tx-extent (drop it.cursor.pos it.cursor.buf) k.0.0 moved.2 in
      let pos : k.0.1.cursor.pos ≡ it.cursor.pos + k.0.0.parsed_len = ap (λ c. c.pos) moved.0 in
      let same : k.0.1.cursor.buf ≡ it.cursor.buf = ap (λ (c : Cursor). c.buf) moved.0 in
      let behind =
        subst (λ buf. LiesAt buf (it.cursor.pos + k.0.0.parsed_len) (collect_views fuel k.0.1)) same
          (subst (λ n. LiesAt k.0.1.cursor.buf n (collect_views fuel k.0.1)) pos
            (collect_views-LiesAt fuel k.0.1)) in
      rw (k.1, collect_views) (size.0, moved.1, size.2, behind)
]
