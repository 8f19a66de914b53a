-- ===== src/Core/Wire/Header.antt =====
-- crates/aevum-core/src/wire_zero_copy.rs: the view of a block's header.
use aevum_public.Base.{
  ℕ, ◌≡◌, refl, some, List, [], ◌++◌, ◌==◌, length, arith, IsU64, IsU32, IsWord32,
}
use aevum_public.Base.Bytes.{le_bytes, array_bytes}
use aevum_public.Core.Wire.Cursor.{new_cursor}
use aevum_public.Core.Wire.Views.{expected_wire_version, BlockView, block_view, parse_block}
use aevum_public.Core.Wire.Format.{encode_header}
use aevum_public.Core.Wire.Reading.{
  ReadsTo, then-Reads, next-Reads, hash-Reads, pure-Reads, check-Reads, run_eq,
}
use aevum_public.Core.Wire.Parsing.{version-Reads, u32-Reads, u64-Reads}

module _ (block_hash prev_hash height poh_start poh_end tx_root tx_count : ℕ) where
  -- The bytes of a header, whatever follows them, give a view with its fields and the whole buffer;
  -- the root of the transactions is read over.
  pub parse_block-encode :
      (rest : List ℕ)
      → IsWord32 block_hash
      → IsWord32 prev_hash
      → IsU64 height
      → IsU64 poh_start
      → IsU64 poh_end
      → IsWord32 tx_root
      → IsU32 tx_count
      → parse_block
          (encode_header block_hash prev_hash height poh_start poh_end tx_root tx_count ++ rest)
        ≡ some (record {
          height = height;
          poh_start = poh_start;
          poh_end = poh_end;
          prev_hash = prev_hash;
          block_hash = block_hash;
          tx_count = tx_count;
          raw =
              encode_header block_hash prev_hash height poh_start poh_end tx_root tx_count ++ rest;
        })
  unfolding parse_block new_cursor block_view encode_header
  parse_block-encode rest bh ph hh hs he hr hc =
      let header = encode_header block_hash prev_hash height poh_start poh_end tx_root tx_count in
      let view : BlockView = record {
        height = height;
        poh_start = poh_start;
        poh_end = poh_end;
        prev_hash = prev_hash;
        block_hash = block_hash;
        tx_count = tx_count;
        raw = header ++ rest;
      } in
      let reads : ReadsTo (length header) (block_view (header ++ rest)) header view =
        then-Reads _ (le_bytes 2 expected_wire_version) _ version-Reads (
          next-Reads [] _ (check-Reads (expected_wire_version == expected_wire_version) refl) (
            then-Reads _ (array_bytes block_hash) _ (hash-Reads block_hash bh) (
              then-Reads _ (array_bytes prev_hash) _ (hash-Reads prev_hash ph) (
                then-Reads _ (le_bytes 8 height) _ (u64-Reads height hh) (
                  then-Reads _ (le_bytes 8 poh_start) _ (u64-Reads poh_start hs) (
                    then-Reads _ (le_bytes 8 poh_end) _ (u64-Reads poh_end he) (
                      then-Reads _ (array_bytes tx_root) _ (hash-Reads tx_root hr) (
                        then-Reads _ (le_bytes 4 tx_count) _ (u32-Reads tx_count hc)
                          (pure-Reads view (length header)))))))))) in
      run_eq (block_view (header ++ rest)) (header ++ rest)
        (reads (new_cursor (header ++ rest)) rest (omega arith, refl) (omega arith))
