-- ===== src/Tests/Services/Ranges.antt =====
-- The genesis range and its splits.
use aevum_public.Base.{ℕ, ◌≡◌, refl, ◌⊎◌, List, [], ◌∷◌, arith, ok, err, some}
use aevum_public.Base.Bytes.{le_bytes, array_bytes}
use aevum_public.Crypto.{Clash}
use aevum_public.Core.DnaRange.{
  DnaRange, origin_bytes, option_bytes, id_bytes, proof_bytes, id, hash, seal_range,
  new_genesis_range, child, split,
}
use aevum_public.Core.DnaRange.Splitting.{
  IsTiling, IsOutside, IsRange, split-IsTiling, Cut, cut_all, holders, total, cut_all-conserves,
}
use aevum_public.Core.DnaRange.Provenance.{IsNamed, id-binds_children}
use aevum_public.Tests.Values.{toy}

program : Unit {0}
unfolding le_bytes array_bytes origin_bytes option_bytes id_bytes proof_bytes id hash seal_range
    new_genesis_range child
program = tt

abbrev whole : DnaRange
whole = new_genesis_range toy 3 11 0 5

proper : IsRange whole
unfolding program
proper = (omega arith, omega arith)

split-IsTiling_example :
    ((¬ IsOutside whole 100)
      × ((a : DnaRange) × (b : DnaRange) × (split toy whole 100 21 22 7 8 ≡ ok (a, b))
          × IsTiling toy whole a b))
    ⊎ (IsOutside whole 100 × (split toy whole 100 21 22 7 8 ≡ err "invalid split"))
split-IsTiling_example = split-IsTiling toy whole 100 21 22 7 8 proper

abbrev cuts : List Cut
cuts =
    record { index = 0; point = 100; left = 21; right = 22; tx = 7; block = 8 }
    ∷ record { index = 1; point = 50; left = 23; right = 24; tx = 9; block = 9 }
    ∷ []

cut_all-conserves_example :
    ((s : ℕ) → holders s (cut_all toy cuts (whole ∷ [])) ≡ holders s (whole ∷ []))
    × (total (cut_all toy cuts (whole ∷ [])) ≡ total (whole ∷ []))
cut_all-conserves_example = cut_all-conserves toy cuts (whole ∷ []) (proper, tt)

abbrev nine : ℕ
nine = 9

abbrev half : DnaRange
half = record whole { range_id = 1; parent_range_id = some 9 }

half-IsNamed : IsNamed half
unfolding program
half-IsNamed = record {
  root_id = omega arith;
  parent_range_id = λ p e. ground arith;
  start = omega arith;
  end = omega arith;
}

id-binds_children_example :
    ((half.root_id ≡ half.root_id)
      × (nine ≡ nine)
      × (half.start ≡ half.start)
      × (half.end ≡ half.end))
    ⊎ Clash toy (id_bytes half) (id_bytes half)
id-binds_children_example =
    id-binds_children toy half half nine nine refl refl half-IsNamed half-IsNamed refl
