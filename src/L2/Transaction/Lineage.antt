-- ===== src/L2/Transaction/Lineage.antt =====
-- The lineage that an L2 output takes from its inputs.
use aevum_public.Base.{
  ℕ, ◌+◌, ◌<◌, ◌≡◌, refl, ◌∙◌, ap, min, max, List, [], ◌∷◌, ◌++◌, arith, u16_max,
}
use aevum_public.L2.Transaction.{Dna, L2Utxo, inherit_step, inherit_loop, inherit_dna, unset}

-- The greatest distance of a list of inputs.
unfoldable pub max_distance : List L2Utxo → ℕ
max_distance [] = 0
max_distance (i ∷ is) = max i.taint_distance (max_distance is)

distance-inherit_loop :
    (d : Dna) (is : List L2Utxo) → (inherit_loop d is).distance ≡ max d.distance (max_distance is)
unfolding inherit_loop inherit_step max_distance
distance-inherit_loop d [] = omega arith
distance-inherit_loop d (i ∷ is) = ground (arith, distance-inherit_loop (inherit_step d i) is)

inherit_loop-append :
    (d : Dna) (is js : List L2Utxo)
    → inherit_loop d (is ++ js) ≡ inherit_loop (inherit_loop d is) js
unfolding inherit_loop
inherit_loop-append d [] js = refl
inherit_loop-append d (i ∷ is) js = inherit_loop-append (inherit_step d i) is js

-- An output is one step further from the taint than the most distant input, up to the greatest `u16`.
pub distance-inherit_dna :
    (i : L2Utxo) (is : List L2Utxo)
    → (inherit_dna (i ∷ is)).distance ≡ min (max_distance (i ∷ is) + 1) u16_max
unfolding inherit_dna
distance-inherit_dna i is = omega (arith, distance-inherit_loop unset (i ∷ is))

-- An input that comes last and is less distant than one before it leaves no trace in the lineage,
-- whatever its restriction level and timestamp are.
pub inherit_dna-ignores_last :
    (i : L2Utxo) (is : List L2Utxo) (last : L2Utxo)
    → last.taint_distance < max_distance (i ∷ is)
    → inherit_dna (i ∷ (is ++ last ∷ [])) ≡ inherit_dna (i ∷ is)
unfolding inherit_dna
inherit_dna-ignores_last i is last h =
    let d = inherit_loop unset (i ∷ is) in
    let skipped : inherit_loop d (last ∷ []) ≡ d =
      unfold inherit_loop inherit_step in ground (arith, distance-inherit_loop unset (i ∷ is)) in
    let same = inherit_loop-append unset (i ∷ is) (last ∷ []) ∙ skipped in
    ap (λ (e : Dna). record e { distance = min (e.distance + 1) u16_max }) same
