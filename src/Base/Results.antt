-- ===== src/Base/Results.antt =====
-- `Result<A, E>`.
use mathlib.Core.Path.{◌≡◌, refl, subst}
use mathlib.Core.Logic.{◌⊎◌, inl, inr}
use mathlib.Core.Bool.{Bool, true, false}
use mathlib.Core.List.{List, [], ◌∷◌}
use aevum_public.Base.Lists.{All}

pub data Result (E A : Type 0) : Type 0 where
  ok : A → Result E A
  err : E → Result E A

-- `if c { return Err(e); }`
abbrev pub fail_if : {E : Type 0} → Bool → E → Result E (Unit {0})
fail_if c e = elim c [ true ↦ err e | false ↦ ok tt ]

-- Chains of calls under `?`, in which the first error wins.
infixl 5 ◌>>◌ ◌>>=◌
abbrev pub ◌>>◌ : {E B : Type 0} → Result E (Unit {0}) → Result E B → Result E B
ok _ >> k = k
err e >> k = err e

abbrev pub ◌>>=◌ : {E A B : Type 0} → Result E A → (A → Result E B) → Result E B
err e >>= f = err e
ok a >>= f = f a

pub Result-cases :
    {E A : Type 0} (r : Result E A) → ((a : A) × (r ≡ ok a)) ⊎ ((e : E) × (r ≡ err e))
Result-cases (ok a) = inl (a, refl)
Result-cases (err e) = inr (e, refl)

pub fail_if-eq-ok : {E : Type 0} (b : Bool) (e : E) {u : Unit {0}} → fail_if b e ≡ ok u → b ≡ false
fail_if-eq-ok true e h = absurd (cc)
fail_if-eq-ok false e h = refl

-- `iter().map(f).collect::<Result<Vec<_>, _>>()`
abbrev pub collect {ℓ} : {E B : Type 0} {A : Type ℓ} → (A → Result E B) → List A → Result E (List B)
collect f [] = ok []
collect f (x ∷ xs) = do y ← f x; ys ← collect f xs; ok (y ∷ ys)

-- A chain that ends well has a first call that ended well.
pub >>=-eq-ok :
    {E A B : Type 0} (first : Result E A) (next : A → Result E B) {out : B}
    → (first >>= next) ≡ ok out
    → (mid : A) × (first ≡ ok mid) × (next mid ≡ ok out)
>>=-eq-ok (err e) next h = absurd (cc)
>>=-eq-ok (ok mid) next h = (mid, refl, h)

-- A guard that let the rest go on.
pub fail_if>>-eq-ok :
    {E B : Type 0} (b : Bool) (e : E) (next : Result E B) {out : B}
    → (fail_if b e >> next) ≡ ok out
    → (b ≡ false) × (next ≡ ok out)
fail_if>>-eq-ok true e next h = absurd (cc)
fail_if>>-eq-ok false e next h = (refl, h)

pub >>-eq-ok :
    {E B : Type 0} (first : Result E (Unit {0})) (next : Result E B) {out : B}
    → (first >> next) ≡ ok out
    → (first ≡ ok tt) × (next ≡ ok out)
>>-eq-ok (err e) next h = absurd (cc)
>>-eq-ok (ok u) next h = (refl, h)

-- What holds of each result of a call holds of all that are collected.
pub collect-All {ℓ κ} :
    {E B : Type 0} {A : Type ℓ} (f : A → Result E B) (Q : B → Type κ)
    → ((x : A) (y : B) → f x ≡ ok y → Q y)
    → (xs : List A) (ys : List B) → collect f xs ≡ ok ys
    → All Q ys
collect-All f Q h [] ys e = let same : [] ≡ ys = cc in subst (λ l. All Q l) same tt
collect-All f Q h (x ∷ xs) ys e =
    let first = >>=-eq-ok (f x) _ e in
    let later = >>=-eq-ok (collect f xs) _ first.2 in
    let same : first.0 ∷ later.0 ≡ ys = cc in
    subst (λ l. All Q l) same (h x first.0 first.1, collect-All f Q h xs later.0 later.1)
