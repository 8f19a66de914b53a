-- ===== src/Core/Wire/Reading.antt =====
-- crates/aevum-core/src/wire_zero_copy.rs: what a parser reads from a cursor that has given bytes
-- ahead of it.
use aevum_public.Base.{
  ℕ, ◌+◌, ◌≤◌, ◌<◌, ◌^◌, ◌≡◌, refl, sym, ap, ◌∙◌, Bool, true, some, List, [], ◌∷◌, ◌++◌,
  append_assoc, arith, length, drop, length-append, length-drop, drop-drop, take-append,
  drop-append, le→ltb, All, IsWord32,
}
use aevum_public.Base.Bytes.{le_bytes, array_bytes, length-le_bytes, length-array_bytes, flat}
use aevum_public.Base.Bytes.Decoding.{from_le_bytes-le_bytes, to_array-array_bytes}
use aevum_public.Core.Wire.Views.{run}
use aevum_public.Core.Wire.Cursor.{
  Cursor, new_cursor, Parser, pure, check, ◌>>=◌, ◌>>◌, slice, skip, uint, hash, times,
}

-- The bytes from the position on.
abbrev pub Ahead : Cursor → List ℕ → Type 0
Ahead c bs = (c.pos ≤ length c.buf) × (drop c.pos c.buf ≡ bs)

abbrev pub advance : ℕ → Cursor → Cursor
advance n c = record c { pos = c.pos + n }

-- Wherever the bytes `bs` are ahead and end at `e`, the parser yields `a` and takes just them.
abbrev pub ReadsTo : {A : Type 0} → ℕ → Parser A → List ℕ → A → Type 0
ReadsTo e p bs a =
    (c : Cursor) (rest : List ℕ)
    → Ahead c (bs ++ rest)
    → c.pos + length bs ≡ e
    → p c ≡ some (a, advance (length bs) c)

abbrev pub Reads : {A : Type 0} → Parser A → List ℕ → A → Type 0
Reads p bs a = (e : ℕ) → ReadsTo e p bs a

pub Ahead-advance :
    (c : Cursor) (bs rest : List ℕ) → Ahead c (bs ++ rest) → Ahead (advance (length bs) c) rest
Ahead-advance c bs rest h = (
  omega (arith, ap length h.1, length-drop c.pos c.buf, length-append bs rest),
  sym (drop-drop c.pos (length bs) c.buf)
      ∙ ap (drop (length bs)) h.1
      ∙ drop-append bs rest (length bs) refl,
)

-- There is room for the bytes ahead.
room : (c : Cursor) (bs rest : List ℕ) → Ahead c (bs ++ rest) → c.pos + length bs ≤ length c.buf
room c bs rest h = omega (arith, ap length h.1, length-drop c.pos c.buf, length-append bs rest, h.0)

pub slice-Reads : (n : ℕ) (bs : List ℕ) → length bs ≡ n → Reads (slice n) bs bs
unfolding slice
slice-Reads n bs size e c rest h ends = rw (
  sym size,
  le→ltb (length c.buf) (c.pos + length bs) (room c bs rest h),
  h.1,
  take-append bs rest (length bs) refl,
)

-- A chain whose first call read `a` goes on with it.
pub chain :
    {A B : Type 0} (p : Parser A) (f : A → Parser B) (c : Cursor) {a : A} {d : Cursor}
    → p c ≡ some (a, d)
    → (p >>= f) c ≡ f a d
chain p f c h = rw (h, ◌>>=◌) refl

pub run_eq :
    {A : Type 0} (p : Parser A) (buf : List ℕ) {a : A} {d : Cursor}
    → p (new_cursor buf) ≡ some (a, d)
    → run p buf ≡ some a
run_eq p buf h = rw (h, run) refl

pub uint-Reads : (k n : ℕ) → n < 256 ^ k → Reads (uint k) (le_bytes k n) n
unfolding uint
uint-Reads k n h e c rest ahead ends =
    chain (slice k) _ c (slice-Reads k (le_bytes k n) (length-le_bytes k n) e c rest ahead ends)
    ∙ rw (length-le_bytes k n, from_le_bytes-le_bytes k n h)

pub hash-Reads : (n : ℕ) → IsWord32 n → Reads hash (array_bytes n) n
unfolding hash
hash-Reads n h e c rest ahead ends =
    chain (slice 32) _ c (slice-Reads 32 (array_bytes n) (length-array_bytes n) e c rest ahead ends)
    ∙ rw (length-array_bytes n, to_array-array_bytes n h)

pub skip-Reads : (n : ℕ) (bs : List ℕ) → length bs ≡ n → Reads (skip n) bs tt
unfolding skip
skip-Reads n bs size e c rest h ends =
    rw (sym size, le→ltb (length c.buf) (c.pos + length bs) (room c bs rest h))

advance_zero : (c : Cursor) → advance 0 c ≡ c
advance_zero c = ap (λ n. record c { pos = n }) (omega arith)

pub pure-Reads : {A : Type 0} (a : A) → Reads (pure a) [] a
pure-Reads a e c rest h ends = rw (advance_zero c)

pub check-Reads : (good : Bool) → good ≡ true → Reads (check good) [] tt
check-Reads good h e c rest ahead ends = rw (h, advance_zero c)

-- One parser after another reads the bytes of both.
pub then-Reads :
    {A B : Type 0} {e : ℕ} {p : Parser A} {a : A} {b : B} (f : A → Parser B) (bs cs : List ℕ)
    → Reads p bs a
    → ReadsTo e (f a) cs b
    → ReadsTo e (p >>= f) (bs ++ cs) b
then-Reads {e} {p} {a} {b} f bs cs first second c rest h ends =
    let here : Ahead c (bs ++ (cs ++ rest)) = (h.0, h.1 ∙ append_assoc bs cs rest) in
    let both : c.pos + length bs + length cs ≡ c.pos + length (bs ++ cs) =
      omega (arith, length-append bs cs) in
    let later =
      second (advance (length bs) c) rest (Ahead-advance c bs (cs ++ rest) here)
        (omega (arith, both, ends)) in
    chain p f c (first _ c (cs ++ rest) here refl) ∙ later ∙ rw both refl

pub next-Reads :
    {B : Type 0} {e : ℕ} {p : Parser (Unit {0})} {q : Parser B} {b : B} (bs cs : List ℕ)
    → Reads p bs tt
    → ReadsTo e q cs b
    → ReadsTo e (p >> q) (bs ++ cs) b
next-Reads {q} bs cs first second = then-Reads (λ u. q) bs cs first second

-- A loop reads one encoding after another.
pub times-Reads :
    {A : Type 0} (turn : Parser (Unit {0})) (encode : A → List ℕ) (P : A → Type 0)
    → ((a : A) → P a → Reads turn (encode a) tt)
    → (xs : List A) → All P xs
    → Reads (times (length xs) turn) (flat encode xs) tt
unfolding times
times-Reads turn encode P one [] h e = pure-Reads tt e
times-Reads turn encode P one (x ∷ xs) h e =
    then-Reads _ (encode x) (flat encode xs) (one x h.0) (times-Reads turn encode P one xs h.1 e)
