-- ===== src/Crypto.antt =====
-- The cryptography that the protocol calls and does not implement here (`blake3`, and `crypto::keys`
-- of another crate), as a parameter of the models.
use native.Mathlib.Decide.{ℕ_discrete}
use aevum_public.Base.{
  true, ◌⊎◌, inl, inr, ℕ, ◌≡◌, ◌≢◌, Bool, List, [], ◌∷◌, ◌++◌, length, arith, IsWord32,
}

pub record Crypto : Type 0 where
  -- `blake3::Hasher`: the digest of all the bytes that the updates handed over, in order.
  pub digest : List ℕ → ℕ
  pub digest-IsWord32 : (bytes : List ℕ) → IsWord32 (digest bytes)
  -- `PublicKey::from_bytes(k).is_ok()`, and `PublicKey::verify(message, signature)`.
  pub is_key : ℕ → Bool
  pub verify : ℕ → List ℕ → List ℕ → Bool

bytes_discrete : Discrete (List ℕ)
bytes_discrete = hlevel ℕ_discrete

-- These two inputs differ and have one digest.
abbrev pub Clash : Crypto → List ℕ → List ℕ → Type 0
Clash c u v = (u ≢ v) × (c.digest u ≡ c.digest v)

-- Equal digests come from equal inputs, or the two inputs clash.
pub digest_binds : (c : Crypto) (u v : List ℕ) → c.digest u ≡ c.digest v → (u ≡ v) ⊎ Clash c u v
digest_binds c u v h = elim (bytes_discrete u v) [
  | yes same ↦ inl same
  | no differ ↦ inr (differ, h)
]

-- At one place of two lists of inputs there are two that clash.
pub data Clashes (c : Crypto) : List (List ℕ) → List (List ℕ) → Type 0 where
  here : {u v : List ℕ} {us vs : List (List ℕ)} → Clash c u v → Clashes c (u ∷ us) (v ∷ vs)
  there : {u v : List ℕ} {us vs : List (List ℕ)} → Clashes c us vs → Clashes c (u ∷ us) (v ∷ vs)

pub Clashes-left :
    {c : Crypto} {us vs : List (List ℕ)} (xs ys : List (List ℕ))
    → Clashes c us vs
    → Clashes c (us ++ xs) (vs ++ ys)
Clashes-left xs ys (here h) = here h
Clashes-left xs ys (there h) = there (Clashes-left xs ys h)

pub Clashes-right :
    {c : Crypto} {xs ys : List (List ℕ)} (us vs : List (List ℕ))
    → length us ≡ length vs
    → Clashes c xs ys
    → Clashes c (us ++ xs) (vs ++ ys)
Clashes-right [] [] n h = h
Clashes-right (u ∷ us) (v ∷ vs) n h = there (Clashes-right us vs (omega arith) h)
Clashes-right _ _ n h = absurd (omega arith)

-- `Keypair`: what its private half signs, its public half verifies.
pub record Keypair (c : Crypto) : Type 0 where
  pub key : ℕ
  pub sign : List ℕ → List ℕ
  pub signs : (m : List ℕ) → c.verify key m (sign m) ≡ true
