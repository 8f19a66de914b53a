-- ===== src/Core/DnaRange/Provenance.antt =====
-- What the proof of a range commits to, and what it leaves open.
use aevum_public.Base.{ℕ, ◌≡◌, refl, none, some, ◌⊎◌, inl, inr, IsU64, IsWord32}
use aevum_public.Base.Bytes.{codes, append_inj, u64_field, array_field}
use aevum_public.Crypto.{Crypto, Clash, digest_binds}
use aevum_public.Core.DnaRange.{DnaRange, option_bytes, id_bytes, proof_bytes, id, hash}

-- The proof does not tell a parent from a bridge: a range with a parent and no bridge has the proof
-- of the range with that hash for a bridge and no parent.
pub hash-confuses_parent :
    (c : Crypto) (r : DnaRange) (h : ℕ)
    → hash c (record r { parent_range_id = some h; bridge_tx = none })
      ≡ hash c (record r { parent_range_id = none; bridge_tx = some h })
unfolding hash proof_bytes option_bytes
hash-confuses_parent c r h = refl

pub record IsNamed (r : DnaRange) : Type 0 where
  pub root_id : IsWord32 r.root_id
  pub parent_range_id : (p : ℕ) → r.parent_range_id ≡ some p → IsWord32 p
  pub start : IsU64 r.start
  pub end : IsU64 r.end

child_bytes_inj :
    (a b : DnaRange) (p q : ℕ)
    → a.parent_range_id ≡ some p
    → b.parent_range_id ≡ some q
    → IsNamed a
    → IsNamed b
    → id_bytes a ≡ id_bytes b
    → (a.root_id ≡ b.root_id) × (p ≡ q) × (a.start ≡ b.start) × (a.end ≡ b.end)
unfolding id_bytes option_bytes
child_bytes_inj a b p q ea eb ha hb e =
    let e' = simp (ea, eb) at e in
    let t0 = (append_inj (codes "AEVUM_DNA_RANGE_V4") (codes "AEVUM_DNA_RANGE_V4") refl e').1 in
    let t1 = (append_inj (codes "ID") (codes "ID") refl t0).1 in
    let (e1, t2) = array_field a.root_id b.root_id ha.root_id hb.root_id t1 in
    let (e2, t3) = array_field p q (ha.parent_range_id p ea) (hb.parent_range_id q eb) t2 in
    let (e3, t4) = u64_field a.start b.start ha.start hb.start t3 in
    let (e4, t5) = u64_field a.end b.end ha.end hb.end t4 in (e1, e2, e3, e4)

-- Two children, within the ranges of their types, with one identifier have one root, one parent and
-- one interval, or the bytes that are hashed for the two differ and have one digest.
pub id-binds_children :
    (c : Crypto) (a b : DnaRange) (p q : ℕ)
    → a.parent_range_id ≡ some p
    → b.parent_range_id ≡ some q
    → IsNamed a
    → IsNamed b
    → id c a ≡ id c b
    → ((a.root_id ≡ b.root_id) × (p ≡ q) × (a.start ≡ b.start) × (a.end ≡ b.end))
      ⊎ Clash c (id_bytes a) (id_bytes b)
unfolding id
id-binds_children c a b p q ea eb ha hb h = elim (digest_binds c (id_bytes a) (id_bytes b) h) [
  | inl same ↦ inl (child_bytes_inj a b p q ea eb ha hb same)
  | inr clash ↦ inr clash
]
