-- ===== src/Consensus/Trust/Authority.antt =====
-- Who may admit a delegate, how many must agree, and what the trust root commits to.
use aevum_public.Base.{
  ℕ, ◌*◌, ◌/◌, ◌≤◌, ◌<◌, ◌≡◌, refl, ap, sym, ◌∙◌, ◌⊎◌, inl, inr, Bool, true, false, ◌||◌, List, [],
  ◌∷◌, map, arith, ◌==◌, mem, length, All, IsDistinct, IsU64, IsWord32, u16_max, length-append,
  append-nil, ok, Bool-cases,
}
use aevum_public.Base.Bytes.{
  codes, array_bytes, flat, append_inj, le_field, u64_field, flat_field, length-array_bytes,
  array_bytes_inj,
}
use aevum_public.Base.Set.{
  set_insert, set_of, mem-set_insert, mem-set_of, set_insert-IsSorted, set_of-IsSorted,
  IsSorted-IsDistinct,
}
use aevum_public.Crypto.{Crypto, Clash, digest_binds}
use aevum_public.Consensus.Trust.{
  TrustModel, trust_bytes, computed_root, network_size, quorum, is_genesis, is_delegate,
  can_endorse, check_voters, voters_of, recompute_trust_root, admit, delegate,
}

check_voters-mem :
    (test : ℕ → Bool) (vs : List ℕ) (v : ℕ)
    → check_voters test vs ≡ ok tt
    → mem v vs ≡ true
    → test v ≡ true
unfolding check_voters
check_voters-mem test [] v h m = absurd (cc)
check_voters-mem test (x ∷ vs) v h m = elim (Bool-cases (v == x)) [
  | inl e ↦ let same : v ≡ x = ground arith in rw same (ground arith)
  | inr e ↦ check_voters-mem test vs v (ground arith) (ground arith)
]

-- A quorum for a sender: different delegates, the sender among them, all others endorsers.
pub record Quorum (m : TrustModel) (sender : ℕ) (endorsements : List ℕ) : Type 0 where
  pub voters : List ℕ
  pub distinct : IsDistinct voters
  pub enough : quorum m ≤ length voters
  pub led : mem sender voters ≡ true
  pub entitled : (v : ℕ) → mem v voters ≡ true → mem v m.delegates ≡ true
  pub asked : (v : ℕ) → mem v voters ≡ true → (v ≡ sender) ⊎ (mem v endorsements ≡ true)

quorum_of :
    (m : TrustModel) (sender : ℕ) (endorsements : List ℕ)
    → check_voters (is_delegate m) (voters_of sender endorsements) ≡ ok tt
    → quorum m ≤ length (voters_of sender endorsements)
    → Quorum m sender endorsements
unfolding voters_of is_delegate
quorum_of m sender endorsements checked enough = record {
  voters = set_insert sender (set_of endorsements);
  distinct =
      IsSorted-IsDistinct (set_insert sender (set_of endorsements))
        (set_insert-IsSorted sender (set_of endorsements) (set_of-IsSorted endorsements));
  enough = enough;
  led = ground (arith, mem-set_insert sender sender (set_of endorsements));
  entitled = λ v.
      check_voters-mem (λ pk. mem pk m.delegates) (set_insert sender (set_of endorsements)) v
        checked;
  asked = λ v h.
      ground (arith, mem-set_insert v sender (set_of endorsements), mem-set_of v endorsements);
}

-- When `delegate` succeeds, the new delegate was none, there was room for one more, and the sender
-- is the genesis key or leads a quorum of the present delegates; afterwards the delegates are those
-- of before and the new one, and no other part of the model but the root has changed.
pub delegate-Quorum :
    (c : Crypto) (m m' : TrustModel) (sender to : ℕ) (endorsements : List ℕ)
    → delegate c m sender to endorsements ≡ ok m'
    → (mem to m.delegates ≡ false)
      × (length m.delegates < m.max_delegates)
      × ((sender ≡ m.genesis_bootstrap) ⊎ Quorum m sender endorsements)
      × ((pk : ℕ) → mem pk m'.delegates ≡ (pk == to || mem pk m.delegates))
      × (m' ≡ record m { delegates = m'.delegates; trust_root = m'.trust_root })
unfolding delegate admit recompute_trust_root is_delegate is_genesis can_endorse
delegate-Quorum c m m' sender to endorsements h = (
  ground arith,
  ground arith,
  authority,
  λ pk. ground (arith, mem-set_insert pk to m.delegates),
  ground arith,
)
  where
    authority : (sender ≡ m.genesis_bootstrap) ⊎ Quorum m sender endorsements
    authority = elim (Bool-cases (sender == m.genesis_bootstrap)) [
      | inl e ↦ inl (ground arith)
      | inr e ↦ inr (quorum_of m sender endorsements (ground arith) (ground arith))
    ]

-- With `min_quorum` at most `max_quorum` and no more than u64::MAX / 2 delegates, the quorum lies
-- between them; between those bounds it is two thirds of the network, rounded down.
pub quorum-bounds :
    (m : TrustModel)
    → m.min_quorum ≤ m.max_quorum
    → IsU64 (length m.delegates * 2)
    → (m.min_quorum ≤ quorum m)
      × (quorum m ≤ m.max_quorum)
      × (m.min_quorum ≤ network_size m * 2 / 3
          → network_size m * 2 / 3 ≤ m.max_quorum
          → quorum m ≡ network_size m * 2 / 3)
unfolding quorum network_size
quorum-bounds m h small = (omega arith, omega arith, λ low high. omega arith)

length-flat_arrays : (xs : List ℕ) → length (flat array_bytes xs) ≡ 32 * length xs
length-flat_arrays [] = refl
length-flat_arrays (x ∷ xs) = omega (
  arith,
  length-append (array_bytes x) (flat array_bytes xs),
  length-array_bytes x,
  length-flat_arrays xs,
)

map_id : (xs : List ℕ) → map (λ x. x) xs ≡ xs
map_id [] = refl
map_id (x ∷ xs) = ap (λ l. x ∷ l) (map_id xs)

pub record IsModel (m : TrustModel) : Type 0 where
  pub trust_version : m.trust_version ≤ u16_max
  pub current_epoch : IsU64 m.current_epoch
  pub delegates : All IsWord32 m.delegates

trust_bytes_inj :
    (m n : TrustModel)
    → IsModel m
    → IsModel n
    → trust_bytes m ≡ trust_bytes n
    → (m.trust_version ≡ n.trust_version)
      × (m.current_epoch ≡ n.current_epoch)
      × (m.delegates ≡ n.delegates)
unfolding trust_bytes
trust_bytes_inj m n hm hn e =
    let domain = codes "AEVUM_TRUST_ROOT_V6" in
    let t0 = (append_inj domain domain refl e).1 in
    let (e1, t1) = le_field 2 m.trust_version n.trust_version (omega arith) (omega arith) t0 in
    let (e2, t2) = u64_field m.current_epoch n.current_epoch hm.current_epoch hn.current_epoch t1 in
    let same : flat array_bytes m.delegates ≡ flat array_bytes n.delegates =
      sym (append-nil _) ∙ t2 ∙ append-nil _ in
    let count : length m.delegates ≡ length n.delegates =
      omega
        (arith, ap length same, length-flat_arrays m.delegates, length-flat_arrays n.delegates) in
    let (e3, _) =
      flat_field array_bytes (λ x. x) IsWord32 32 length-array_bytes array_bytes_inj m.delegates
        n.delegates count hm.delegates hn.delegates t2 in
    (e1, e2, sym (map_id m.delegates) ∙ e3 ∙ map_id n.delegates)

-- Two models within the ranges of their types whose computed trust roots agree have one version,
-- one epoch and the same delegates, or the bytes that are hashed for the two
-- differ and have one digest.
pub computed_root-binds :
    (c : Crypto) (m n : TrustModel)
    → IsModel m
    → IsModel n
    → computed_root c m ≡ computed_root c n
    → ((m.trust_version ≡ n.trust_version)
        × (m.current_epoch ≡ n.current_epoch)
        × (m.delegates ≡ n.delegates))
      ⊎ Clash c (trust_bytes m) (trust_bytes n)
unfolding computed_root
computed_root-binds c m n hm hn h = elim (digest_binds c (trust_bytes m) (trust_bytes n) h) [
  | inl same ↦ inl (trust_bytes_inj m n hm hn same)
  | inr clash ↦ inr clash
]
