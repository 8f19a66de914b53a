-- ===== src/Consensus/Trust/Reachable.antt =====
-- The models that calls reach from the genesis model.
use aevum_public.Base.{
  ℕ, ◌≤◌, ◌<◌, ◌≡◌, true, false, List, arith, ==_refl, mem, length, ok, Bool-cases, inl, inr,
}
use aevum_public.Base.Set.{
  IsSorted, set_insert-IsSorted, length-set_insert, erase-IsSorted, length-erase,
}
use aevum_public.Crypto.{Crypto}
use aevum_public.Consensus.Trust.{
  TrustModel, trust_bytes, computed_root, recompute_trust_root, verify_root, default_model, admit,
  new_genesis, delegate, revoke, advance_epoch, is_delegate,
}
use aevum_public.Consensus.Trust.Authority.{delegate-Quorum}

-- One call that changes the model.
pub data Step (c : Crypto) : TrustModel → TrustModel → Type 0 where
  delegated :
      {m m' : TrustModel} (sender to : ℕ) (endorsements : List ℕ)
      → delegate c m sender to endorsements ≡ ok m'
      → Step c m m'
  revoked : {m : TrustModel} (pk : ℕ) → Step c m (revoke c m pk).0
  advanced : {m : TrustModel} → Step c m (advance_epoch c m)

pub data Reachable (c : Crypto) : TrustModel → Type 0 where
  start : Reachable c (new_genesis c)
  after : {m m' : TrustModel} → Reachable c m → Step c m m' → Reachable c m'

pub record IsSound (c : Crypto) (m : TrustModel) : Type 0 where
  pub ordered : IsSorted m.delegates
  pub few : length m.delegates ≤ m.max_delegates
  pub rooted : verify_root c m ≡ true

module _ (c : Crypto) where
  new_genesis-IsSound : IsSound c (new_genesis c)
  unfolding new_genesis admit default_model recompute_trust_root verify_root computed_root
      trust_bytes
  new_genesis-IsSound = record { ordered = (tt, tt); few = omega arith; rooted = ==_refl _ }

  admit-IsSound :
      (m : TrustModel) (pk : ℕ)
      → IsSound c m
      → mem pk m.delegates ≡ false
      → length m.delegates < m.max_delegates
      → IsSound c (admit c m pk)
  unfolding admit recompute_trust_root verify_root computed_root trust_bytes
  admit-IsSound m pk s new room = record {
    ordered = set_insert-IsSorted pk m.delegates s.ordered;
    few = omega (arith, length-set_insert pk m.delegates new);
    rooted = ==_refl _;
  }

  delegate-eq-admit :
      (m m' : TrustModel) (sender to : ℕ) (endorsements : List ℕ)
      → delegate c m sender to endorsements ≡ ok m'
      → m' ≡ admit c m to
  unfolding delegate
  delegate-eq-admit m m' sender to endorsements h = ground arith

  revoke-IsSound : (m : TrustModel) (pk : ℕ) → IsSound c m → IsSound c (revoke c m pk).0
  unfolding revoke recompute_trust_root verify_root computed_root trust_bytes
  revoke-IsSound m pk s = elim (Bool-cases (is_delegate m pk)) [
    | inl e ↦
        rw (e, revoke)
          (record {
            ordered = erase-IsSorted pk m.delegates s.ordered;
            few = omega (arith, s.few, length-erase pk m.delegates);
            rooted = ==_refl _;
          })
    | inr e ↦ rw (e, revoke) s
  ]

  advance_epoch-IsSound : (m : TrustModel) → IsSound c m → IsSound c (advance_epoch c m)
  unfolding advance_epoch recompute_trust_root verify_root computed_root trust_bytes
  advance_epoch-IsSound m s = record { ordered = s.ordered; few = s.few; rooted = ==_refl _ }

  Step-IsSound : (m m' : TrustModel) → IsSound c m → Step c m m' → IsSound c m'
  Step-IsSound m m' s (Step.delegated sender to endorsements h) =
      let (new, room, _, _, _) = delegate-Quorum c m m' sender to endorsements h in
      rw (delegate-eq-admit m m' sender to endorsements h) (admit-IsSound m to s new room)
  Step-IsSound m m' s (Step.revoked pk) = revoke-IsSound m pk s
  Step-IsSound m m' s (Step.advanced) = advance_epoch-IsSound m s

  -- Every model that calls of `delegate`, `revoke` and `advance_epoch` reach from the genesis model
  -- has its delegates in order and without repetition, no more of them than its limit, and a trust
  -- root that `verify_root` accepts.
  pub Reachable-IsSound : (m : TrustModel) → Reachable c m → IsSound c m
  Reachable-IsSound m (Reachable.start) = new_genesis-IsSound
  Reachable-IsSound m (Reachable.after {m = n} r s) = Step-IsSound n m (Reachable-IsSound n r) s
