-- ===== src/Consensus/Trust.antt =====
-- crates/aevum-consensus/src/trust.rs: the delegates, how they are added and removed, and their quorum.
-- The delegates are a strictly increasing list, as the `BTreeSet` iterates. A call that changes the
-- model returns the model that it leaves.
pub mod Authority
pub mod Reachable
use aevum_public.Base.{
  ℕ, ◌+◌, ◌*◌, ◌/◌, min, max, Bool, true, false, not, ◌||◌, List, [], ◌∷◌, ltb, leb, ◌==◌, mem,
  erase, length, if◌then◌else◌, Result, ok, err, ◌>>=◌, ◌>>◌, fail_if, saturating_add,
  saturating_mul,
}
use aevum_public.Base.Bytes.{codes, le_bytes, array_bytes, updates, flat}
use aevum_public.Base.Set.{set_insert, set_of}
use aevum_public.Crypto.{Crypto}

abbrev pub mainnet_genesis_bootstrap : ℕ
mainnet_genesis_bootstrap = 0x9e3ae8846e53f51b66edf3d9c614fc76650fa93bb91620b47c44f99679700e30

pub record TrustModel : Type 0 where
  pub trust_version : ℕ
  pub current_epoch : ℕ
  pub genesis_bootstrap : ℕ
  pub delegates : List ℕ
  pub min_quorum : ℕ
  pub max_quorum : ℕ
  pub max_delegates : ℕ
  pub trust_root : ℕ

pub data TrustError : Type 0 where
  not_authorized already_delegate delegate_limit_reached voter_not_delegate : TrustError
  no_quorum : ℕ → ℕ → TrustError

-- What `recompute_trust_root` and `verify_root` feed the hasher with.
unfoldable pub trust_bytes : TrustModel → List ℕ
trust_bytes m = updates (
    codes "AEVUM_TRUST_ROOT_V6"
    ∷ le_bytes 2 m.trust_version
    ∷ le_bytes 8 m.current_epoch
    ∷ flat array_bytes m.delegates
    ∷ [])

unfoldable pub network_size : TrustModel → ℕ
network_size m = max (length m.delegates) 1

unfoldable pub quorum : TrustModel → ℕ
quorum m = min (max (saturating_mul (network_size m) 2 / 3) m.min_quorum) m.max_quorum

unfoldable pub is_genesis : TrustModel → ℕ → Bool
is_genesis m pk = pk == m.genesis_bootstrap

unfoldable pub is_delegate : TrustModel → ℕ → Bool
is_delegate m pk = mem pk m.delegates

unfoldable pub can_endorse : TrustModel → ℕ → Bool
can_endorse m pk = is_genesis m pk || is_delegate m pk

-- `for v in &voters { if !test(v) { return Err(VoterNotDelegate); } }`
unfoldable pub check_voters : (ℕ → Bool) → List ℕ → Result TrustError (Unit {0})
check_voters test [] = ok tt
check_voters test (v ∷ vs) = do fail_if (not (test v)) voter_not_delegate; check_voters test vs

-- `endorsements.iter().collect()`, and `from` with them.
unfoldable pub voters_of : ℕ → List ℕ → List ℕ
voters_of sender endorsements = set_insert sender (set_of endorsements)

unfoldable pub can_join : TrustModel → ℕ → List ℕ → Result TrustError (Unit {0})
can_join m candidate endorsements = if is_genesis m candidate then ok tt else do
  fail_if (is_delegate m candidate) already_delegate
  check_voters (can_endorse m) (set_of endorsements)
  fail_if (ltb (length (set_of endorsements)) (quorum m))
      (no_quorum (length (set_of endorsements)) (quorum m))

module _ (c : Crypto) where
  unfoldable pub computed_root : TrustModel → ℕ
  computed_root m = c.digest (trust_bytes m)

  unfoldable pub recompute_trust_root : TrustModel → TrustModel
  recompute_trust_root m = record m { trust_root = computed_root m }

  unfoldable pub verify_root : TrustModel → Bool
  verify_root m = computed_root m == m.trust_root

  unfoldable pub default_model : TrustModel
  default_model = recompute_trust_root (record {
    trust_version = 1;
    current_epoch = 0;
    genesis_bootstrap = mainnet_genesis_bootstrap;
    delegates = [];
    min_quorum = 3;
    max_quorum = 9;
    max_delegates = 10_000;
    trust_root = 0;
  })

  -- `self.delegates.insert(*to); self.recompute_trust_root();`
  unfoldable pub admit : TrustModel → ℕ → TrustModel
  admit m pk = recompute_trust_root (record m { delegates = set_insert pk m.delegates })

  unfoldable pub new_genesis : TrustModel
  new_genesis = admit default_model mainnet_genesis_bootstrap

  unfoldable pub delegate : TrustModel → ℕ → ℕ → List ℕ → Result TrustError TrustModel
  delegate m sender to endorsements = do
    fail_if (is_delegate m to) already_delegate
    fail_if (leb m.max_delegates (length m.delegates)) delegate_limit_reached
    fail_if (not (can_endorse m sender)) not_authorized
    if is_genesis m sender then ok (admit m to) else do
      check_voters (is_delegate m) (voters_of sender endorsements)
      fail_if (ltb (length (voters_of sender endorsements)) (quorum m))
          (no_quorum (length (voters_of sender endorsements)) (quorum m))
      ok (admit m to)

  unfoldable pub revoke : TrustModel → ℕ → TrustModel × Bool
  revoke m pk =
      if is_delegate m pk
      then (recompute_trust_root (record m { delegates = erase pk m.delegates }), true)
      else (m, false)

  unfoldable pub advance_epoch : TrustModel → TrustModel
  advance_epoch m =
      recompute_trust_root (record m { current_epoch = saturating_add m.current_epoch 1 })
