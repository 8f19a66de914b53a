-- ===== src/Core/DnaRange.antt =====
-- crates/aevum-core/src/dna_range.rs: ranges of satoshis, their splits, and their lineage.
-- `Hash` and 32-byte keys are numbers; `+` and `-` of `u64` wrap round, as in a release build.
pub mod Splitting
pub mod Provenance
use Prim.Native.String.{String}
use aevum_public.Base.{
  ℕ, ◌+◌, ◌-◌, ◌*◌, ◌%◌, ◌^◌, Bool, true, false, not, ◌&&◌, ◌||◌, Option, none, some, List, [], ◌∷◌,
  ltb, leb, ◌==◌, if◌then◌else◌, Result, ok, err, ◌>>=◌, ◌>>◌, fail_if, wrapping_add, wrapping_sub,
  wrapping_mul,
}
use aevum_public.Base.Bytes.{codes, le_bytes, array_bytes, updates}
use aevum_public.Crypto.{Crypto}

abbrev pub satoshis_per_aev : ℕ
satoshis_per_aev = 100_000_000

abbrev pub genesis_supply : ℕ
genesis_supply = 21_000_000 * satoshis_per_aev

-- The epoch and the event of the emission.
pub data DnaOrigin : Type 0 where
  genesis : DnaOrigin
  epoch_mining : ℕ → ℕ → DnaOrigin
  epoch_remainder : ℕ → ℕ → DnaOrigin

unfoldable pub origin_bytes : DnaOrigin → List ℕ
origin_bytes genesis = 0 ∷ []
origin_bytes (epoch_mining epoch event_id) =
    updates ((1 ∷ []) ∷ le_bytes 8 epoch ∷ array_bytes event_id ∷ [])
origin_bytes (epoch_remainder epoch event_id) =
    updates ((2 ∷ []) ∷ le_bytes 8 epoch ∷ array_bytes event_id ∷ [])

unfoldable pub epoch_of : DnaOrigin → Option ℕ
epoch_of genesis = none
epoch_of (epoch_mining epoch event_id) = some epoch
epoch_of (epoch_remainder epoch event_id) = some epoch

pub data DnaLayer : Type 0 where
  l1 l2 : DnaLayer

pub record DnaRange : Type 0 where
  pub range_id : ℕ
  pub root_id : ℕ
  pub origin : DnaOrigin
  pub start : ℕ
  pub end : ℕ
  pub layer : DnaLayer
  pub birth_epoch : ℕ
  pub birth_height : ℕ
  pub birth_timestamp : ℕ
  pub miner : ℕ
  pub parent_range_id : Option ℕ
  pub bridge_tx : Option ℕ
  pub creation_tx : Option ℕ
  pub owner : ℕ
  pub transfer_count : ℕ
  pub last_transfer_block : ℕ
  pub proof : ℕ

-- `if let Some(p) = o { h.update(p.as_bytes()); }`
unfoldable pub option_bytes : Option ℕ → List ℕ
option_bytes none = []
option_bytes (some h) = array_bytes h

unfoldable pub id_bytes : DnaRange → List ℕ
id_bytes r = updates (
    codes "AEVUM_DNA_RANGE_V4"
    ∷ codes "ID"
    ∷ array_bytes r.root_id
    ∷ option_bytes r.parent_range_id
    ∷ le_bytes 8 r.start
    ∷ le_bytes 8 r.end
    ∷ [])

unfoldable pub proof_bytes : DnaRange → List ℕ
proof_bytes r = updates (
    codes "AEVUM_DNA_RANGE_V4"
    ∷ codes "PROOF"
    ∷ origin_bytes r.origin
    ∷ array_bytes r.root_id
    ∷ le_bytes 8 r.start
    ∷ le_bytes 8 r.end
    ∷ le_bytes 8 r.birth_epoch
    ∷ le_bytes 8 r.birth_height
    ∷ option_bytes r.parent_range_id
    ∷ option_bytes r.bridge_tx
    ∷ array_bytes r.owner
    ∷ [])

unfoldable pub amount : DnaRange → ℕ
amount r = wrapping_add (wrapping_sub r.end r.start) 1

unfoldable pub contains : DnaRange → ℕ → Bool
contains r s = leb r.start s && leb s r.end

unfoldable pub verify_split : DnaRange → DnaRange → DnaRange → Bool
verify_split parent a b =
    a.start == parent.start
    && (b.end == parent.end
        && (wrapping_add a.end 1 == b.start && amount parent == wrapping_add (amount a) (amount b)))

abbrev pub option_eq : Option ℕ → ℕ → Bool
option_eq none h = false
option_eq (some p) h = p == h

unfoldable pub verify_lineage : DnaRange → DnaRange → Bool
verify_lineage parent child =
    option_eq child.parent_range_id parent.range_id && child.root_id == parent.root_id

module _ (c : Crypto) where
  unfoldable pub id : DnaRange → ℕ
  id r = c.digest (id_bytes r)

  unfoldable pub hash : DnaRange → ℕ
  hash r = c.digest (proof_bytes r)

  -- `r.range_id = r.id(); r.proof = r.hash();`
  unfoldable pub seal_range : DnaRange → DnaRange
  seal_range r =
      let named : DnaRange = record r { range_id = id r } in record named { proof = hash named }

  unfoldable pub new_epoch : ℕ → DnaOrigin → ℕ → ℕ → ℕ → ℕ → ℕ → ℕ → ℕ → DnaRange
  new_epoch root_id origin start end epoch height timestamp miner owner = seal_range (record {
    range_id = 0;
    root_id = root_id;
    origin = origin;
    start = start;
    end = end;
    layer = l1;
    birth_epoch = epoch;
    birth_height = height;
    birth_timestamp = timestamp;
    miner = miner;
    parent_range_id = none;
    bridge_tx = none;
    creation_tx = none;
    owner = owner;
    transfer_count = 0;
    last_transfer_block = height;
    proof = 0;
  })

  unfoldable pub new_genesis_range : ℕ → ℕ → ℕ → ℕ → DnaRange
  new_genesis_range root_id owner height timestamp = seal_range (record {
    range_id = 0;
    root_id = root_id;
    origin = genesis;
    start = 0;
    end = genesis_supply - 1;
    layer = l1;
    birth_epoch = 0;
    birth_height = height;
    birth_timestamp = timestamp;
    miner = 0;
    parent_range_id = none;
    bridge_tx = none;
    creation_tx = none;
    owner = owner;
    transfer_count = 0;
    last_transfer_block = height;
    proof = 0;
  })

  unfoldable pub child : DnaRange → ℕ → ℕ → ℕ → ℕ → ℕ → DnaRange
  child r start end owner tx block = seal_range (record r {
    range_id = 0;
    start = start;
    end = end;
    parent_range_id = some r.range_id;
    creation_tx = some tx;
    owner = owner;
    transfer_count = (r.transfer_count + 1) % 2 ^ 32;
    last_transfer_block = block;
    proof = 0;
  })

  unfoldable pub split : DnaRange → ℕ → ℕ → ℕ → ℕ → ℕ → Result String (DnaRange × DnaRange)
  split r point left right tx block = do
    fail_if (leb point r.start || ltb r.end point) "invalid split"
    let a = child r r.start (point - 1) left tx block
    let b = child r point r.end right tx block
    fail_if (not (verify_split r a b)) "supply violation"
    ok (a, b)

  unfoldable pub bridge_to_l2 : DnaRange → ℕ → DnaRange
  bridge_to_l2 r bridge = seal_range (record r { layer = l2; bridge_tx = some bridge })

  unfoldable pub verify_range : DnaRange → Bool
  verify_range r = r.range_id == id r && (r.proof == hash r && leb r.start r.end)

  unfoldable pub emission_event : ℕ → ℕ → ℕ → ℕ → ℕ
  emission_event epoch height reward participants = c.digest (
      updates (
        codes "AEVUM_EMISSION_V4"
        ∷ le_bytes 8 epoch
        ∷ le_bytes 8 height
        ∷ le_bytes 8 reward
        ∷ le_bytes 8 participants
        ∷ []))

unfoldable pub aev_to_satoshi : ℕ → ℕ
aev_to_satoshi v = wrapping_mul v satoshis_per_aev
