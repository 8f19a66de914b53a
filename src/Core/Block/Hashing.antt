-- ===== src/Core/Block/Hashing.antt =====
-- What a block hash commits to, and which blocks carry their own hash.
use aevum_public.Base.{
  ℕ, ◌<◌, ◌≡◌, refl, ap, sym, ◌∙◌, ◌≢◌, ◌⊎◌, inl, inr, Bool, Option, none, some, List, [], ◌∷◌,
  ◌++◌, append-nil, map, arith, length, length-append, IsU64, IsWord32, ok,
}
use aevum_public.Base.Bytes.{
  codes, append_inj, u64_field, array_field, length-le_bytes, length-array_bytes,
}
use aevum_public.Crypto.{Crypto, Clash, digest_binds}
use aevum_public.Core.Merkle.{merkle_root}
use aevum_public.Core.Merkle.Binding.{merkle_root-repeat, pairs}
use aevum_public.Core.Transaction.{Transaction}
use aevum_public.Core.Block.{
  Block, BlockCandidate, StatePreview, SettlementCheckpoint, checkpoint_bytes, block_bytes,
  bool_byte, compute_hash, compute_transactions_root, seal, from_candidate, finalize_state,
}

pub record IsCheckpoint (cp : SettlementCheckpoint) : Type 0 where
  pub epoch_id : IsU64 cp.epoch_id
  pub cursor : IsU64 cp.cursor
  pub total_participants : IsU64 cp.total_participants
  pub participants_commitment : IsWord32 cp.participants_commitment

abbrev pub HasCheckpoint : Option SettlementCheckpoint → Type 0
HasCheckpoint none = Unit {0}
HasCheckpoint (some cp) = IsCheckpoint cp

-- The hashed fields have the ranges of their Rust types.
pub record IsHeader (b : Block) : Type 0 where
  pub height : IsU64 b.height
  pub prev_hash : IsWord32 b.prev_hash
  pub poh_tick_start : IsU64 b.poh_tick_start
  pub poh_tick_end : IsU64 b.poh_tick_end
  pub transactions_root : IsWord32 b.transactions_root
  pub state_root : IsWord32 b.state_root
  pub total_supply : IsU64 b.total_supply
  pub settlement_checkpoint : HasCheckpoint b.settlement_checkpoint

pub record SameHeader (a b : Block) : Type 0 where
  pub height : a.height ≡ b.height
  pub prev_hash : a.prev_hash ≡ b.prev_hash
  pub poh_tick_start : a.poh_tick_start ≡ b.poh_tick_start
  pub poh_tick_end : a.poh_tick_end ≡ b.poh_tick_end
  pub transactions_root : a.transactions_root ≡ b.transactions_root
  pub state_root : a.state_root ≡ b.state_root
  pub total_supply : a.total_supply ≡ b.total_supply
  pub is_presence_block : a.is_presence_block ≡ b.is_presence_block
  pub settlement_checkpoint : a.settlement_checkpoint ≡ b.settlement_checkpoint

length-checkpoint_bytes : (cp : SettlementCheckpoint) → length (checkpoint_bytes (some cp)) ≡ 56
unfolding checkpoint_bytes
length-checkpoint_bytes cp = simp (length-append, length-le_bytes, length-array_bytes) (omega arith)

checkpoint_inj :
    (x y : SettlementCheckpoint)
    → IsCheckpoint x
    → IsCheckpoint y
    → checkpoint_bytes (some x) ≡ checkpoint_bytes (some y)
    → x ≡ y
unfolding checkpoint_bytes
checkpoint_inj x y hx hy e =
    let (e1, t1) = u64_field x.epoch_id y.epoch_id hx.epoch_id hy.epoch_id e in
    let (e2, t2) = u64_field x.cursor y.cursor hx.cursor hy.cursor t1 in
    let (e3, t3) =
      u64_field x.total_participants y.total_participants hx.total_participants
        hy.total_participants t2 in
    let (e4, t4) =
      array_field x.participants_commitment y.participants_commitment hx.participants_commitment
        hy.participants_commitment t3 in
    λ k. record {
      epoch_id = e1 k;
      cursor = e2 k;
      total_participants = e3 k;
      participants_commitment = e4 k;
    }

checkpoint_bytes_inj :
    (x y : Option SettlementCheckpoint)
    → HasCheckpoint x
    → HasCheckpoint y
    → checkpoint_bytes x ≡ checkpoint_bytes y
    → x ≡ y
checkpoint_bytes_inj none none hx hy e = refl
checkpoint_bytes_inj none (some y) hx hy e =
    absurd (omega (arith, ap length e, length-checkpoint_bytes y, none_bytes))
  where
    none_bytes : length (checkpoint_bytes none) ≡ 0
    none_bytes = unfold checkpoint_bytes in refl
checkpoint_bytes_inj (some x) none hx hy e =
    absurd (omega (arith, ap length e, length-checkpoint_bytes x, none_bytes))
  where
    none_bytes : length (checkpoint_bytes none) ≡ 0
    none_bytes = unfold checkpoint_bytes in refl
checkpoint_bytes_inj (some x) (some y) hx hy e = ap some (checkpoint_inj x y hx hy e)

bool_byte_inj : (p q : Bool) → bool_byte p ≡ bool_byte q → p ≡ q
bool_byte_inj p q h = ground arith

block_bytes_inj :
    (a b : Block) → IsHeader a → IsHeader b → block_bytes a ≡ block_bytes b → SameHeader a b
unfolding block_bytes
block_bytes_inj a b ha hb e =
    let t0 = (append_inj (codes "AEVUM_BLOCK") (codes "AEVUM_BLOCK") refl e).1 in
    let (e1, t1) = u64_field a.height b.height ha.height hb.height t0 in
    let (e2, t2) = array_field a.prev_hash b.prev_hash ha.prev_hash hb.prev_hash t1 in
    let (e3, t3) =
      u64_field a.poh_tick_start b.poh_tick_start ha.poh_tick_start hb.poh_tick_start t2 in
    let (e4, t4) = u64_field a.poh_tick_end b.poh_tick_end ha.poh_tick_end hb.poh_tick_end t3 in
    let (e5, t5) =
      array_field a.transactions_root b.transactions_root ha.transactions_root hb.transactions_root
        t4 in
    let (e6, t6) = array_field a.state_root b.state_root ha.state_root hb.state_root t5 in
    let (e7, t7) = u64_field a.total_supply b.total_supply ha.total_supply hb.total_supply t6 in
    let (e8, t8) =
      append_inj (bool_byte a.is_presence_block ∷ []) (bool_byte b.is_presence_block ∷ []) refl
        t7 in
    let e9 : checkpoint_bytes a.settlement_checkpoint ≡ checkpoint_bytes b.settlement_checkpoint =
      sym (append-nil _) ∙ t8 ∙ append-nil _ in
    record {
      height = e1;
      prev_hash = e2;
      poh_tick_start = e3;
      poh_tick_end = e4;
      transactions_root = e5;
      state_root = e6;
      total_supply = e7;
      is_presence_block = bool_byte_inj a.is_presence_block b.is_presence_block (cc);
      settlement_checkpoint =
          checkpoint_bytes_inj a.settlement_checkpoint b.settlement_checkpoint
            ha.settlement_checkpoint hb.settlement_checkpoint e9;
    }

-- Two blocks within the ranges of their types and with one computed hash agree on height, previous
-- hash, ticks, both roots, supply, presence flag and checkpoint, or the bytes that are
-- hashed for the two differ and have one digest.
pub block_compute_hash-binds :
    (c : Crypto) (a b : Block)
    → IsHeader a
    → IsHeader b
    → compute_hash c a ≡ compute_hash c b
    → SameHeader a b ⊎ Clash c (block_bytes a) (block_bytes b)
unfolding compute_hash
block_compute_hash-binds c a b ha hb h = elim (digest_binds c (block_bytes a) (block_bytes b) h) [
  | inl same ↦ inl (block_bytes_inj a b ha hb same)
  | inr clash ↦ inr clash
]

-- A block built from a candidate carries its own hash, the root of its transactions and the state
-- of the preview; above height 0 neither its state root nor its supply is zero.
pub from_candidate-seals :
    (c : Crypto) (candidate : BlockCandidate) (preview : StatePreview) {b : Block}
    → from_candidate c candidate preview ≡ ok b
    → (b.block_hash ≡ compute_hash c b)
      × (b.transactions_root ≡ compute_transactions_root c b.transactions)
      × (b.transactions ≡ candidate.transactions)
      × (b.height ≡ candidate.height)
      × (b.state_root ≡ preview.state_root)
      × (b.total_supply ≡ preview.new_total_supply)
      × (0 < b.height → (b.state_root ≢ 0) × (b.total_supply ≢ 0))
unfolding from_candidate seal compute_hash block_bytes
from_candidate-seals c candidate preview h = (
  ground arith,
  ground arith,
  ground arith,
  ground arith,
  ground arith,
  ground arith,
  λ high. (λ z. ground arith, λ z. ground arith),
)

-- `finalize_state` leaves a block that carries its own hash, whatever hash it had before.
pub finalize_state-seals :
    (c : Crypto) (b : Block) (root supply : ℕ)
    → (finalize_state c b root supply).block_hash ≡ compute_hash c (finalize_state c b root supply)
unfolding finalize_state seal compute_hash block_bytes
finalize_state-seals c b root supply = refl

-- Pairs of transactions, as one list.
abbrev pub tx_pairs : List (Transaction × Transaction) → List Transaction
tx_pairs [] = []
tx_pairs ((s, t) ∷ ts) = s ∷ t ∷ tx_pairs ts

abbrev hash_pairs : List (Transaction × Transaction) → List (ℕ × ℕ)
hash_pairs [] = []
hash_pairs ((s, t) ∷ ts) = (s.tx_hash, t.tx_hash) ∷ hash_pairs ts

map-tx_pairs :
    (ts : List (Transaction × Transaction)) (rest : List Transaction)
    → map (λ t. t.tx_hash) (tx_pairs ts ++ rest)
      ≡ pairs (hash_pairs ts) ++ map (λ t. t.tx_hash) rest
map-tx_pairs [] rest = refl
map-tx_pairs ((s, t) ∷ ts) rest = ap (λ l. s.tx_hash ∷ t.tx_hash ∷ l) (map-tx_pairs ts rest)

-- Behind one or more pairs of transactions, giving the last transaction twice changes neither the
-- transactions root nor the block hash: two different blocks share both.
pub transactions_root-repeat :
    (c : Crypto) (b : Block) (p : Transaction × Transaction) (ts : List (Transaction × Transaction))
    (x : Transaction)
    → let once = tx_pairs (p ∷ ts) ++ x ∷ [] in
      let twice = tx_pairs (p ∷ ts) ++ x ∷ x ∷ [] in
      (compute_transactions_root c twice ≡ compute_transactions_root c once)
      × (compute_hash c (record b { transactions = twice })
          ≡ compute_hash c (record b { transactions = once }))
unfolding compute_transactions_root compute_hash block_bytes
transactions_root-repeat c b (s, t) ts x =
    let domain = codes "AEVUM_MERKLE_V15" in
    (
      ap (merkle_root c domain) (map-tx_pairs ((s, t) ∷ ts) (x ∷ x ∷ []))
          ∙ merkle_root-repeat c domain (s.tx_hash, t.tx_hash) (hash_pairs ts) x.tx_hash
          ∙ ap (merkle_root c domain) (sym (map-tx_pairs ((s, t) ∷ ts) (x ∷ []))),
      refl,
    )
