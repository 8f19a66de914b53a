-- ===== src/Api/Auth.antt =====
-- crates/aevum-api/src/auth.rs: signed requests, the cache of nonces, and the service.
-- An address is the number of its public key. A queue is a list, its front first. A call returns
-- the service that it leaves beside its result.
pub mod Replay
pub mod Bounds
pub mod Payload
use aevum_public.Base.{
  ℕ, ◌+◌, ◌-◌, Bool, true, false, not, List, [], ◌∷◌, ◌++◌, ltb, leb, mem, length, sum_by,
  if◌then◌else◌, saturating_add,
}
use aevum_public.Base.Bytes.{codes, le_bytes, array_bytes, updates}
use aevum_public.Base.Map.{Map, lookup, insert, value_or}
use aevum_public.Crypto.{Crypto}

pub record SignedRequestV2 : Type 0 where
  pub body : List ℕ
  pub public_key : ℕ
  pub signature : List ℕ
  pub timestamp : ℕ
  pub nonce : ℕ
  pub chain_id : ℕ
  pub endpoint : ℕ
  pub api_version : ℕ

pub data AuthResultV2 : Type 0 where
  valid invalid_signature expired future_timestamp replay : AuthResultV2

pub record AuthConfigV2 : Type 0 where
  pub max_timestamp_drift : ℕ
  pub max_future_drift : ℕ
  pub nonce_cache_size : ℕ
  pub chain_id : ℕ

abbrev pub default_config : AuthConfigV2
default_config = record {
  max_timestamp_drift = 300;
  max_future_drift = 30;
  nonce_cache_size = 5000;
  chain_id = 1;
}

pub record NonceCache : Type 0 where
  pub queues : Map (List ℕ)
  pub max_size : ℕ

unfoldable pub new_cache : ℕ → NonceCache
new_cache max_size = record { queues = []; max_size = max_size }

-- The queue of an address, empty where there is none.
abbrev pub queue_of : NonceCache → ℕ → List ℕ
queue_of cache addr = value_or (lookup addr cache.queues) []

unfoldable pub contains : NonceCache → ℕ → ℕ → Bool
contains cache addr nonce = mem nonce (queue_of cache addr)

abbrev pub pop_front : List ℕ → List ℕ
pop_front [] = []
pop_front (x ∷ q) = q

-- `if queue.len() >= self.max_size { queue.pop_front(); } queue.push_back(nonce);`
unfoldable pub push : ℕ → ℕ → List ℕ → List ℕ
push max_size nonce q = (if leb max_size (length q) then pop_front q else q) ++ nonce ∷ []

unfoldable pub insert_nonce : NonceCache → ℕ → ℕ → NonceCache
insert_nonce cache addr nonce = record cache {
  queues = insert addr (push cache.max_size nonce (queue_of cache addr)) cache.queues;
}

pub record AuthServiceV2 : Type 0 where
  pub config : AuthConfigV2
  pub nonces : NonceCache
  pub current_time : ℕ

unfoldable pub new_service : AuthConfigV2 → AuthServiceV2
new_service config = record {
  config = config;
  nonces = new_cache config.nonce_cache_size;
  current_time = 0;
}

unfoldable pub tick : AuthServiceV2 → ℕ → AuthServiceV2
tick s time = record s { current_time = time }

-- What `build_payload` feeds the hasher with.
unfoldable pub payload_bytes : SignedRequestV2 → List ℕ
payload_bytes r = updates (
    codes "AEVUM_AUTH_V2"
    ∷ r.body
    ∷ le_bytes 8 r.timestamp
    ∷ le_bytes 8 r.nonce
    ∷ le_bytes 8 r.chain_id
    ∷ le_bytes 4 r.endpoint
    ∷ le_bytes 2 r.api_version
    ∷ [])

module _ (c : Crypto) where
  unfoldable pub build_payload : SignedRequestV2 → List ℕ
  build_payload r = array_bytes (c.digest (payload_bytes r))

  unfoldable pub verify : AuthServiceV2 → SignedRequestV2 → AuthServiceV2 × AuthResultV2
  verify s r =
      if ltb (saturating_add s.current_time s.config.max_future_drift) r.timestamp
      then (s, future_timestamp)
      else if ltb s.config.max_timestamp_drift (s.current_time - r.timestamp)
      then (s, expired)
      else if contains s.nonces r.public_key r.nonce
      then (s, replay)
      else if not (c.verify r.public_key (build_payload r) r.signature)
      then (s, invalid_signature)
      else (record s { nonces = insert_nonce s.nonces r.public_key r.nonce }, valid)

pub record AuthStatsV2 : Type 0 where
  pub tracked_senders : ℕ
  pub total_nonces : ℕ

unfoldable pub stats : AuthServiceV2 → AuthStatsV2
stats s = record {
  tracked_senders = length s.nonces.queues;
  total_nonces = sum_by (λ e. length e.1) s.nonces.queues;
}
