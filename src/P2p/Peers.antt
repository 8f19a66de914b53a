-- ===== src/P2p/Peers.antt =====
-- crates/aevum-p2p/src/peers.rs: the registry of peers. Each method is one step on the state: its
-- maps are `DashMap`s, its counters atomics, which wrap round at 2 ^ 64. Times are in nanoseconds and
-- arguments, `ip` gives the address part of a socket address, a channel is a number, and what the
-- storage of peers is asked to write is listed, the last call first.
pub mod Counting
pub mod Counters
pub mod Calls
pub mod Limits
pub mod Rates
pub mod Naming
use aevum_public.Base.{
  ℕ, ◌+◌, ◌-◌, ◌*◌, ◌^◌, max, min, Bool, true, false, not, ◌||◌, Option, none, some, List, [], ◌∷◌,
  map, ltb, leb, ◌==◌, length, take, if◌then◌else◌, wrapping_add, wrapping_sub,
}
use aevum_public.Base.Map.{Map, lookup, insert, remove, contains_key, keys, value_or}

abbrev pub max_peers : ℕ
max_peers = 1000

abbrev pub max_outbound : ℕ
max_outbound = 32

abbrev pub max_connecting : ℕ
max_connecting = 8

abbrev pub max_per_ip : ℕ
max_per_ip = 4

abbrev pub rate_limit_per_sec : ℕ
rate_limit_per_sec = 100

abbrev pub second : ℕ
second = 10 ^ 9

abbrev pub connect_retry : ℕ
connect_retry = 30 * 10 ^ 9

abbrev pub attempt_ttl : ℕ
attempt_ttl = 600 * 10 ^ 9

pub data ConnectionState : Type 0 where
  connecting connected : ConnectionState

pub record PeerState : Type 0 where
  pub tx : ℕ
  pub addr : ℕ
  pub peer_height : ℕ
  pub msg_count : ℕ
  pub last_reset : ℕ
  pub connected_at : ℕ
  pub is_outbound : Bool
  pub state : ConnectionState

pub data StorageCall : Type 0 where
  save_peer_address_indexed : ℕ → ℕ → StorageCall
  update_reputation : ℕ → ℕ → ℕ → StorageCall

pub record PeersManager : Type 0 where
  pub peers : Map PeerState
  pub addr_to_peer : Map ℕ
  pub ip_connections : Map ℕ
  pub last_connect_attempt : Map ℕ
  pub connected_count : ℕ
  pub outbound_count : ℕ
  pub connecting_count : ℕ
  pub storage : List StorageCall

abbrev pub new_manager : PeersManager
new_manager = record {
  peers = [];
  addr_to_peer = [];
  ip_connections = [];
  last_connect_attempt = [];
  connected_count = 0;
  outbound_count = 0;
  connecting_count = 0;
  storage = [];
}

unfoldable pub decrement_ip : ℕ → Map ℕ → Map ℕ
decrement_ip ip m = elim (lookup ip m) [
  | none ↦ m
  | some v ↦ let m' = insert ip (v - 1) m in if v - 1 == 0 then remove ip m' else m'
]

-- `*entry(ip).or_insert(0) += 1`
unfoldable pub increment_ip : ℕ → Map ℕ → Map ℕ
increment_ip ip m = insert ip (wrapping_add (value_or (lookup ip m) 0) 1) m

-- `fetch_sub(1)` and `fetch_add(1)` under `if outbound`.
abbrev pub sub_if : Bool → ℕ → ℕ
sub_if b n = if b then wrapping_sub n 1 else n

abbrev pub add_if : Bool → ℕ → ℕ
add_if b n = if b then wrapping_add n 1 else n

unfoldable pub get_node_id : ℕ → PeersManager → Option ℕ
get_node_id addr s = lookup addr s.addr_to_peer

unfoldable pub get_addr_by_node_id : ℕ → PeersManager → Option ℕ
get_addr_by_node_id id s = elim (lookup id s.peers) [ none ↦ none | some p ↦ some p.addr ]

unfoldable pub update_peer_height : ℕ → ℕ → PeersManager → PeersManager
update_peer_height id height s = elim (lookup id s.peers) [
  | none ↦ s
  | some p ↦ record s {
    peers = insert id (record p { peer_height = max p.peer_height height }) s.peers;
  }
]

unfoldable pub get_peer_height : ℕ → PeersManager → ℕ
get_peer_height id s = elim (lookup id s.peers) [ none ↦ 0 | some p ↦ p.peer_height ]

unfoldable pub mark_connected : ℕ → ℕ → PeersManager → PeersManager
mark_connected id now_secs s = record s { storage = update_reputation id 10 now_secs ∷ s.storage }

unfoldable pub mark_connect_failed : ℕ → ℕ → PeersManager → PeersManager
mark_connect_failed addr now s = record s {
  last_connect_attempt = insert addr now s.last_connect_attempt;
  connecting_count = s.connecting_count - 1;
}

-- `retain(|_, t| t.elapsed() < ATTEMPT_TTL)`
unfoldable pub retain_recent : ℕ → Map ℕ → Map ℕ
retain_recent now [] = []
retain_recent now ((addr, t) ∷ m) =
    let rest = retain_recent now m in if ltb (now - t) attempt_ttl then (addr, t) ∷ rest else rest

abbrev pub tried_recently : ℕ → Option ℕ → Bool
tried_recently now none = false
tried_recently now (some t) = ltb (now - t) connect_retry

unfoldable pub try_reserve_outbound_slot : ℕ → ℕ → PeersManager → Bool × PeersManager
try_reserve_outbound_slot addr now s =
    if leb max_outbound s.outbound_count
    then (false, s)
    else if leb max_connecting s.connecting_count
    then (false, s)
    else (let attempts = retain_recent now s.last_connect_attempt in
        if tried_recently now (lookup addr attempts)
        then (false, record s { last_connect_attempt = attempts })
        else (
          true,
          record s {
            last_connect_attempt = insert addr now attempts;
            connecting_count = wrapping_add s.connecting_count 1;
          },
        ))

-- What `send_to` leaves of a peer at the time `now`, and whether the message may go out.
unfoldable pub count_message : ℕ → PeerState → Bool × PeerState
count_message now p =
    let q =
      if leb second (now - p.last_reset) then record p { msg_count = 0; last_reset = now } else p in
    if leb rate_limit_per_sec q.msg_count
    then (false, q)
    else (true, record q { msg_count = q.msg_count + 1 })

module _ (ip : ℕ → ℕ) where
  unfoldable pub can_accept : ℕ → PeersManager → Bool
  can_accept addr s =
      if leb max_peers s.connected_count
      then false
      else elim (lookup (ip addr) s.ip_connections) [ none ↦ true | some v ↦ ltb v max_per_ip ]

  unfoldable pub register_peer : ℕ → ℕ → ℕ → Bool → ℕ → ℕ → PeersManager → PeersManager
  register_peer id addr tx is_outbound now now_secs s =
      let state : PeerState = record {
        tx = tx;
        addr = addr;
        peer_height = 0;
        msg_count = 0;
        last_reset = now;
        connected_at = now;
        is_outbound = is_outbound;
        state = connected;
      } in
      let inserted = record s { peers = insert id state s.peers } in
      let replaced : PeersManager = elim (lookup id s.peers) [
        | some old ↦ record inserted {
          addr_to_peer = remove old.addr s.addr_to_peer;
          ip_connections = decrement_ip (ip old.addr) s.ip_connections;
          outbound_count = sub_if old.is_outbound s.outbound_count;
        }
        | none ↦ record inserted { connected_count = wrapping_add s.connected_count 1 }
      ] in
      record replaced {
        addr_to_peer = insert addr id replaced.addr_to_peer;
        ip_connections = increment_ip (ip addr) replaced.ip_connections;
        outbound_count = add_if is_outbound replaced.outbound_count;
        connecting_count = replaced.connecting_count - 1;
        storage = save_peer_address_indexed addr now_secs ∷ s.storage;
      }

  unfoldable pub remove_peer : ℕ → PeersManager → PeersManager
  remove_peer id s = elim (lookup id s.peers) [
    | none ↦ s
    | some p ↦ record s {
      peers = remove id s.peers;
      addr_to_peer = remove p.addr s.addr_to_peer;
      ip_connections = decrement_ip (ip p.addr) s.ip_connections;
      outbound_count = sub_if p.is_outbound s.outbound_count;
      connected_count = wrapping_sub s.connected_count 1;
    }
  ]

  -- The ids whose channel is closed, and their removal, one after another. Sending changes no state.
  unfoldable pub dead_ids : (ℕ → Bool) → Map PeerState → List ℕ
  dead_ids is_closed [] = []
  dead_ids is_closed ((id, p) ∷ m) =
      let rest = dead_ids is_closed m in if is_closed p.tx then id ∷ rest else rest

  unfoldable pub remove_all : List ℕ → PeersManager → PeersManager
  remove_all [] s = s
  remove_all (id ∷ ids) s = remove_all ids (remove_peer id s)

  unfoldable pub broadcast : (ℕ → Bool) → PeersManager → PeersManager
  broadcast is_closed s = remove_all (dead_ids is_closed s.peers) s

-- `send_to`; `accepts` is what `try_send` answers for a channel.
unfoldable pub send_to : (ℕ → Bool) → ℕ → ℕ → PeersManager → Bool × PeersManager
send_to accepts id now s = elim (lookup id s.peers) [
  | none ↦ (false, s)
  | some p ↦
      let r = count_message now p in
      (if r.0 then accepts p.tx else false, record s { peers = insert id r.1 s.peers })
]

unfoldable pub add_known_address : ℕ → ℕ → PeersManager → PeersManager
add_known_address addr now_secs s = record s {
  storage = save_peer_address_indexed addr now_secs ∷ s.storage;
}

unfoldable pub connected_peer_ids : PeersManager → List ℕ
connected_peer_ids s = keys s.peers

unfoldable pub random_peers : (List ℕ → List ℕ) → ℕ → PeersManager → List ℕ
random_peers shuffle count s =
    let ids = shuffle (connected_peer_ids s) in take (min count (length ids)) ids
