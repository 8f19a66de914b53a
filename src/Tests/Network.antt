-- ===== src/Tests/Network.antt =====
-- The Bloom filter, the registry of peers and the table of nodes at a few calls.
use aevum_public.Base.{
  ◌⊎◌, All, length, ℕ, ◌+◌, ◌-◌, ◌*◌, ◌/◌, ◌≤◌, ◌≡◌, refl, true, false, some, List, [], ◌∷◌, ◌++◌,
  arith,
}
use aevum_public.Db.Bloom.{BloomFilter, add_all, may_contain, to_bytes, from_bytes}
use aevum_public.Db.Bloom.Members.{add_all-may_contain}
use aevum_public.Db.Bloom.Saved.{from_bytes-may_contain}
use aevum_public.P2p.Peers.{
  PeersManager, PeerState, new_manager, get_node_id, get_addr_by_node_id, register_peer,
  rate_limit_per_sec, try_reserve_outbound_slot, connected, retain_recent, remove_peer, send_to,
  update_peer_height, decrement_ip, increment_ip, count_message,
}
use aevum_public.P2p.Peers.Counters.{IsCounted}
use aevum_public.P2p.Peers.Calls.{
  PeerCall, register, removal, sending, height, failed, reserve, run, step, run-IsCounted,
}
use aevum_public.P2p.Peers.Rates.{messages, messages-rate_limited}
use aevum_public.P2p.Peers.Limits.{try_reserve-retry}
use aevum_public.P2p.Peers.Naming.{run-IsNamed}
use aevum_public.P2p.Dht.{
  DhtNode, retain, bucket_at, Dht, new_dht, find_closest, distance_key, is_alive,
}
use aevum_public.P2p.Dht.Calls.{DhtCall, adding, cleaning, dht_run, dht_run-IsTable}
use aevum_public.P2p.Dht.Table.{IsTable}
use aevum_public.P2p.Dht.Reached.{Holds}
use aevum_public.P2p.Dht.Closest.{IsOrdered, find_closest-returns}

-- A hash of numbers, and a filter of two words with three hashes.
abbrev hash_key : ℕ → ℕ → ℕ
hash_key key seed = key * 31 + seed

abbrev two_words : BloomFilter
two_words = record { bits = 0 ∷ 0 ∷ []; num_hashes = 3; count = 0 }

add_all-may_contain_example :
    may_contain hash_key 5 (add_all hash_key ((4 ∷ []) ++ 5 ∷ 6 ∷ []) two_words) ≡ true
add_all-may_contain_example =
    add_all-may_contain hash_key (4 ∷ []) (6 ∷ []) 5 two_words (omega arith, omega arith)

from_bytes-may_contain_example :
    (g : BloomFilter) × (from_bytes (to_bytes (add_all hash_key ((4 ∷ []) ++ 5 ∷ 6 ∷ []) two_words))
      ≡ some g)
    × (may_contain hash_key 5 g ≡ true)
from_bytes-may_contain_example =
    from_bytes-may_contain hash_key (4 ∷ []) (6 ∷ []) 5 two_words
      (omega arith, (omega arith, (omega arith, tt)), omega arith, omega arith)

-- A socket address has its port in the last two digits.
abbrev ip : ℕ → ℕ
ip addr = addr / 100

abbrev calls : List PeerCall
calls =
    register 1 501 8 true 10 1
    ∷ register 2 502 9 false 20 2
    ∷ register 1 601 8 false 30 3
    ∷ sending (λ c. true) 1 40
    ∷ height 2 7
    ∷ removal 2
    ∷ []

run-IsCounted_example : IsCounted ip (run ip calls new_manager)
run-IsCounted_example = run-IsCounted ip calls (omega arith)

program : Unit {0}
unfolding run step register_peer remove_peer send_to update_peer_height get_node_id decrement_ip
    increment_ip count_message try_reserve_outbound_slot retain_recent
program = tt

by_address : get_node_id 601 (run ip calls new_manager) ≡ some 1
unfolding program
by_address = refl

run-IsNamed_example : get_addr_by_node_id 1 (run ip calls new_manager) ≡ some 601
run-IsNamed_example = run-IsNamed ip calls 601 1 by_address

abbrev peer_one : PeerState
peer_one = record {
  tx = 8;
  addr = 601;
  peer_height = 0;
  msg_count = 1;
  last_reset = 30;
  connected_at = 30;
  is_outbound = false;
  state = connected;
}

abbrev registry : PeersManager
registry = record new_manager { peers = (1, peer_one) ∷ [] }

abbrev traffic : List PeerCall
traffic =
    sending (λ c. true) 1 50
    ∷ height 1 9
    ∷ register 2 701 9 true 55 60
    ∷ sending (λ c. true) 1 60
    ∷ removal 1
    ∷ []

messages-rate_limited_example : messages ip 1 traffic registry ≤ rate_limit_per_sec - 1
messages-rate_limited_example =
    messages-rate_limited ip 1 traffic registry peer_one refl
      ((λ _. omega arith), (tt, ((λ e. ground arith), ((λ _. omega arith), (tt, tt)))))

got_slot : (try_reserve_outbound_slot 701 5 registry).0 ≡ true
unfolding program
got_slot = refl

try_reserve-retry_example :
    (try_reserve_outbound_slot 701 1000 (
      run ip
        (failed 701 6 ∷ removal 1 ∷ reserve 702 7 ∷ [])
        (try_reserve_outbound_slot 701 5 registry).1)).0
    ≡ false
try_reserve-retry_example =
    try_reserve-retry ip 701 5 1000 (failed 701 6 ∷ removal 1 ∷ reserve 702 7 ∷ []) registry
      got_slot ((omega arith, omega arith), (tt, ((omega arith, omega arith), tt))) (omega arith)

abbrev dht_calls : List DhtCall
dht_calls = adding 9 501 10 ∷ adding 12 502 11 ∷ adding 9 503 12 ∷ cleaning 20 10 ∷ []

dht_run-IsTable_example : IsTable (dht_run dht_calls (new_dht 3))
dht_run-IsTable_example = dht_run-IsTable dht_calls 3

abbrev table : Dht
table = dht_run dht_calls (new_dht 3)

find_closest-returns_example :
    (found : List DhtNode) × (find_closest 8 2 20 10 table ≡ some found)
    × (length found ≤ 2)
    × All (λ n. (is_alive 20 10 n ≡ true) × ((j : ℕ) × Holds n (bucket_at j table.buckets))) found
    × IsOrdered (distance_key 8) found
    × All
        (λ n. (length found ≡ 2) ⊎ Holds n found)
        (retain (is_alive 20 10) (bucket_at 255 table.buckets))
find_closest-returns_example = find_closest-returns 8 2 20 10 table 255 (omega arith)
