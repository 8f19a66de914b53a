-- ===== src/P2p/Peers/Counters.antt =====
-- crates/aevum-p2p/src/peers.rs: the counters beside the maps.
use aevum_public.Base.{
  ℕ, ◌+◌, ◌^◌, ◌≤◌, ◌<◌, ◌≡◌, refl, Bool, ◌==◌, IsDistinct, if◌then◌else◌, arith, Option-cases, inl,
  inr,
}
use aevum_public.Base.Map.{Map, lookup, keys}
use aevum_public.Base.Keys.{insert-IsDistinct, remove-IsDistinct}
use aevum_public.P2p.Peers.{
  PeerState, connected, PeersManager, new_manager, decrement_ip, register_peer, remove_peer,
}
use aevum_public.P2p.Peers.Counting.{
  total, total-insert, total-remove, total-le, part-le_total, count_at, count_at-decrement_ip,
  count_at-increment_ip,
}

abbrev pub one : PeerState → ℕ
one p = 1

abbrev pub outbound : PeerState → ℕ
outbound p = if p.is_outbound then 1 else 0

module _ (ip : ℕ → ℕ) where
  abbrev pub on_ip : ℕ → PeerState → ℕ
  on_ip a p = if a == ip p.addr then 1 else 0

  -- The counters say how many peers there are, how many of them are outbound, and how many have
  -- each address.
  pub record IsCounted (s : PeersManager) : Type 0 where
    pub distinct : IsDistinct (keys s.peers)
    pub connected : s.connected_count ≡ total one s.peers
    pub outbounds : s.outbound_count ≡ total outbound s.peers
    pub ips : (a : ℕ) → count_at a s.ip_connections ≡ total (on_ip a) s.peers

  pub new_manager-IsCounted : IsCounted new_manager
  new_manager-IsCounted = record {
    distinct = tt;
    connected = refl;
    outbounds = refl;
    ips = λ a. refl;
  }

  on_ip_le : (a : ℕ) (m : Map PeerState) → total (on_ip a) m ≤ total one m
  on_ip_le a m = total-le (on_ip a) one m (λ p. ground arith)

  outbound_le : (m : Map PeerState) → total outbound m ≤ total one m
  outbound_le m = total-le outbound one m (λ p. ground arith)

  pub remove_peer-IsCounted :
      (id : ℕ) (s : PeersManager)
      → total one s.peers < 2 ^ 64
      → IsCounted s
      → IsCounted (remove_peer ip id s)
  unfolding remove_peer
  remove_peer-IsCounted id s fits h = elim (Option-cases (lookup id s.peers)) [
    | inl e ↦ rw (e, remove_peer) h
    | inr k ↦
        rw (k.1, remove_peer)
          (record {
            distinct = remove-IsDistinct id s.peers h.distinct;
            connected = ground (arith, k.1, h.connected, total-remove one id s.peers h.distinct);
            outbounds = ground (
              arith,
              k.1,
              h.outbounds,
              outbound_le s.peers,
              total-remove outbound id s.peers h.distinct,
            );
            ips = λ a. ground (
              arith,
              k.1,
              h.ips a,
              total-remove (on_ip a) id s.peers h.distinct,
              count_at-decrement_ip a (ip k.0.addr) s.ip_connections,
            );
          })
  ]

  pub register_peer-IsCounted :
      (id addr tx : ℕ) (is_outbound : Bool) (now now_secs : ℕ) (s : PeersManager)
      → total one s.peers + 1 < 2 ^ 64
      → IsCounted s
      → IsCounted (register_peer ip id addr tx is_outbound now now_secs s)
  unfolding register_peer
  register_peer-IsCounted id addr tx b now secs s fits h = elim (Option-cases (lookup id s.peers)) [
    | inl e ↦
        rw (e, register_peer)
          (record {
            distinct = insert-IsDistinct id fresh s.peers h.distinct;
            connected = ground (arith, e, h.connected, total-insert one id fresh s.peers);
            outbounds = ground (
              arith,
              e,
              h.outbounds,
              outbound_le s.peers,
              total-insert outbound id fresh s.peers,
            );
            ips = λ a. ground (
              arith,
              e,
              h.ips a,
              total-insert (on_ip a) id fresh s.peers,
              count_at-increment_ip a (ip addr) s.ip_connections
                  (room s.ip_connections (h.ips (ip addr))),
            );
          })
    | inr k ↦
        let less = decrement_ip (ip k.0.addr) s.ip_connections in
        let less_count = count_at-decrement_ip (ip addr) (ip k.0.addr) s.ip_connections in
        rw (k.1, register_peer)
          (record {
            distinct = insert-IsDistinct id fresh s.peers h.distinct;
            connected = ground (arith, k.1, h.connected, total-insert one id fresh s.peers);
            outbounds = ground (
              arith,
              k.1,
              h.outbounds,
              outbound_le s.peers,
              part-le_total outbound id s.peers,
              total-insert outbound id fresh s.peers,
            );
            ips = λ a. ground (
              arith,
              k.1,
              h.ips a,
              part-le_total (on_ip a) id s.peers,
              total-insert (on_ip a) id fresh s.peers,
              count_at-decrement_ip a (ip k.0.addr) s.ip_connections,
              count_at-increment_ip a (ip addr) less
                  (omega (arith, less_count, room s.ip_connections (h.ips (ip addr)))),
            );
          })
  ]
    where
      fresh : PeerState
      fresh = record {
        tx = tx;
        addr = addr;
        peer_height = 0;
        msg_count = 0;
        last_reset = now;
        connected_at = now;
        is_outbound = b;
        state = connected;
      }

      room :
          (m : Map ℕ)
          → count_at (ip addr) m ≡ total (on_ip (ip addr)) s.peers
          → count_at (ip addr) m + 1 < 2 ^ 64
      room m e = omega (arith, e, on_ip_le (ip addr) s.peers)
