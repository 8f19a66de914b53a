-- ===== src/P2p/Peers/Calls.antt =====
-- crates/aevum-p2p/src/peers.rs: any sequence of calls, and what it leaves.
use aevum_public.Base.{
  ℕ, ◌+◌, ◌^◌, ◌≤◌, ◌<◌, ◌≡◌, refl, sym, ap, ◌∙◌, subst, Bool, some, List, [], ◌∷◌, length,
  IsDistinct, arith, Option-cases, inl, inr,
}
use aevum_public.Base.Map.{Map, lookup, insert, keys}
use aevum_public.Base.Keys.{insert-IsDistinct}
use aevum_public.P2p.Peers.{
  PeerState, PeersManager, new_manager, update_peer_height, mark_connected, mark_connect_failed,
  try_reserve_outbound_slot, register_peer, remove_peer, remove_all, dead_ids, broadcast, send_to,
  add_known_address, count_message,
}
use aevum_public.P2p.Peers.Counting.{total, total-insert, total-remove, count_at}
use aevum_public.P2p.Peers.Counters.{
  one, outbound, on_ip, IsCounted, new_manager-IsCounted, register_peer-IsCounted,
  remove_peer-IsCounted,
}

-- A call, with the times at which it is made, and what the channels answer.
pub data PeerCall : Type 0 where
  register : ℕ → ℕ → ℕ → Bool → ℕ → ℕ → PeerCall
  removal : ℕ → PeerCall
  sending : (ℕ → Bool) → ℕ → ℕ → PeerCall
  broadcasting : (ℕ → Bool) → PeerCall
  height : ℕ → ℕ → PeerCall
  good : ℕ → ℕ → PeerCall
  failed : ℕ → ℕ → PeerCall
  reserve : ℕ → ℕ → PeerCall
  known : ℕ → ℕ → PeerCall

module _ (ip : ℕ → ℕ) where
  unfoldable pub step : PeerCall → PeersManager → PeersManager
  step (register id addr tx b now secs) s = register_peer ip id addr tx b now secs s
  step (removal id) s = remove_peer ip id s
  step (sending accepts id now) s = (send_to accepts id now s).1
  step (broadcasting is_closed) s = broadcast ip is_closed s
  step (height id h) s = update_peer_height id h s
  step (good id secs) s = mark_connected id secs s
  step (failed addr now) s = mark_connect_failed addr now s
  step (reserve addr now) s = (try_reserve_outbound_slot addr now s).1
  step (known addr secs) s = add_known_address addr secs s

  unfoldable pub run : List PeerCall → PeersManager → PeersManager
  run [] s = s
  run (c ∷ cs) s = run cs (step c s)

  -- An entry that is written over with the same address and direction changes no count.
  rewrite-IsCounted :
      (id : ℕ) (p q : PeerState) (s : PeersManager)
      → lookup id s.peers ≡ some p
      → (q.addr ≡ p.addr) × (q.is_outbound ≡ p.is_outbound)
      → IsCounted ip s
      → IsCounted ip (record s { peers = insert id q s.peers })
  rewrite-IsCounted id p q s e same h = record {
    distinct = insert-IsDistinct id q s.peers h.distinct;
    connected = ground (arith, e, h.connected, total-insert one id q s.peers);
    outbounds = ground (arith, e, same, h.outbounds, total-insert outbound id q s.peers);
    ips = λ a. ground (arith, e, same, h.ips a, total-insert (on_ip ip a) id q s.peers);
  }

  count_message-same :
      (now : ℕ) (p : PeerState)
      → ((count_message now p).1.addr ≡ p.addr)
        × ((count_message now p).1.is_outbound ≡ p.is_outbound)
  unfolding count_message
  count_message-same now p = ground arith

  send_to-IsCounted :
      (accepts : ℕ → Bool) (id now : ℕ) (s : PeersManager)
      → IsCounted ip s
      → IsCounted ip (send_to accepts id now s).1
  unfolding send_to
  send_to-IsCounted accepts id now s h = elim (Option-cases (lookup id s.peers)) [
    | inl e ↦ rw (e, send_to) h
    | inr k ↦
        let q = (count_message now k.0).1 in
        rw (k.1, send_to) (rewrite-IsCounted id k.0 q s k.1 (count_message-same now k.0) h)
  ]

  update_peer_height-IsCounted :
      (id n : ℕ) (s : PeersManager) → IsCounted ip s → IsCounted ip (update_peer_height id n s)
  unfolding update_peer_height
  update_peer_height-IsCounted id n s h = elim (Option-cases (lookup id s.peers)) [
    | inl e ↦ rw (e, update_peer_height) h
    | inr k ↦ rw (k.1, update_peer_height) (rewrite-IsCounted id k.0 _ s k.1 (refl, refl) h)
  ]

  remove_peer-fewer :
      (id : ℕ) (s : PeersManager)
      → IsCounted ip s
      → total one (remove_peer ip id s).peers ≤ total one s.peers
  unfolding remove_peer
  remove_peer-fewer id s h = ground (arith, total-remove one id s.peers h.distinct)

  remove_all-IsCounted :
      (ids : List ℕ) (s : PeersManager)
      → total one s.peers < 2 ^ 64
      → IsCounted ip s
      → IsCounted ip (remove_all ip ids s)
        × (total one (remove_all ip ids s).peers ≤ total one s.peers)
  unfolding remove_all
  remove_all-IsCounted [] s fits h = (h, omega arith)
  remove_all-IsCounted (id ∷ ids) s fits h =
      let fewer = remove_peer-fewer id s h in
      let r =
        remove_all-IsCounted ids (remove_peer ip id s) (omega (arith, fewer))
          (remove_peer-IsCounted ip id s fits h) in
      (r.0, omega (arith, fewer, r.1))

  -- The count that is kept bounds the peers.
  counted :
      (s t : PeersManager)
      → IsCounted ip s
      → IsCounted ip t
      → t.connected_count ≤ s.connected_count + 1
      → IsCounted ip t × (total one t.peers ≤ total one s.peers + 1)
  counted s t h k fewer = (k, omega (arith, h.connected, k.connected, fewer))

  register_peer-connected :
      (id addr tx : ℕ) (b : Bool) (now secs : ℕ) (s : PeersManager)
      → (register_peer ip id addr tx b now secs s).connected_count ≤ s.connected_count + 1
  unfolding register_peer
  register_peer-connected id addr tx b now secs s = ground arith

  send_to-connected :
      (accepts : ℕ → Bool) (id now : ℕ) (s : PeersManager)
      → (send_to accepts id now s).1.connected_count ≡ s.connected_count
  unfolding send_to
  send_to-connected accepts id now s = ground arith

  update_peer_height-connected :
      (id n : ℕ) (s : PeersManager)
      → (update_peer_height id n s).connected_count ≡ s.connected_count
  unfolding update_peer_height
  update_peer_height-connected id n s = ground arith

  -- A reservation touches neither the peers nor what is counted of them.
  try_reserve-same :
      (addr now : ℕ) (s : PeersManager)
      → let t = (try_reserve_outbound_slot addr now s).1 in
        (t.peers ≡ s.peers)
        × (t.connected_count ≡ s.connected_count)
        × (t.outbound_count ≡ s.outbound_count)
        × (t.ip_connections ≡ s.ip_connections)
  unfolding try_reserve_outbound_slot
  try_reserve-same addr now s = (ground arith, ground arith, ground arith, ground arith)

  moved :
      (s t : PeersManager)
      → IsCounted ip s
      → (t.peers ≡ s.peers)
        × (t.connected_count ≡ s.connected_count)
        × (t.outbound_count ≡ s.outbound_count)
        × (t.ip_connections ≡ s.ip_connections)
      → IsCounted ip t
  moved s t h same = record {
    distinct = subst (λ (m : Map PeerState). IsDistinct (keys m)) (sym same.0) h.distinct;
    connected = same.1 ∙ h.connected ∙ ap (λ m. total one m) (sym same.0);
    outbounds = same.2 ∙ h.outbounds ∙ ap (λ m. total outbound m) (sym same.0);
    ips =
        λ a. ap (λ m. count_at a m) same.3 ∙ h.ips a ∙ ap (λ m. total (on_ip ip a) m) (sym same.0);
  }

  -- A call leaves the counters right, and at most one peer more.
  step-IsCounted :
      (c : PeerCall) (s : PeersManager)
      → total one s.peers + 1 < 2 ^ 64
      → IsCounted ip s
      → IsCounted ip (step c s) × (total one (step c s).peers ≤ total one s.peers + 1)
  unfolding step broadcast mark_connected mark_connect_failed add_known_address
  step-IsCounted (register id addr tx b now secs) s fits h =
      counted s (register_peer ip id addr tx b now secs s) h
        (register_peer-IsCounted ip id addr tx b now secs s fits h)
        (register_peer-connected id addr tx b now secs s)
  step-IsCounted (removal id) s fits h =
      (remove_peer-IsCounted ip id s (omega arith) h, omega (arith, remove_peer-fewer id s h))
  step-IsCounted (sending accepts id now) s fits h =
      counted s (send_to accepts id now s).1 h (send_to-IsCounted accepts id now s h)
        (omega (arith, send_to-connected accepts id now s))
  step-IsCounted (broadcasting is_closed) s fits h =
      let r = remove_all-IsCounted (dead_ids ip is_closed s.peers) s (omega arith) h in
      (r.0, omega (arith, r.1))
  step-IsCounted (height id n) s fits h =
      counted s (update_peer_height id n s) h (update_peer_height-IsCounted id n s h)
        (omega (arith, update_peer_height-connected id n s))
  step-IsCounted (good id secs) s fits h =
      counted s _ h (moved s _ h (refl, refl, refl, refl)) (omega arith)
  step-IsCounted (failed addr now) s fits h =
      counted s _ h (moved s _ h (refl, refl, refl, refl)) (omega arith)
  step-IsCounted (reserve addr now) s fits h =
      let same = try_reserve-same addr now s in
      counted s (try_reserve_outbound_slot addr now s).1 h
        (moved s (try_reserve_outbound_slot addr now s).1 h same) (omega (arith, same.1))
  step-IsCounted (known addr secs) s fits h =
      counted s _ h (moved s _ h (refl, refl, refl, refl)) (omega arith)

  run-from :
      (cs : List PeerCall) (s : PeersManager)
      → total one s.peers + length cs < 2 ^ 64
      → IsCounted ip s
      → IsCounted ip (run cs s)
  unfolding run
  run-from [] s few h = h
  run-from (c ∷ cs) s few h =
      let r = step-IsCounted c s (omega arith) h in run-from cs (step c s) (omega (arith, r.1)) r.0

  -- After any calls on a new manager, fewer than 2 ^ 64 of them, the counters say how many peers
  -- there are, how many of them are outbound and how many have each address, with one entry for
  -- an id.
  pub run-IsCounted : (cs : List PeerCall) → length cs < 2 ^ 64 → IsCounted ip (run cs new_manager)
  run-IsCounted cs few = run-from cs new_manager (omega arith) (new_manager-IsCounted ip)
