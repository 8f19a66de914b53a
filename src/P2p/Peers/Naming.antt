-- ===== src/P2p/Peers/Naming.antt =====
-- crates/aevum-p2p/src/peers.rs: the map from addresses to ids beside the map of peers.
use aevum_public.Base.{ℕ, ◌≡◌, refl, Bool, some, List, [], ◌∷◌, arith, Option-cases, inl, inr}
use aevum_public.Base.Map.{lookup, insert, remove, lookup-insert, lookup-remove}
use aevum_public.P2p.Peers.{
  PeerState, connected, PeersManager, new_manager, count_message, send_to,
  try_reserve_outbound_slot, register_peer, remove_peer, remove_all, broadcast, dead_ids,
  update_peer_height, get_node_id, get_addr_by_node_id, mark_connected, mark_connect_failed,
  add_known_address,
}
use aevum_public.P2p.Peers.Calls.{
  PeerCall, register, removal, sending, broadcasting, height, good, failed, reserve, known, step,
  run,
}

-- An address leads to a peer that has it.
abbrev pub IsNamed : PeersManager → Type 0
IsNamed s = (a id : ℕ) → get_node_id a s ≡ some id → get_addr_by_node_id id s ≡ some a

module _ (ip : ℕ → ℕ) where
  register_peer-IsNamed :
      (id addr tx : ℕ) (b : Bool) (now secs : ℕ) (s : PeersManager)
      → IsNamed s
      → IsNamed (register_peer ip id addr tx b now secs s)
  unfolding register_peer get_node_id get_addr_by_node_id
  register_peer-IsNamed id addr tx b now secs s h a i e = elim (Option-cases (lookup id s.peers)) [
    | inl k ↦ ground (
      arith,
      h a i,
      e,
      k,
      lookup-insert a addr id s.addr_to_peer,
      lookup-insert i id fresh s.peers,
    )
    | inr k ↦ ground (
      arith,
      h a i,
      e,
      k.1,
      lookup-insert a addr id (remove k.0.addr s.addr_to_peer),
      lookup-remove a k.0.addr s.addr_to_peer,
      lookup-insert i id fresh s.peers,
    )
  ]
    where
      fresh : PeerState
      fresh = record {
        tx = tx;
        addr = addr;
        peer_height = 0;
        msg_count = 0;
        last_reset = now;
        connected_at = now;
        is_outbound = b;
        state = connected;
      }

  remove_peer-IsNamed : (id : ℕ) (s : PeersManager) → IsNamed s → IsNamed (remove_peer ip id s)
  unfolding remove_peer get_node_id get_addr_by_node_id
  remove_peer-IsNamed id s h a i e = elim (Option-cases (lookup id s.peers)) [
    | inl k ↦ ground (arith, h a i, e, k)
    | inr k ↦
        ground (
          arith,
          h a i,
          e,
          k.1,
          lookup-remove a k.0.addr s.addr_to_peer,
          lookup-remove i id s.peers,
        )
  ]

  remove_all-IsNamed : (ids : List ℕ) (s : PeersManager) → IsNamed s → IsNamed (remove_all ip ids s)
  unfolding remove_all
  remove_all-IsNamed [] s h = h
  remove_all-IsNamed (id ∷ ids) s h =
      remove_all-IsNamed ids (remove_peer ip id s) (remove_peer-IsNamed id s h)

  -- An entry that is written over with the same address keeps the names.
  rewrite-IsNamed :
      (id : ℕ) (p q : PeerState) (s : PeersManager)
      → lookup id s.peers ≡ some p
      → q.addr ≡ p.addr
      → IsNamed s
      → IsNamed (record s { peers = insert id q s.peers })
  unfolding get_node_id get_addr_by_node_id
  rewrite-IsNamed id p q s e same h a i named =
      ground (arith, h a i, e, same, named, lookup-insert i id q s.peers)

  count_message-addr : (now : ℕ) (p : PeerState) → (count_message now p).1.addr ≡ p.addr
  unfolding count_message
  count_message-addr now p = ground arith

  send_to-IsNamed :
      (accepts : ℕ → Bool) (id now : ℕ) (s : PeersManager)
      → IsNamed s
      → IsNamed (send_to accepts id now s).1
  unfolding send_to
  send_to-IsNamed accepts id now s h = elim (Option-cases (lookup id s.peers)) [
    | inl e ↦ rw (e, send_to) h
    | inr k ↦
        rw (k.1, send_to)
          (rewrite-IsNamed id k.0 (count_message now k.0).1 s k.1 (count_message-addr now k.0) h)
  ]

  update_peer_height-IsNamed :
      (id n : ℕ) (s : PeersManager) → IsNamed s → IsNamed (update_peer_height id n s)
  unfolding update_peer_height
  update_peer_height-IsNamed id n s h = elim (Option-cases (lookup id s.peers)) [
    | inl e ↦ rw (e, update_peer_height) h
    | inr k ↦ rw (k.1, update_peer_height) (rewrite-IsNamed id k.0 _ s k.1 refl h)
  ]

  reserve-IsNamed :
      (addr now : ℕ) (s : PeersManager)
      → IsNamed s
      → IsNamed (try_reserve_outbound_slot addr now s).1
  unfolding try_reserve_outbound_slot get_node_id get_addr_by_node_id
  reserve-IsNamed addr now s h a i e = ground (arith, h a i, e)

  step-IsNamed : (c : PeerCall) (s : PeersManager) → IsNamed s → IsNamed (step ip c s)
  unfolding step broadcast mark_connected mark_connect_failed add_known_address get_node_id
      get_addr_by_node_id
  step-IsNamed (register id addr tx b now secs) s h =
      register_peer-IsNamed id addr tx b now secs s h
  step-IsNamed (removal id) s h = remove_peer-IsNamed id s h
  step-IsNamed (sending accepts id now) s h = send_to-IsNamed accepts id now s h
  step-IsNamed (broadcasting is_closed) s h = remove_all-IsNamed (dead_ids ip is_closed s.peers) s h
  step-IsNamed (height id n) s h = update_peer_height-IsNamed id n s h
  step-IsNamed (good id secs) s h = h
  step-IsNamed (failed addr now) s h = h
  step-IsNamed (reserve addr now) s h = reserve-IsNamed addr now s h
  step-IsNamed (known addr secs) s h = h

  run-keeps : (cs : List PeerCall) (s : PeersManager) → IsNamed s → IsNamed (run ip cs s)
  unfolding run
  run-keeps [] s h = h
  run-keeps (c ∷ cs) s h = run-keeps cs (step ip c s) (step-IsNamed c s h)

  -- After any calls on a new manager, the id that an address leads to is of a peer with that address.
  pub run-IsNamed : (cs : List PeerCall) → IsNamed (run ip cs new_manager)
  unfolding get_node_id
  run-IsNamed cs = run-keeps cs new_manager (λ a i e. absurd (cc))
