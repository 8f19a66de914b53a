-- ===== src/P2p/Peers/Rates.antt =====
-- crates/aevum-p2p/src/peers.rs: the limit on the messages to one peer.
use aevum_public.Base.{
  ℕ, ◌+◌, ◌-◌, ◌≤◌, max, ◌<◌, ◌≡◌, ◌≢◌, refl, sym, ◌∙◌, subst, Bool, true, false, Option, none,
  some, List, [], ◌∷◌, ◌==◌, if◌then◌else◌, arith, All, Option-cases, Bool-cases, inl, inr,
}
use aevum_public.Base.Map.{Map, lookup, insert, lookup-insert, lookup-remove}
use aevum_public.P2p.Peers.{
  PeerState, PeersManager, connected, second, rate_limit_per_sec, count_message, send_to,
  mark_connect_failed, try_reserve_outbound_slot, register_peer, dead_ids, mark_connected,
  add_known_address, remove_peer, remove_all, broadcast, update_peer_height,
}
use aevum_public.P2p.Peers.Calls.{
  PeerCall, register, removal, sending, broadcasting, height, good, failed, reserve, known, step,
}

-- The call does not register the id, and sends to it only before the time.
abbrev pub IsWithin : ℕ → ℕ → PeerCall → Type 0
IsWithin id until (register i addr tx b now secs) = i ≢ id
IsWithin id until (sending accepts i t) = i ≡ id → t < until
IsWithin id until _ = Unit {0}

-- One for a `send_to` to the id that hands its message over.
abbrev pub goes_out : ℕ → PeerCall → PeersManager → ℕ
goes_out id (sending accepts i t) s =
    if i == id then (if (send_to accepts i t s).0 then 1 else 0) else 0
goes_out id _ s = 0

-- Where there is a peer, its window starts at `reset`, and `room` covers what the limit leaves.
abbrev HasRoom : ℕ → ℕ → Option PeerState → Type 0
HasRoom reset room none = Unit {0}
HasRoom reset room (some p) = (p.last_reset ≡ reset) × (rate_limit_per_sec - p.msg_count ≤ room)

none_out :
    (reset room : ℕ) (o : Option PeerState)
    → HasRoom reset room o
    → (0 ≤ room) × HasRoom reset (room - 0) o
none_out reset room o h = (omega arith, subst (λ n. HasRoom reset n o) (omega arith) h)

count_message-HasRoom :
    (reset room t : ℕ) (p : PeerState)
    → t < reset + second
    → HasRoom reset room (some p)
    → ((if (count_message t p).0 then 1 else 0) ≤ room)
      × HasRoom reset (room - (if (count_message t p).0 then 1 else 0)) (some (count_message t p).1)
unfolding count_message
count_message-HasRoom reset room t p h k = ground (arith, h, k)

HasRoom-less :
    (reset room used : ℕ) (m : Bool) (o : Option PeerState)
    → used ≤ (if m then 1 else 0)
    → HasRoom reset (room - (if m then 1 else 0)) o
    → HasRoom reset (room - used) o
HasRoom-less reset room used m none h k = tt
HasRoom-less reset room used m (some p) h k = (k.0, ground (arith, h, k))

module _ (ip : ℕ → ℕ) where
  -- How many messages `send_to` hands over for the id in a sequence of calls.
  unfoldable pub messages : ℕ → List PeerCall → PeersManager → ℕ
  messages id [] s = 0
  messages id (c ∷ cs) s = goes_out id c s + messages id cs (step ip c s)

  remove_peer-HasRoom :
      (id i reset room : ℕ) (s : PeersManager)
      → HasRoom reset room (lookup id s.peers)
      → HasRoom reset room (lookup id (remove_peer ip i s).peers)
  unfolding remove_peer
  remove_peer-HasRoom id i reset room s h = elim (Option-cases (lookup i s.peers)) [
    | inl e ↦ rw (e, remove_peer) h
    | inr k ↦
        rw (k.1, remove_peer)
          (elim (Bool-cases (id == i)) [
            | inl e ↦ rw (lookup-remove id i s.peers, e) tt
            | inr e ↦ rw (lookup-remove id i s.peers, e) h
          ])
  ]

  remove_all-HasRoom :
      (id reset room : ℕ) (ids : List ℕ) (s : PeersManager)
      → HasRoom reset room (lookup id s.peers)
      → HasRoom reset room (lookup id (remove_all ip ids s).peers)
  unfolding remove_all
  remove_all-HasRoom id reset room [] s h = h
  remove_all-HasRoom id reset room (i ∷ ids) s h =
      remove_all-HasRoom id reset room ids (remove_peer ip i s)
        (remove_peer-HasRoom id i reset room s h)

  register-HasRoom :
      (id i addr tx now secs reset room : ℕ) (b : Bool) (s : PeersManager)
      → i ≢ id
      → HasRoom reset room (lookup id s.peers)
      → HasRoom reset room (lookup id (register_peer ip i addr tx b now secs s).peers)
  unfolding register_peer
  register-HasRoom id i addr tx now secs reset room b s ne h =
      subst (λ o. HasRoom reset room o) (sym same) h
    where
      same : lookup id (register_peer ip i addr tx b now secs s).peers ≡ lookup id s.peers
      same = ground (
        arith,
        lookup-insert id i
            (record {
              tx = tx;
              addr = addr;
              peer_height = 0;
              msg_count = 0;
              last_reset = now;
              connected_at = now;
              is_outbound = b;
              state = connected;
            })
            s.peers,
      )

  rewrite-HasRoom :
      (id i reset room : ℕ) (p q : PeerState) (m : Map PeerState)
      → lookup i m ≡ some p
      → (q.last_reset ≡ p.last_reset) × (q.msg_count ≡ p.msg_count)
      → HasRoom reset room (lookup id m)
      → HasRoom reset room (lookup id (insert i q m))
  rewrite-HasRoom id i reset room p q m e same h = elim (Bool-cases (id == i)) [
    | inr other ↦ rw (lookup-insert id i q m, other) h
    | inl this ↦
        let found : lookup id m ≡ some p = ground (arith, this, e) in
        let old : HasRoom reset room (some p) = subst (λ o. HasRoom reset room o) found h in
        rw (lookup-insert id i q m, this) (same.0 ∙ old.0, omega (arith, same.1, old.1))
  ]

  height-HasRoom :
      (id i n reset room : ℕ) (s : PeersManager)
      → HasRoom reset room (lookup id s.peers)
      → HasRoom reset room (lookup id (update_peer_height i n s).peers)
  unfolding update_peer_height
  height-HasRoom id i n reset room s h = elim (Option-cases (lookup i s.peers)) [
    | inl e ↦ rw (e, update_peer_height) h
    | inr k ↦
        let q = record k.0 { peer_height = max k.0.peer_height n } in
        rw (k.1, update_peer_height)
          (rewrite-HasRoom id i reset room k.0 q s.peers k.1 (refl, refl) h)
  ]

  send_to-HasRoom :
      (accepts : ℕ → Bool) (id i t reset room : ℕ) (s : PeersManager)
      → (i ≡ id → t < reset + second)
      → HasRoom reset room (lookup id s.peers)
      → (goes_out id (sending accepts i t) s ≤ room)
        × HasRoom reset
            (room - goes_out id (sending accepts i t) s)
            (lookup id (send_to accepts i t s).1.peers)
  unfolding send_to
  send_to-HasRoom accepts id i t reset room s h k = elim (Option-cases (lookup i s.peers)) [
    | inl e ↦ elim (Bool-cases (i == id)) [
      | inl this ↦ rw (this, e, send_to) (none_out reset room _ k)
      | inr other ↦ rw (other, e, send_to) (none_out reset room _ k)
    ]
    | inr (p, e) ↦
        let q = (count_message t p).1 in
        elim (Bool-cases (i == id)) [
          | inr other ↦
              let apart : (id == i) ≡ false = ground arith in
              rw (other, e, send_to)
                (rw (lookup-insert id i q s.peers, apart) (none_out reset room _ k))
          | inl this ↦
              let same : (id == i) ≡ true = ground arith in
              let found : lookup id s.peers ≡ some p = ground (arith, this, e) in
              let old : HasRoom reset room (some p) = subst (λ o. HasRoom reset room o) found k in
              let counted = count_message-HasRoom reset room t p (h (ground (arith, this))) old in
              let used = if (if (count_message t p).0 then accepts p.tx else false) then 1 else 0 in
              let fewer : used ≤ (if (count_message t p).0 then 1 else 0) = ground arith in
              rw (this, e, send_to)
                (rw (lookup-insert id i q s.peers, same)
                  (
                    omega (arith, counted.0, fewer),
                    HasRoom-less reset room used (count_message t p).0 (some q) fewer counted.1,
                  ))
        ]
  ]

  step-HasRoom :
      (c : PeerCall) (id reset room : ℕ) (s : PeersManager)
      → IsWithin id (reset + second) c
      → HasRoom reset room (lookup id s.peers)
      → (goes_out id c s ≤ room)
        × HasRoom reset (room - goes_out id c s) (lookup id (step ip c s).peers)
  unfolding step broadcast mark_connected mark_connect_failed add_known_address
  step-HasRoom (register i addr tx b now secs) id reset room s w h =
      (none_out reset room _ (register-HasRoom id i addr tx now secs reset room b s w h))
  step-HasRoom (removal i) id reset room s w h =
      (none_out reset room _ (remove_peer-HasRoom id i reset room s h))
  step-HasRoom (sending accepts i t) id reset room s w h =
      send_to-HasRoom accepts id i t reset room s w h
  step-HasRoom (broadcasting is_closed) id reset room s w h =
      (none_out reset room _ (remove_all-HasRoom id reset room (dead_ids ip is_closed s.peers) s h))
  step-HasRoom (height i n) id reset room s w h =
      (none_out reset room _ (height-HasRoom id i n reset room s h))
  step-HasRoom (good i secs) id reset room s w h = none_out reset room _ h
  step-HasRoom (failed addr now) id reset room s w h = none_out reset room _ h
  step-HasRoom (reserve addr now) id reset room s w h =
      (none_out reset room _ (subst (λ o. HasRoom reset room o) (sym same) h))
    where
      same : lookup id (try_reserve_outbound_slot addr now s).1.peers ≡ lookup id s.peers
      same = unfold try_reserve_outbound_slot in ground arith
  step-HasRoom (known addr secs) id reset room s w h = none_out reset room _ h

  messages_le :
      (id reset room : ℕ) (cs : List PeerCall) (s : PeersManager)
      → All (IsWithin id (reset + second)) cs
      → HasRoom reset room (lookup id s.peers)
      → messages id cs s ≤ room
  unfolding messages
  messages_le id reset room [] s w h = omega arith
  messages_le id reset room (c ∷ cs) s w h =
      let now = step-HasRoom c id reset room s w.0 h in
      let later = messages_le id reset (room - goes_out id c s) cs (step ip c s) w.1 now.1 in
      omega (arith, now.0, later)

  -- In a sequence of calls that does not register the peer again and whose calls of `send_to` to it
  -- are all made in the second behind its last reset, `send_to` hands over no more messages to it
  -- than the limit leaves, whatever else is called in between; what `broadcast` sends is not counted.
  pub messages-rate_limited :
      (id : ℕ) (cs : List PeerCall) (s : PeersManager) (p : PeerState)
      → lookup id s.peers ≡ some p
      → All (IsWithin id (p.last_reset + second)) cs
      → messages id cs s ≤ rate_limit_per_sec - p.msg_count
  messages-rate_limited id cs s p e w =
      messages_le id p.last_reset (rate_limit_per_sec - p.msg_count) cs s w (
        subst (λ o. HasRoom p.last_reset (rate_limit_per_sec - p.msg_count) o) (sym e)
          (refl, omega arith))
