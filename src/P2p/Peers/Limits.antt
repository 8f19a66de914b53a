-- ===== src/P2p/Peers/Limits.antt =====
-- crates/aevum-p2p/src/peers.rs: the limits on attempts to connect.
use aevum_public.Base.{
  ℕ, ◌+◌, ◌-◌, ◌≤◌, ◌<◌, ◌≡◌, refl, sym, ◌∙◌, subst, Bool, true, false, Option, none, some, List,
  [], ◌∷◌, arith, All, Option-cases, inl, inr,
}
use aevum_public.Base.Map.{Map, lookup, insert, lookup-insert}
use aevum_public.P2p.Peers.{
  PeersManager, connect_retry, attempt_ttl, send_to, retain_recent, try_reserve_outbound_slot,
  mark_connect_failed, register_peer, dead_ids, mark_connected, add_known_address, remove_peer,
  remove_all, broadcast, update_peer_height,
}
use aevum_public.P2p.Peers.Calls.{
  PeerCall, register, removal, sending, broadcasting, height, good, failed, reserve, known, step,
  run,
}

-- The attempts that are kept.
lookup-retain_recent :
    (addr now t : ℕ) (m : Map ℕ)
    → lookup addr m ≡ some t
    → now - t < attempt_ttl
    → lookup addr (retain_recent now m) ≡ some t
unfolding retain_recent
lookup-retain_recent addr now t [] e h = ground arith
lookup-retain_recent addr now t ((a, u) ∷ m) e h = ground (arith, lookup-retain_recent addr now t m)

-- An attempt on the address was made at `t` or later.
abbrev TriedSince : ℕ → ℕ → Option ℕ → Type 0
TriedSince t now none = ⊥
TriedSince t now (some u) = t ≤ u

-- Reservations and failures that a call makes are made between the two times.
abbrev pub IsBetween : ℕ → ℕ → PeerCall → Type 0
IsBetween t now (failed addr u) = (t ≤ u) × (u ≤ now)
IsBetween t now (reserve addr u) = (t ≤ u) × (u ≤ now)
IsBetween t now _ = Unit {0}

module _ (ip : ℕ → ℕ) where
  -- What the calls that are not attempts leave of the attempts.
  register-attempts :
      (id addr tx : ℕ) (b : Bool) (now secs : ℕ) (s : PeersManager)
      → (register_peer ip id addr tx b now secs s).last_connect_attempt ≡ s.last_connect_attempt
  unfolding register_peer
  register-attempts id addr tx b now secs s = ground arith

  remove-attempts :
      (id : ℕ) (s : PeersManager)
      → (remove_peer ip id s).last_connect_attempt ≡ s.last_connect_attempt
  unfolding remove_peer
  remove-attempts id s = ground arith

  remove_all-attempts :
      (ids : List ℕ) (s : PeersManager)
      → (remove_all ip ids s).last_connect_attempt ≡ s.last_connect_attempt
  unfolding remove_all
  remove_all-attempts [] s = refl
  remove_all-attempts (id ∷ ids) s =
      remove_all-attempts ids (remove_peer ip id s) ∙ remove-attempts id s

  send-attempts :
      (accepts : ℕ → Bool) (id now : ℕ) (s : PeersManager)
      → (send_to accepts id now s).1.last_connect_attempt ≡ s.last_connect_attempt
  unfolding send_to
  send-attempts accepts id now s = ground arith

  height-attempts :
      (id n : ℕ) (s : PeersManager)
      → (update_peer_height id n s).last_connect_attempt ≡ s.last_connect_attempt
  unfolding update_peer_height
  height-attempts id n s = ground arith

  TriedSince-insert :
      (a b u t now : ℕ) (m : Map ℕ)
      → t ≤ u
      → TriedSince t now (lookup a m)
      → TriedSince t now (lookup a (insert b u m))
  TriedSince-insert a b u t now m h tried = ground (arith, lookup-insert a b u m)

  TriedSince-retain :
      (a u t now : ℕ) (m : Map ℕ)
      → now < t + connect_retry
      → u ≤ now
      → TriedSince t now (lookup a m)
      → TriedSince t now (lookup a (retain_recent u m))
  TriedSince-retain a u t now m h hu tried = elim (Option-cases (lookup a m)) [
    | inl e ↦ absurd (subst (λ o. TriedSince t now o) e tried)
    | inr k ↦
        let since : t ≤ k.0 = subst (λ o. TriedSince t now o) k.1 tried in
        subst (λ o. TriedSince t now o) (sym (lookup-retain_recent a u k.0 m k.1 (omega arith)))
          since
  ]

  reserve-TriedSince :
      (a b u t now : ℕ) (s : PeersManager)
      → now < t + connect_retry
      → (t ≤ u) × (u ≤ now)
      → TriedSince t now (lookup a s.last_connect_attempt)
      → TriedSince t now (lookup a (try_reserve_outbound_slot b u s).1.last_connect_attempt)
  unfolding try_reserve_outbound_slot
  reserve-TriedSince a b u t now s h between tried = ground (
    arith,
    TriedSince-retain a u t now s.last_connect_attempt h between.1 tried,
    TriedSince-insert a b u t now (retain_recent u s.last_connect_attempt) between.0,
  )

  step-TriedSince :
      (c : PeerCall) (a t now : ℕ) (s : PeersManager)
      → now < t + connect_retry
      → IsBetween t now c
      → TriedSince t now (lookup a s.last_connect_attempt)
      → TriedSince t now (lookup a (step ip c s).last_connect_attempt)
  unfolding step broadcast mark_connected mark_connect_failed add_known_address
  step-TriedSince (register id addr tx b u secs) a t now s h w tried =
      rw (register-attempts id addr tx b u secs s) tried
  step-TriedSince (removal id) a t now s h w tried = rw (remove-attempts id s) tried
  step-TriedSince (sending accepts id u) a t now s h w tried =
      rw (send-attempts accepts id u s) tried
  step-TriedSince (broadcasting is_closed) a t now s h w tried =
      rw (remove_all-attempts (dead_ids ip is_closed s.peers) s) tried
  step-TriedSince (height id n) a t now s h w tried = rw (height-attempts id n s) tried
  step-TriedSince (good id secs) a t now s h w tried = tried
  step-TriedSince (failed addr u) a t now s h w tried =
      TriedSince-insert a addr u t now s.last_connect_attempt w.0 tried
  step-TriedSince (reserve addr u) a t now s h w tried =
      reserve-TriedSince a addr u t now s h w tried
  step-TriedSince (known addr secs) a t now s h w tried = tried

  run-TriedSince :
      (cs : List PeerCall) (a t now : ℕ) (s : PeersManager)
      → now < t + connect_retry
      → All (IsBetween t now) cs
      → TriedSince t now (lookup a s.last_connect_attempt)
      → TriedSince t now (lookup a (run ip cs s).last_connect_attempt)
  unfolding run
  run-TriedSince [] a t now s h w tried = tried
  run-TriedSince (c ∷ cs) a t now s h w tried =
      run-TriedSince cs a t now (step ip c s) h w.1 (step-TriedSince c a t now s h w.0 tried)

  reserved-TriedSince :
      (a t now : ℕ) (s : PeersManager)
      → (try_reserve_outbound_slot a t s).0 ≡ true
      → TriedSince t now (lookup a (try_reserve_outbound_slot a t s).1.last_connect_attempt)
  unfolding try_reserve_outbound_slot
  reserved-TriedSince a t now s h =
      ground (arith, lookup-insert a a t (retain_recent t s.last_connect_attempt))

  refused :
      (a t now : ℕ) (s : PeersManager)
      → now < t + connect_retry
      → TriedSince t now (lookup a s.last_connect_attempt)
      → (try_reserve_outbound_slot a now s).0 ≡ false
  unfolding try_reserve_outbound_slot
  refused a t now s h tried =
      elim (Option-cases (lookup a (retain_recent now s.last_connect_attempt))) [
        | inl e ↦ absurd (subst (λ o. TriedSince t now o) e kept)
        | inr k ↦
            let since : t ≤ k.0 = subst (λ o. TriedSince t now o) k.1 kept in ground (arith, k.1)
      ]
    where
      kept : TriedSince t now (lookup a (retain_recent now s.last_connect_attempt))
      kept = TriedSince-retain a now t now s.last_connect_attempt h (omega arith) tried

  -- Once a slot was reserved for an address, no other is until 30 seconds have passed, whatever is
  -- called in between.
  pub try_reserve-retry :
      (a t now : ℕ) (cs : List PeerCall) (s : PeersManager)
      → (try_reserve_outbound_slot a t s).0 ≡ true
      → All (IsBetween t now) cs
      → now < t + connect_retry
      → (try_reserve_outbound_slot a now (run ip cs (try_reserve_outbound_slot a t s).1)).0 ≡ false
  try_reserve-retry a t now cs s got between h =
      let s' = (try_reserve_outbound_slot a t s).1 in
      refused a t now (run ip cs s') h
        (run-TriedSince cs a t now s' h between (reserved-TriedSince a t now s got))
