-- ===== src/Api/Auth/Replay.antt =====
-- When a request is accepted, and for how long its nonce is refused.
use aevum_public.Base.{
  ℕ, suc, ◌+◌, ◌≤◌, ◌<◌, ◌≡◌, refl, ◌≢◌, ◌↔◌, ◌⊎◌, inl, inr, true, false, List, [], ◌∷◌, ◌++◌,
  arith, mem, length, length-append, saturating_add,
}
use aevum_public.Base.Map.{lookup-insert}
use aevum_public.Crypto.{Crypto}
use aevum_public.Api.Auth.{
  SignedRequestV2, AuthServiceV2, valid, queue_of, contains, pop_front, push, insert_nonce, tick,
  build_payload, verify,
}

-- What makes a request acceptable at the time of the service.
pub record IsAuthentic (c : Crypto) (s : AuthServiceV2) (r : SignedRequestV2) : Type 0 where
  pub begun : r.timestamp ≤ saturating_add s.current_time s.config.max_future_drift
  pub recent : s.current_time ≤ r.timestamp + s.config.max_timestamp_drift
  pub unused : mem r.nonce (queue_of s.nonces r.public_key) ≡ false
  pub signed : c.verify r.public_key (build_payload c r) r.signature ≡ true

verify_sound :
    (c : Crypto) (s : AuthServiceV2) (r : SignedRequestV2)
    → (verify c s r).1 ≡ valid
    → IsAuthentic c s r
unfolding verify contains
verify_sound c s r h = record {
  begun = ground arith;
  recent = ground arith;
  unused = ground arith;
  signed = ground arith;
}

verify_complete :
    (c : Crypto) (s : AuthServiceV2) (r : SignedRequestV2)
    → IsAuthentic c s r
    → (verify c s r).1 ≡ valid
unfolding verify contains
verify_complete c s r h = ground (arith, h)

-- A request is accepted exactly when its timestamp is neither too far ahead nor too old, its nonce
-- is not in the queue of its key, and the signature of its payload verifies; a request that is not
-- accepted leaves the service as it was.
pub verify_iff :
    (c : Crypto) (s : AuthServiceV2) (r : SignedRequestV2)
    → (((verify c s r).1 ≡ valid) ↔ IsAuthentic c s r)
      × ((verify c s r).1 ≢ valid → (verify c s r).0 ≡ s)
verify_iff c s r =
    ((verify_sound c s r, verify_complete c s r), λ h. unfold verify in ground (arith, h))

-- The nonce stands in the queue with fewer than `k` entries behind it.
abbrev pub Recent : ℕ → ℕ → List ℕ → Type 0
Recent n k [] = ⊥
Recent n k (x ∷ q) = ((x ≡ n) × (length q < k)) ⊎ Recent n k q

Recent-mem : (n k : ℕ) (q : List ℕ) → Recent n k q → mem n q ≡ true
Recent-mem n k [] h = absurd h
Recent-mem n k (x ∷ q) h = ground (arith, Recent-mem n k q)

Recent-last : (n : ℕ) (q : List ℕ) → Recent n 1 (q ++ n ∷ [])
Recent-last n [] = inl (refl, omega arith)
Recent-last n (x ∷ q) = inr (Recent-last n q)

Recent-append : (n k x : ℕ) (q : List ℕ) → Recent n k q → Recent n (k + 1) (q ++ x ∷ [])
Recent-append n k x [] h = absurd h
Recent-append n k x (y ∷ q) (inl (e, b)) = inl (e, omega (arith, b, length-append q (x ∷ [])))
Recent-append n k x (y ∷ q) (inr h) = inr (Recent-append n k x q h)

Recent-pop_front : (n k : ℕ) (q : List ℕ) → k < length q → Recent n k q → Recent n k (pop_front q)
Recent-pop_front n k [] b h = h
Recent-pop_front n k (x ∷ q) b (inl (e, short)) = absurd (omega arith)
Recent-pop_front n k (x ∷ q) b (inr h) = h

Recent-push :
    (size n k x : ℕ) (q : List ℕ) → k < size → Recent n k q → Recent n (k + 1) (push size x q)
unfolding push
Recent-push size n k x q b h =
    ground
      (arith, Recent-append n k x q h, Recent-append n k x (pop_front q), Recent-pop_front n k q)

-- The events of a service, in the order in which they happen.
pub data Event : Type 0 where
  ticked : ℕ → Event
  requested : SignedRequestV2 → Event

unfoldable pub handle : Crypto → AuthServiceV2 → Event → AuthServiceV2
handle c s (ticked time) = tick s time
handle c s (requested r) = (verify c s r).0

unfoldable pub handle_all : Crypto → AuthServiceV2 → List Event → AuthServiceV2
handle_all c s [] = s
handle_all c s (e ∷ es) = handle_all c (handle c s e) es

Holds : AuthServiceV2 → ℕ → ℕ → ℕ → Type 0
Holds s addr n k = Recent n k (queue_of s.nonces addr)

-- The number of requests among the events.
abbrev pub requests : List Event → ℕ
requests [] = 0
requests (ticked time ∷ es) = requests es
requests (requested r ∷ es) = suc (requests es)

handle-Holds :
    (c : Crypto) (s : AuthServiceV2) (r : SignedRequestV2) (addr n k : ℕ)
    → k < s.nonces.max_size
    → Holds s addr n k
    → Holds (handle c s (requested r)) addr n k ⊎ Holds (handle c s (requested r)) addr n (k + 1)
unfolding handle Holds verify insert_nonce
handle-Holds c s r addr n k b h = ground (
  arith,
  h,
  Recent-push s.nonces.max_size n k r.nonce (queue_of s.nonces addr),
  lookup-insert addr r.public_key (push s.nonces.max_size r.nonce (queue_of s.nonces r.public_key))
      s.nonces.queues,
)

pub max_size-handle :
    (c : Crypto) (s : AuthServiceV2) (e : Event)
    → (handle c s e).nonces.max_size ≡ s.nonces.max_size
unfolding handle tick verify insert_nonce
max_size-handle c s (ticked time) = refl
max_size-handle c s (requested r) = ground arith

handle_all-Holds :
    (c : Crypto) (s : AuthServiceV2) (es : List Event) (addr n k : ℕ)
    → k + requests es ≤ s.nonces.max_size
    → Holds s addr n k
    → mem n (queue_of (handle_all c s es).nonces addr) ≡ true
unfolding handle_all Holds
handle_all-Holds c s [] addr n k b h = Recent-mem n k (queue_of s.nonces addr) h
handle_all-Holds c s (ticked time ∷ es) addr n k b h =
    handle_all-Holds c (handle c s (ticked time)) es addr n k
      (omega (arith, max_size-handle c s (ticked time))) (unfold handle tick in h)
handle_all-Holds c s (requested r ∷ es) addr n k b h =
    let size = max_size-handle c s (requested r) in
    elim (handle-Holds c s r addr n k (omega arith) h) [
      | inl same ↦
          handle_all-Holds c (handle c s (requested r)) es addr n k (omega (arith, size)) same
      | inr older ↦
          handle_all-Holds c (handle c s (requested r)) es addr n (k + 1) (omega (arith, size))
            older
    ]

accepted-Holds :
    (c : Crypto) (s : AuthServiceV2) (r : SignedRequestV2)
    → (verify c s r).1 ≡ valid
    → Holds (verify c s r).0 r.public_key r.nonce 1
unfolding Holds verify insert_nonce push
accepted-Holds c s r h = ground (
  arith,
  lookup-insert r.public_key r.public_key
      (push s.nonces.max_size r.nonce (queue_of s.nonces r.public_key)) s.nonces.queues,
  Recent-last r.nonce (queue_of s.nonces r.public_key),
  Recent-last r.nonce (pop_front (queue_of s.nonces r.public_key)),
)

-- Once a request has been accepted, no request of its key with its nonce is accepted after any
-- further events with fewer requests among them than a queue can hold nonces.
pub verify-no_replay :
    (c : Crypto) (s : AuthServiceV2) (r again : SignedRequestV2) (es : List Event)
    → (verify c s r).1 ≡ valid
    → requests es < s.nonces.max_size
    → again.public_key ≡ r.public_key
    → again.nonce ≡ r.nonce
    → (verify c (handle_all c (verify c s r).0 es) again).1 ≢ valid
verify-no_replay c s r again es accepted few key nonce ok' =
    let later = handle_all c (verify c s r).0 es in
    let size : (verify c s r).0.nonces.max_size ≡ s.nonces.max_size =
      unfold verify insert_nonce in ground arith in
    let kept =
      handle_all-Holds c (verify c s r).0 es r.public_key r.nonce 1 (omega (arith, size))
        (accepted-Holds c s r accepted) in
    let fresh = (verify_sound c later again ok').unused in cc (fresh, kept, key, nonce)
