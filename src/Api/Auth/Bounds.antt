-- ===== src/Api/Auth/Bounds.antt =====
-- The size of the cache of nonces.
use aevum_public.Base.{
  ℕ, ◌≤◌, ◌≡◌, refl, ◌⊎◌, inl, inr, List, [], ◌∷◌, arith, max, length, length-append, All, sum_by,
  ◌*◌, ◌∙◌, sym, subst,
}
use aevum_public.Base.Map.{Map, lookup, insert, value_or}
use aevum_public.Crypto.{Crypto}
use aevum_public.Api.Auth.{
  SignedRequestV2, AuthServiceV2, AuthConfigV2, NonceCache, queue_of, push, insert_nonce, tick,
  verify, new_service, new_cache, stats,
}
use aevum_public.Api.Auth.Replay.{ticked, requested, Event, handle, handle_all, max_size-handle}

-- No queue is longer than the cache allows, or than one.
abbrev IsBounded : NonceCache → Type 0
IsBounded cache = All (λ e. length e.1 ≤ max cache.max_size 1) cache.queues

length-push :
    (size n : ℕ) (q : List ℕ) → length q ≤ max size 1 → length (push size n q) ≤ max size 1
unfolding push
length-push size n [] h = ground (arith, length-append [] (n ∷ []))
length-push size n (x ∷ q) h =
    ground (arith, length-append (x ∷ q) (n ∷ []), length-append q (n ∷ []))

insert-IsBounded :
    (b k : ℕ) (q : List ℕ) (m : Map (List ℕ))
    → length q ≤ b
    → All (λ e. length e.1 ≤ b) m
    → All (λ e. length e.1 ≤ b) (insert k q m)
insert-IsBounded b k q [] s h = (s, tt)
insert-IsBounded b k q ((j, p) ∷ m) s h = ground (arith, insert-IsBounded b k q m s h.1)

length-queue_of :
    (b k : ℕ) (m : Map (List ℕ))
    → All (λ e. length e.1 ≤ b) m
    → length (value_or (lookup k m) []) ≤ b
length-queue_of b k [] h = omega arith
length-queue_of b k ((j, p) ∷ m) h = ground (arith, length-queue_of b k m h.1)

state-verify :
    (c : Crypto) (s : AuthServiceV2) (r : SignedRequestV2)
    → ((verify c s r).0 ≡ s)
      ⊎ ((verify c s r).0 ≡ record s { nonces = insert_nonce s.nonces r.public_key r.nonce })
unfolding verify
state-verify c s r = ground arith

handle-IsBounded :
    (c : Crypto) (s : AuthServiceV2) (e : Event)
    → IsBounded s.nonces
    → IsBounded (handle c s e).nonces
unfolding handle tick insert_nonce
handle-IsBounded c s (ticked time) h = h
handle-IsBounded c s (requested r) h =
    let b = max s.nonces.max_size 1 in
    let q = queue_of s.nonces r.public_key in
    let small =
      length-push s.nonces.max_size r.nonce q (length-queue_of b r.public_key s.nonces.queues h) in
    elim (state-verify c s r) [
      | inl same ↦ subst (λ (t : AuthServiceV2). IsBounded t.nonces) (sym same) h
      | inr grown ↦
          subst (λ (t : AuthServiceV2). IsBounded t.nonces) (sym grown)
            (insert-IsBounded b r.public_key (push s.nonces.max_size r.nonce q) s.nonces.queues
              small h)
    ]

handle_all-IsBounded :
    (c : Crypto) (s : AuthServiceV2) (es : List Event)
    → IsBounded s.nonces
    → IsBounded (handle_all c s es).nonces
unfolding handle_all
handle_all-IsBounded c s [] h = h
handle_all-IsBounded c s (e ∷ es) h =
    handle_all-IsBounded c (handle c s e) es (handle-IsBounded c s e h)

sum-bounded :
    (b : ℕ) (m : Map (List ℕ))
    → All (λ e. length e.1 ≤ b) m
    → sum_by (λ e. length e.1) m ≤ length m * b
sum-bounded b [] h = omega arith
sum-bounded b ((j, q) ∷ m) h = omega (arith, h.0, sum-bounded b m h.1)

max_size-handle_all :
    (c : Crypto) (s : AuthServiceV2) (es : List Event)
    → (handle_all c s es).nonces.max_size ≡ s.nonces.max_size
unfolding handle_all
max_size-handle_all c s [] = refl
max_size-handle_all c s (e ∷ es) = max_size-handle_all c (handle c s e) es ∙ max_size-handle c s e

-- After any events on a new service, the cache holds no more nonces than its size, or one, for each
-- sender that it tracks.
pub stats-bounded :
    (c : Crypto) (config : AuthConfigV2) (es : List Event)
    → (stats (handle_all c (new_service config) es)).total_nonces
      ≤ (stats (handle_all c (new_service config) es)).tracked_senders
        * max config.nonce_cache_size 1
unfolding stats new_service new_cache
stats-bounded c config es =
    let s = handle_all c (new_service config) es in
    let size = max_size-handle_all c (new_service config) es in
    let bounded = handle_all-IsBounded c (new_service config) es tt in
    subst (λ n. sum_by (λ e. length e.1) s.nonces.queues ≤ length s.nonces.queues * max n 1) size
      (sum-bounded (max s.nonces.max_size 1) s.nonces.queues bounded)
