-- ===== src/Core/Settlement/Votes.antt =====
-- What the committee check guarantees.
use native.Mathlib.Decide.{ℕ_discrete}
use aevum_public.Base.{
  ℕ, ◌≤◌, ◌<◌, ◌≡◌, refl, ◌⊎◌, inl, inr, true, false, some, List, [], ◌∷◌, arith, leb, mem, length,
  All, IsDistinct, Option-cases, Bool-cases,
}
use aevum_public.Crypto.{Crypto}
use aevum_public.Core.Settlement.{
  SettlementBlock, Ballot, signing_message, find_signer, vote, count_votes,
  verify_committee_signatures,
}

-- Some signature of a list is the key's.
abbrev pub Signed : Crypto → List ℕ → List (List ℕ) → ℕ → Type 0
Signed c message [] pk = ⊥
Signed c message (s ∷ ss) pk = (c.verify pk message s ≡ true) ⊎ Signed c message ss pk

mem-All : (P : ℕ → Type 0) (keys : List ℕ) (pk : ℕ) → All P keys → mem pk keys ≡ true → P pk
mem-All P [] pk h m = absurd (cc)
mem-All P (k ∷ keys) pk h m = elim (ℕ_discrete pk k) [
  | yes e ↦ rw e h.0
  | no ne ↦ mem-All P keys pk h.1 (ground arith)
]

module _ (c : Crypto) (message pks : List ℕ) where
  find_signer_sound :
      (used signature keys : List ℕ) (pk : ℕ)
      → find_signer c message used signature keys ≡ some pk
      → (mem pk used ≡ false) × (mem pk keys ≡ true) × (c.verify pk message signature ≡ true)
  unfolding find_signer
  find_signer_sound used signature [] pk h = absurd (cc)
  find_signer_sound used signature (k ∷ keys) pk h =
      ground (arith, find_signer_sound used signature keys pk)

  abbrev IsBallot : Ballot → Type 0
  IsBallot b = (b.valid ≡ length b.used) × IsDistinct b.used × All (λ pk. mem pk pks ≡ true) b.used

  vote-IsBallot : (b : Ballot) (s : List ℕ) → IsBallot b → IsBallot (vote c message pks b s)
  unfolding vote
  vote-IsBallot b s h = elim (Option-cases (find_signer c message b.used s pks)) [
    | inl e ↦ rw (e, vote) h
    | inr (pk, e) ↦
        let (new, member, _) = find_signer_sound b.used s pks pk e in
        rw (e, vote) (omega (arith, h.0), (new, h.1), (member, h.2))
  ]

  count_votes-IsBallot :
      (threshold : ℕ) (b : Ballot) (ss : List (List ℕ))
      → IsBallot b
      → IsBallot (count_votes c message pks threshold b ss)
  unfolding count_votes
  count_votes-IsBallot threshold b [] h = h
  count_votes-IsBallot threshold b (s ∷ ss) h = elim (Bool-cases (leb threshold b.valid)) [
    | inl e ↦ rw e h
    | inr e ↦
        rw e (count_votes-IsBallot threshold (vote c message pks b s) ss (vote-IsBallot b s h))
  ]

  mem-vote :
      (b : Ballot) (s : List ℕ) (pk : ℕ)
      → mem pk (vote c message pks b s).used ≡ true
      → (mem pk b.used ≡ true) ⊎ (c.verify pk message s ≡ true)
  unfolding vote
  mem-vote b s pk h = elim (Option-cases (find_signer c message b.used s pks)) [
    | inl e ↦ inl (rw (e, vote) at h)
    | inr (k, e) ↦
        let (new, member, signed) = find_signer_sound b.used s pks k e in ground (arith, signed)
  ]

  -- A key that has voted in the end had voted before, or a signature of the list is its own.
  mem-count_votes :
      (threshold : ℕ) (b : Ballot) (ss : List (List ℕ)) (pk : ℕ)
      → mem pk (count_votes c message pks threshold b ss).used ≡ true
      → (mem pk b.used ≡ true) ⊎ Signed c message ss pk
  unfolding count_votes
  mem-count_votes threshold b [] pk h = inl h
  mem-count_votes threshold b (s ∷ ss) pk h = elim (Bool-cases (leb threshold b.valid)) [
    | inl e ↦ inl (rw e at h)
    | inr e ↦ elim (mem-count_votes threshold (vote c message pks b s) ss pk (rw e at h)) [
      | inr signed ↦ inr (inr signed)
      | inl voted ↦ elim (mem-vote b s pk voted) [ inl old ↦ inl old | inr now ↦ inr (inl now) ]
    ]
  ]

-- When the committee check accepts, there are at least `threshold` different keys, all of them of
-- the committee, and each has signed the block's message by one of the block's signatures; the
-- threshold is positive and at most the size of the committee.
pub verify_committee-quorum :
    (c : Crypto) (b : SettlementBlock) (pks : List ℕ) (threshold : ℕ)
    → verify_committee_signatures c b pks threshold ≡ true
    → (0 < threshold)
      × (threshold ≤ length pks)
      × ((signers : List ℕ) × IsDistinct signers
          × (threshold ≤ length signers)
          × ((pk : ℕ)
              → mem pk signers ≡ true
              → (mem pk pks ≡ true) × Signed c (signing_message b) b.committee_signatures pk))
unfolding verify_committee_signatures
verify_committee-quorum c b pks threshold h = (
  ground arith,
  ground arith,
  (
    votes.used,
    valid.1,
    enough,
    λ pk m. (mem-All (λ k. mem k pks ≡ true) votes.used pk valid.2 m, signed pk m),
  ),
)
  where
    message : List ℕ
    message = signing_message b

    votes : Ballot
    votes =
        count_votes c message pks threshold (record { valid = 0; used = [] }) b.committee_signatures

    valid :
        (votes.valid ≡ length votes.used)
        × IsDistinct votes.used
        × All (λ pk. mem pk pks ≡ true) votes.used
    valid = count_votes-IsBallot c message pks threshold _ b.committee_signatures (refl, tt, tt)

    enough : threshold ≤ length votes.used
    enough = ground (arith, valid.0)

    signed : (pk : ℕ) → mem pk votes.used ≡ true → Signed c message b.committee_signatures pk
    signed pk m = elim (mem-count_votes c message pks threshold _ b.committee_signatures pk m) [
      | inl none_yet ↦ absurd (cc)
      | inr s ↦ s
    ]
