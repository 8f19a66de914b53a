-- ===== src/Api/Auth/Payload.antt =====
-- What the signed payload commits to.
use aevum_public.Base.{
  ◌+◌, ◌≤◌, ◌≡◌, refl, ap, ◌⊎◌, inl, inr, arith, length, length-append, IsU64, IsU32, u16_max,
}
use aevum_public.Base.Bytes.{
  codes, append_inj, le_field, u64_field, u32_field, array_bytes_inj, length-le_bytes,
}
use aevum_public.Crypto.{Crypto, Clash, digest_binds}
use aevum_public.Api.Auth.{SignedRequestV2, payload_bytes, build_payload}

pub record IsRequest (r : SignedRequestV2) : Type 0 where
  pub timestamp : IsU64 r.timestamp
  pub nonce : IsU64 r.nonce
  pub chain_id : IsU64 r.chain_id
  pub endpoint : IsU32 r.endpoint
  pub api_version : r.api_version ≤ u16_max

-- All of a request but the key and the signature.
pub record SameContent (a b : SignedRequestV2) : Type 0 where
  pub body : a.body ≡ b.body
  pub timestamp : a.timestamp ≡ b.timestamp
  pub nonce : a.nonce ≡ b.nonce
  pub chain_id : a.chain_id ≡ b.chain_id
  pub endpoint : a.endpoint ≡ b.endpoint
  pub api_version : a.api_version ≡ b.api_version

length-payload_bytes : (r : SignedRequestV2) → length (payload_bytes r) ≡ length r.body + 43
unfolding payload_bytes
length-payload_bytes r = simp (length-append, length-le_bytes) (omega arith)

payload_bytes_inj :
    (a b : SignedRequestV2)
    → IsRequest a
    → IsRequest b
    → payload_bytes a ≡ payload_bytes b
    → SameContent a b
payload_bytes_inj a b ha hb e =
    let sized : length a.body ≡ length b.body =
      omega (arith, ap length e, length-payload_bytes a, length-payload_bytes b) in
    unfold payload_bytes in
    let domain = codes "AEVUM_AUTH_V2" in
    let t0 = (append_inj domain domain refl e).1 in
    let (e1, t1) = append_inj a.body b.body sized t0 in
    let (e2, t2) = u64_field a.timestamp b.timestamp ha.timestamp hb.timestamp t1 in
    let (e3, t3) = u64_field a.nonce b.nonce ha.nonce hb.nonce t2 in
    let (e4, t4) = u64_field a.chain_id b.chain_id ha.chain_id hb.chain_id t3 in
    let (e5, t5) = u32_field a.endpoint b.endpoint ha.endpoint hb.endpoint t4 in
    let (e6, t6) = le_field 2 a.api_version b.api_version (omega arith) (omega arith) t5 in
    record { body = e1; timestamp = e2; nonce = e3; chain_id = e4; endpoint = e5; api_version = e6 }

-- Two requests within the ranges of their types with one signed payload agree on the body, the
-- timestamp, the nonce, the chain, the endpoint and the version, though the body is hashed without
-- its length; or the bytes that are signed for the two differ and have one digest.
pub build_payload-binds :
    (c : Crypto) (a b : SignedRequestV2)
    → IsRequest a
    → IsRequest b
    → build_payload c a ≡ build_payload c b
    → SameContent a b ⊎ Clash c (payload_bytes a) (payload_bytes b)
unfolding build_payload
build_payload-binds c a b ha hb h =
    let same_digest =
      array_bytes_inj (c.digest (payload_bytes a)) (c.digest (payload_bytes b))
        (c.digest-IsWord32 _) (c.digest-IsWord32 _) h in
    elim (digest_binds c (payload_bytes a) (payload_bytes b) same_digest) [
      | inl same ↦ inl (payload_bytes_inj a b ha hb same)
      | inr clash ↦ inr clash
    ]
