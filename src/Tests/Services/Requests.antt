-- ===== src/Tests/Services/Requests.antt =====
-- A signed request.
use aevum_public.Base.{◌<◌, ◌≡◌, refl, ◌≢◌, ◌↔◌, [], ◌∷◌, arith}
use aevum_public.Base.Bytes.{le_bytes, array_bytes}
use aevum_public.Api.Auth.{
  SignedRequestV2, AuthServiceV2, valid, default_config, new_cache, contains, push, insert_nonce,
  new_service, tick, payload_bytes, build_payload, verify,
}
use aevum_public.Api.Auth.Payload.{IsRequest}
use aevum_public.Api.Auth.Replay.{
  IsAuthentic, verify_iff, ticked, requested, handle, handle_all, requests, verify-no_replay,
}
use aevum_public.Tests.Values.{toy}

program : Unit {0}
unfolding le_bytes array_bytes new_cache contains push insert_nonce new_service tick payload_bytes
    build_payload verify handle handle_all
program = tt

abbrev unsigned : SignedRequestV2
unsigned = record {
  body = 1 ∷ 2 ∷ [];
  public_key = 11;
  signature = [];
  timestamp = 10;
  nonce = 4;
  chain_id = 1;
  endpoint = 2;
  api_version = 3;
}

abbrev request : SignedRequestV2
request = record unsigned { signature = 11 ∷ build_payload toy unsigned }

abbrev service : AuthServiceV2
service = tick (new_service default_config) 12

verify_iff_example :
    (((verify toy service request).1 ≡ valid) ↔ IsAuthentic toy service request)
    × ((verify toy service request).1 ≢ valid → (verify toy service request).0 ≡ service)
verify_iff_example = verify_iff toy service request

accepted : (verify toy service request).1 ≡ valid
unfolding program
accepted = refl

few : requests (ticked 20 ∷ requested request ∷ []) < service.nonces.max_size
unfolding program
few = omega arith

verify-no_replay_example :
    (verify toy
      (handle_all toy (verify toy service request).0 (ticked 20 ∷ requested request ∷ []))
      request).1
    ≢ valid
verify-no_replay_example =
    verify-no_replay toy service request request (ticked 20 ∷ requested request ∷ []) accepted few
      refl refl

ranged : IsRequest unsigned
ranged = record {
  timestamp = omega arith;
  nonce = omega arith;
  chain_id = omega arith;
  endpoint = omega arith;
  api_version = omega arith;
}

ranged_signed : IsRequest request
ranged_signed = record {
  timestamp = omega arith;
  nonce = omega arith;
  chain_id = omega arith;
  endpoint = omega arith;
  api_version = omega arith;
}

same_payload : build_payload toy unsigned ≡ build_payload toy request
unfolding build_payload payload_bytes
same_payload = refl
