-- ===== src/Api.antt =====
-- crates/aevum-api/src: the authentication of requests.
pub mod Auth
