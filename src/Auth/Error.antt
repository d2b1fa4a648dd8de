-- ===== src/Auth/Error.antt =====
-- `AuthError` of crates/acdp-registry-auth/src/lib.rs.
use acdp_registry_rs.Prelude.{String}

pub data AuthError : Type 0 where
  config : String → AuthError
  storage : String → AuthError
  challenge_unknown : String → AuthError
  challenge_expired : AuthError
  challenge_replay : String → AuthError
  resolution : String → AuthError
  resolution_unreachable : String → AuthError
  key_id_malformed : String → AuthError
  key_id_mismatch : AuthError
  key_not_assertion : AuthError
  unsupported_did_method : String → AuthError
  algorithm_not_supported : String → AuthError
  signature_invalid : String → AuthError
  token_invalid : String → AuthError
  internal : String → AuthError
