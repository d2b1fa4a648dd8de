-- ===== src/ReadGate/Tests.antt =====
-- The theorem on the read gate, at one configured token whose digest is given.
use acdp_registry_rs.Auth.Service.{tenant_for_agent}
use acdp_registry_rs.ReadGate.Principals.{read_gate-Authenticated, Authenticated}
use acdp_registry_rs.ReadGate.{
  did_principal, served, bearer_static_active, extract_bearer, resolve_token, resolve, charge_read,
  charged, read_gate, ReadLimiters, GateState,
}
use acdp_registry_rs.Auth.Claims.{TenantAgentBinding}
use acdp_registry_rs.ReadTokens.{
  ct_eq_32, parse_sha256_hex, find_entry, validate_read_token, is_read_token, from_config,
  ReadTokenEntry,
}
use acdp_registry_rs.Prelude.{
  replicate, ◌≡◌, ◌∷◌, [], err, some, none, refl, true, false, List, String, Option,
}

abbrev configured : List ReadTokenEntry
configured =
    record {
      id = "a";
      did = "did:web:a";
      sha256 = "0101010101010101010101010101010101010101010101010101010101010101";
      expires_at = some 100;
      tenant = none;
      operator_administered = true;
    }
    ∷ []

abbrev bindings : List TenantAgentBinding
bindings = record { agent_did = "did:web:a"; tenant_id = "t" } ∷ []

abbrev gate : GateState String
gate = record {
  enabled = true;
  read_tokens = from_config bindings configured;
  decode = λ body. some (replicate 32 0);
  sha256 = λ token. replicate 32 1;
  trim = λ s. s;
  validate_bearer_claims = λ token. err "no";
}

abbrev limiters : ReadLimiters
limiters = record { principal_limiter = none; anonymous_limiter = none }

abbrev header_values : List (Option String)
header_values = some "Bearer acdp_rt_aaaaaaaaaaaaaaaaaaaaaaaaaaaaaaaaaaaaaaaaaaa" ∷ []

serves :
    read_gate gate true false header_values 50 "ip:1" 7 limiters
    ≡ (served (did_principal "did:web:a" (some "t")), limiters)
unfolding read_gate charged charge_read resolve resolve_token extract_bearer is_read_token
    validate_read_token find_entry from_config parse_sha256_hex ct_eq_32 tenant_for_agent
    bearer_static_active
serves = refl

read_gate-Authenticated_example :
    Authenticated gate bindings configured refl
      (λ token. refl)
      header_values
      50
      "did:web:a"
      (some "t")
read_gate-Authenticated_example =
    read_gate-Authenticated gate bindings configured refl (λ token. refl) false header_values 50
      "ip:1" 7 limiters limiters "did:web:a" (some "t") serves
