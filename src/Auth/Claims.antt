-- ===== src/Auth/Claims.antt =====
-- The wire types of crates/acdp-registry-types/src/auth.rs, and `TenantAgentBinding` of its config.rs.
use Prim.Native.String.{◌++◌ as ◌<>◌}
use acdp_registry_rs.Prelude.{ℕ, String, Option}
use acdp_registry_rs.Time.{show_timestamp}

pub record AcdpClaims : Type 0 where
  pub registry : String
  pub key_id : String

pub record BearerClaims : Type 0 where
  pub iss : String
  pub sub : String
  pub aud : String
  pub jti : String
  pub iat : ℕ
  pub exp : ℕ
  pub acdp : AcdpClaims
  pub tenant : Option String

pub record AuthChallenge : Type 0 where
  pub nonce : String
  pub registry_authority : String
  pub expires_at : ℕ
  pub signing_input : String

pub record TokenRequest : Type 0 where
  pub agent_id : String
  pub key_id : String
  pub nonce : String
  pub expires_at : ℕ
  pub algorithm : String
  pub signature : String

pub record TokenResponse : Type 0 where
  pub token : String
  pub token_type : String
  pub expires_at : ℕ

pub record TenantAgentBinding : Type 0 where
  pub agent_did : String
  pub tenant_id : String

-- `AuthChallenge::signing_input`
unfoldable pub signing_input : String → String → String → ℕ → String
signing_input nonce agent_id authority expires_at =
    "acdp-registry-auth:v1:"
    <> nonce
    <> ":"
    <> agent_id
    <> ":"
    <> authority
    <> ":"
    <> show_timestamp expires_at
