-- ===== src/Keyless/Types.antt =====
-- KeylessConfig of crates/acdp-registry-types/src/config.rs, and the types of the key cache and of refusals in
-- crates/acdp-registry-core/src/keyless: jwks.rs and mod.rs.
use acdp_registry_rs.Prelude.{
  eq_iff, string_eq, arith, ◌↔◌, false, true, ◌==◌, Option, Eq, ◌≡◌, List, Bool, String, ℕ,
}

pub record OidcIssuer : Type 0 where
  pub issuer : String
  pub jwks_uri : Option String

pub record SpiffeDomain : Type 0 where
  pub trust_domain : String
  pub bundle_endpoint : String
  pub jwt_issuer : Option String

-- The bounds on the fetch client and the rates, which other parts read, are left out.
pub record KeylessConfig : Type 0 where
  pub enabled : Bool
  pub oidc_issuers : List OidcIssuer
  pub spiffe_trust_domains : List SpiffeDomain
  pub jwks_cache_ttl_seconds : ℕ
  pub jwks_max_stale_seconds : ℕ

pub data KeySource : Type 0 where
  oidc_source : String → KeySource
  spiffe_source : String → KeySource

pub record IssuerJwk : Type 0 where
  pub kty : String
  pub kid : Option String
  pub alg : Option String
  pub use_ : Option String
  pub crv : Option String
  pub n : Option String
  pub e : Option String
  pub x : Option String
  pub y : Option String

pub record KeySet : Type 0 where
  pub keys : List IssuerJwk

pub data KeylessRefusal : Type 0 where
  schema_violation : String → KeylessRefusal
  issuer_not_accepted : KeylessRefusal
  token_invalid : String → KeylessRefusal
  issuer_unreachable : KeylessRefusal
  audience_mismatch : KeylessRefusal
  confirmation_mismatch : KeylessRefusal

abbrev pub source_beq : KeySource → KeySource → Bool
source_beq (oidc_source a) (oidc_source b) = a == b
source_beq (spiffe_source a) (spiffe_source b) = a == b
source_beq _ _ = false

pub source_beq_iff : (a b : KeySource) → (source_beq a b ≡ true) ↔ (a ≡ b)
source_beq_iff (oidc_source a) (oidc_source b) = ground (arith, eq_iff a b)
source_beq_iff (spiffe_source a) (spiffe_source b) = ground (arith, eq_iff a b)
source_beq_iff (oidc_source a) (spiffe_source b) = ground arith
source_beq_iff (spiffe_source a) (oidc_source b) = ground arith

-- `#[derive(PartialEq)]`
instance abbrev pub source_eq : Eq KeySource
source_eq = record { beq_iff = source_beq_iff; beq = source_beq }
