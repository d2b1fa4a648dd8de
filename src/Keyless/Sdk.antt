-- ===== src/Keyless/Sdk.antt =====
-- What the check of a workload token takes from elsewhere: the SDK, base64, serde_json and jsonwebtoken are the
-- record `Sdk`; JSON values and maps, decoding keys and the request's key are type parameters. Seconds are `i64`,
-- counted from `i64::MIN`.
use acdp_registry_rs.Keyless.Types.{schema_violation, KeylessRefusal}
use acdp_registry_rs.Prelude.{
  string_eq, err, ◌==◌, none, ok, false, some, Bool, List, Option, Result, String, ℕ,
}

-- An OIDC identity, by its issuer, subject and token, or a SPIFFE one, by its subject and token.
pub data IdentityDescriptor : Type 0 where
  oidc_identity : String → String → String → IdentityDescriptor
  spiffe_identity : String → String → IdentityDescriptor

pub data Kind : Type 0 where
  oidc spiffe : Kind

pub data Algorithm : Type 0 where
  rs256 rs384 rs512 ps256 ps384 ps512 es256 es384 eddsa : Algorithm

-- `decode` checks the signature only, as the caller asks. `as_i64` and `floor_f64` read a JSON number.
pub record Sdk (V M K J : Type 0) : Type 0 where
  pub validate : IdentityDescriptor → Result String (Unit {0})
  pub spiffe_trust_domain : String → Option String
  pub token_hash : String → String
  pub thumbprint : J → Result String String
  pub b64_decode : List ℕ → Option (List ℕ)
  pub from_slice : List ℕ → Option M
  pub get : String → M → Option V
  pub keys_of : M → List String
  pub as_str : V → Option String
  pub as_array : V → Option (List V)
  pub as_object : V → Option M
  pub as_i64 : V → Option ℕ
  pub floor_f64 : V → Option ℕ
  pub from_rsa_components : String → String → Option K
  pub from_ec_components : String → String → Option K
  pub from_ed_components : String → Option K
  pub decode : Algorithm → K → String → Option M

-- `and_then(Value::as_str) == Some(text)`
abbrev pub is_text : Option String → String → Bool
is_text none text = false
is_text (some s) text = s == text

abbrev pub and_then {ℓ κ} : {A : Type ℓ} {B : Type κ} → Option A → (A → Option B) → Option B
and_then none f = none
and_then (some a) f = f a

-- `map_err(SchemaViolation)`
abbrev pub or_violation {ℓ} : {A : Type ℓ} → Result String A → Result KeylessRefusal A
or_violation (ok a) = ok a
or_violation (err e) = err (schema_violation e)
