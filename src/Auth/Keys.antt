-- ===== src/Auth/Keys.antt =====
-- The signing key of a token request: the part of `issue_token` in crates/acdp-registry-auth/src/service.rs
-- that resolves `key_id` and verifies the signature, and what it asks of the crate `acdp`.
use Prim.Native.String.{◌++◌ as ◌<>◌, len, slice}
use Prim.Native.Char.{Char, code}
use text.Mathlib.Text.{starts_with}
use acdp_registry_rs.Prelude.{
  ℕ, String, Bool, false, not, List, [], ◌∷◌, Option, none, some, Result, ok, err, ◌>>=◌, ◌>>◌,
  refuse_if, ok_or, ◌==◌, string_eq, if◌then◌else◌, any, nat_eq, length,
}
use acdp_registry_rs.Time.{show_ℕ}
use acdp_registry_rs.Auth.Error.{
  AuthError, key_id_malformed, key_id_mismatch, key_not_assertion, unsupported_did_method,
  algorithm_not_supported, signature_invalid, resolution, resolution_unreachable,
}
use acdp_registry_rs.Auth.Claims.{TokenRequest, TenantAgentBinding}
use acdp_registry_rs.Auth.Jwt.{map_err}

-- The parts of `AuthConfig` that the service reads.
pub record AuthConfig : Type 0 where
  pub did_methods : List String
  pub challenge_ttl_seconds : ℕ
  pub token_ttl_seconds : ℕ
  pub tenant_agents : List TenantAgentBinding

-- What the code asks of the crate `acdp`: a DID document's verification method, the errors of the
-- resolver, decoded did:key material, and the two signature checks.
pub record VerificationMethod : Type 0 where
  pub declared_algorithm : Option String
  pub ed25519_public_key_bytes : Result String (List ℕ)
  pub ecdsa_p256_public_key_sec1 : Result String (List ℕ)

pub record DidDocument : Type 0 where
  pub find_by_fragment : String → Option VerificationMethod
  pub is_assertion_method : String → Bool

pub data ResolveError : Type 0 where
  key_resolution_unreachable : String → ResolveError
  other : String → ResolveError

pub record DidKeyMaterial : Type 0 where
  pub algorithm : String
  pub bytes : List ℕ

pub record Acdp : Type 0 where
  pub resolve_with_fragment : String → String → Result ResolveError DidDocument
  pub resolve_did_key : String → Result String DidKeyMaterial
  pub verify_ed25519 : List ℕ → String → String → Result String (Unit {0})
  pub verify_ecdsa_p256 : List ℕ → String → String → Result String (Unit {0})

-- `str::split('#')`
abbrev split_step : Char → List String → List String
split_step c [] = []
split_step c (part ∷ parts) =
    if code c == b'#' then "" ∷ part ∷ parts else String.◌∷◌ c part ∷ parts

unfoldable pub split_hash : String → List String
split_hash String.[] = "" ∷ []
split_hash (String.◌∷◌ c s) = split_step c (split_hash s)

-- `.next().filter(|s| !s.is_empty())`, and `.nth(1)`.
unfoldable pub did_portion_of : List String → Option String
did_portion_of [] = none
did_portion_of (did ∷ _) = if did == "" then none else some did

unfoldable pub fragment_of : List String → Option String
fragment_of (_ ∷ fragment ∷ _) = some fragment
fragment_of _ = none

abbrev resolved : Result ResolveError DidDocument → Result AuthError DidDocument
resolved (ok doc) = ok doc
resolved (err (key_resolution_unreachable m)) = err (resolution_unreachable m)
resolved (err (other m)) = err (resolution m)

abbrev declared_differs : Option String → String → Bool
declared_differs none algorithm = false
declared_differs (some declared) algorithm = not (declared == algorithm)

abbrev or_empty : Option String → String
or_empty none = ""
or_empty (some s) = s

abbrev key_bytes : String → VerificationMethod → Result AuthError (List ℕ)
key_bytes algorithm vm =
    if algorithm == "ed25519"
    then map_err (λ e. resolution ("key decode: " <> e)) vm.ed25519_public_key_bytes
    else if algorithm == "ecdsa-p256"
    then map_err (λ e. resolution ("key decode: " <> e)) vm.ecdsa_p256_public_key_sec1
    else err (algorithm_not_supported algorithm)

-- The did:web branch: the DID document's verification method.
unfoldable pub did_web_key : Acdp → TokenRequest → String → String → Result AuthError (List ℕ)
did_web_key acdp req did_portion fragment = do
  doc ← resolved (acdp.resolve_with_fragment did_portion fragment)
  vm ←
      ok_or (doc.find_by_fragment fragment)
        (key_id_malformed ("fragment '" <> (fragment <> "' not in DID doc")))
  refuse_if (not (doc.is_assertion_method req.key_id)) key_not_assertion
  refuse_if (declared_differs vm.declared_algorithm req.algorithm) (
      algorithm_not_supported (
        "request algorithm '"
        <> (req.algorithm
            <> ("' does not match verification method type (declared '"
                <> (or_empty vm.declared_algorithm <> "')")))))
  key_bytes req.algorithm vm

-- The did:key branch: the DID is the key.
unfoldable pub did_key_key :
    AuthConfig → Acdp → TokenRequest → String → String → Result AuthError (List ℕ)
did_key_key config acdp req did_portion fragment = do
  refuse_if (not (any (λ m. m == "did:key") config.did_methods))
      (unsupported_did_method did_portion)
  let msi = slice did_portion 8 (len did_portion)
  refuse_if (not (fragment == msi)) (
      key_id_malformed (
        "did:key fragment '"
        <> (fragment <> ("' does not match method-specific id '" <> (msi <> "'")))))
  material ← map_err resolution (acdp.resolve_did_key did_portion)
  refuse_if (not (material.algorithm == req.algorithm)) (
      algorithm_not_supported (
        "request algorithm '"
        <> (req.algorithm
            <> ("' does not match did:key algorithm '" <> (material.algorithm <> "'")))))
  ok material.bytes

unfoldable pub key_by_method :
    AuthConfig → Acdp → TokenRequest → String → String → Result AuthError (List ℕ)
unfolding did_web_key did_key_key
key_by_method config acdp req did_portion fragment =
    if starts_with did_portion "did:web:"
    then did_web_key acdp req did_portion fragment
    else if starts_with did_portion "did:key:"
    then did_key_key config acdp req did_portion fragment
    else err (unsupported_did_method did_portion)

-- The signing key of `req.key_id`, which must lie under the requesting agent's DID.
unfoldable pub resolve_key : AuthConfig → Acdp → TokenRequest → Result AuthError (List ℕ)
resolve_key config acdp req = do
  did_portion ← ok_or (did_portion_of (split_hash req.key_id)) (key_id_malformed req.key_id)
  refuse_if (not (did_portion == req.agent_id)) key_id_mismatch
  fragment ← ok_or (fragment_of (split_hash req.key_id)) (key_id_malformed req.key_id)
  key_by_method config acdp req did_portion fragment

-- The algorithm's verifier, on a key of its size.
unfoldable pub verify_signature :
    Acdp → TokenRequest → List ℕ → String → Result AuthError (Unit {0})
verify_signature acdp req pub_bytes input =
    if req.algorithm == "ed25519"
    then (do
      refuse_if (not (length pub_bytes == 32))
          (resolution ("ed25519 key must be 32 bytes, got " <> show_ℕ (length pub_bytes)))
      map_err signature_invalid (acdp.verify_ed25519 pub_bytes req.signature input))
    else if req.algorithm == "ecdsa-p256"
    then map_err signature_invalid (acdp.verify_ecdsa_p256 pub_bytes req.signature input)
    else err (algorithm_not_supported req.algorithm)
