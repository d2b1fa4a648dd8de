-- ===== src/Keyless/SigningKey.antt =====
-- The key of a token: `select_key`, `decoding_key` and `ec_key` of
-- crates/acdp-registry-core/src/keyless/token.rs.
use acdp_registry_rs.Keyless.Header.{Header}
use acdp_registry_rs.Keyless.Sdk.{oidc, spiffe, is_text, Sdk, Kind}
use acdp_registry_rs.Keyless.Types.{token_invalid, KeylessRefusal, KeySet, IssuerJwk}
use acdp_registry_rs.Prelude.{
  nat_eq, drop_while, length, err, ltb, if◌then◌else◌, codes, [], string_eq, ◌>>◌, ◌>>=◌, ◌||◌,
  ◌&&◌, none, refuse_if, ok_or, ◌==◌, false, filterb, ◌∷◌, not, true, Result, some, List, Bool,
  String, Option, ℕ,
}

abbrev pub min_rsa_modulus_bytes : ℕ
min_rsa_modulus_bytes = 256

pub data Selected : Type 0 where
  one : IssuerJwk → Selected
  nothing : Selected
  ambiguous : Selected

-- OIDC: `use` absent or `sig`; SPIFFE: `jwt-svid`.
abbrev pub usable : Kind → Option String → Bool
usable oidc none = true
usable oidc (some u) = u == "sig"
usable spiffe use_ = is_text use_ "jwt-svid"

unfoldable pub is_candidate : Kind → IssuerJwk → Bool
is_candidate kind k = not (k.kty == "oct") && usable kind k.use_

-- The match on the slice of matching keys.
abbrev pub only : Option String → List IssuerJwk → Selected
only kid [] = nothing
only kid (k ∷ []) = one k
only (some kid) (k ∷ l ∷ rest) = ambiguous
only none (k ∷ l ∷ rest) = nothing

abbrev pub matching : Option String → List IssuerJwk → List IssuerJwk
matching none candidates = candidates
matching (some kid) candidates = filterb (λ (k : IssuerJwk). is_text k.kid kid) candidates

unfoldable pub select_key : KeySet → Header → Kind → Selected
unfolding is_candidate
select_key ks header kind =
    only header.kid (matching header.kid (filterb (is_candidate kind) ks.keys))

-- `a.zip(b)`
abbrev pub zip {ℓ κ} : {A : Type ℓ} {B : Type κ} → Option A → Option B → Option (A × B)
zip none b = none
zip (some a) none = none
zip (some a) (some b) = some (a, b)

abbrev pub misfit : KeylessRefusal
misfit = token_invalid "key does not fit alg"

-- The key's own `alg`, where it has one, is another than the header's.
abbrev pub alg_differs : Option String → String → Bool
alg_differs none name = false
alg_differs (some a) name = not (a == name)

abbrev pub is_rsa_name : String → Bool
is_rsa_name name =
    (name == "RS256")
    || (name == "RS384")
    || (name == "RS512")
    || (name == "PS256")
    || (name == "PS384")
    || (name == "PS512")

module _ {V M K J : Type 0} (sdk : Sdk V M K J) where
  abbrev pub ec_key : IssuerJwk → Result KeylessRefusal K
  ec_key key = ok_or (zip key.x key.y) misfit >>= λ p. ok_or (sdk.from_ec_components p.0 p.1) misfit

  abbrev pub rsa_key : IssuerJwk → Result KeylessRefusal K
  rsa_key key = do
    p ← ok_or (zip key.n key.e) misfit
    modulus ← ok_or (sdk.b64_decode (codes p.0)) misfit
    refuse_if (ltb (length (drop_while (λ b. b == 0) modulus)) min_rsa_modulus_bytes)
        (token_invalid "RSA key shorter than 2048 bits")
    ok_or (sdk.from_rsa_components p.0 p.1) misfit

  abbrev pub ed_key : IssuerJwk → Result KeylessRefusal K
  ed_key key = ok_or key.x misfit >>= λ x. ok_or (sdk.from_ed_components x) misfit

  unfoldable pub decoding_key : IssuerJwk → Header → Result KeylessRefusal K
  decoding_key key header =
      refuse_if (alg_differs key.alg header.alg_name) misfit
      >> (if is_rsa_name header.alg_name && (key.kty == "RSA")
          then rsa_key key
          else if (header.alg_name == "ES256") && (key.kty == "EC") && is_text key.crv "P-256"
          then ec_key key
          else if (header.alg_name == "ES384") && (key.kty == "EC") && is_text key.crv "P-384"
          then ec_key key
          else if (header.alg_name == "EdDSA") && (key.kty == "OKP") && is_text key.crv "Ed25519"
          then ed_key key
          else err misfit)
