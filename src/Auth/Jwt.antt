-- ===== src/Auth/Jwt.antt =====
-- `JwtSigner` of crates/acdp-registry-auth/src/jwt.rs. The crate `jsonwebtoken` is a parameter:
-- `decode` with the validation that the signer sets up, and `encode`.
pub mod Laws
use Prim.Native.String.{◌++◌ as ◌<>◌}
use acdp_registry_rs.Prelude.{
  ℕ, String, Bool, true, false, not, List, [], ◌∷◌, Option, none, some, Result, ok, err, ◌>>=◌,
  ◌>>◌, refuse_if, ◌==◌, string_eq, if◌then◌else◌, ◌+◌, ◌≤◌, ◌≡◌,
}
use acdp_registry_rs.Time.{DateTime, timestamp}
use acdp_registry_rs.Auth.Error.{AuthError, token_invalid, internal}
use acdp_registry_rs.Auth.Claims.{BearerClaims, AcdpClaims}
use acdp_registry_rs.Auth.RevocationStore.{InMemoryRevocationStore, is_revoked, tombstone_cutoff}

-- The fields of `jsonwebtoken::Validation` that the signer sets.
pub record Validation : Type 0 where
  pub iss : List String
  pub aud : List String
  pub required_spec_claims : List String
  pub validate_exp : Bool
  pub leeway : ℕ

-- `jsonwebtoken`, under the signer's keys. `decode` reads the clock, which is an argument here.
pub record JsonWebToken : Type 0 where
  pub encode : BearerClaims → Result String String
  pub decode : Validation → DateTime → String → Result String BearerClaims

pub record JwtSigner : Type 0 where
  pub issuer : String
  pub registry_authority : String
  pub leeway_seconds : ℕ

abbrev pub validation : JwtSigner → Validation
validation s = record {
  iss = s.issuer ∷ [];
  aud = s.registry_authority ∷ [];
  required_spec_claims = "exp" ∷ "iss" ∷ "aud" ∷ [];
  validate_exp = true;
  leeway = s.leeway_seconds;
}

-- `map_err`
abbrev pub map_err {ℓ} : {A : Type ℓ} → (String → AuthError) → Result String A → Result AuthError A
map_err f (ok a) = ok a
map_err f (err e) = err (f e)

unfoldable pub sign : JsonWebToken → BearerClaims → Result AuthError String
sign jwt claims = map_err (λ e. internal ("jwt sign: " <> e)) (jwt.encode claims)

abbrev pub revoked_as_of : Option InMemoryRevocationStore → String → DateTime → Bool
revoked_as_of none jti cutoff = false
revoked_as_of (some rev) jti cutoff = is_revoked jti cutoff rev

-- What follows `decode`. `now` is the clock reading for the tombstone.
unfoldable pub check_claims :
    JwtSigner
    → Option InMemoryRevocationStore
    → DateTime
    → BearerClaims
    → Result AuthError BearerClaims
check_claims s revocations now claims = do
  refuse_if (not (claims.acdp.registry == s.registry_authority)) (
      token_invalid (
        "wrong registry: claim '"
        <> (claims.acdp.registry <> ("' vs '" <> (s.registry_authority <> "'")))))
  refuse_if (revoked_as_of revocations claims.jti (tombstone_cutoff now s.leeway_seconds))
      (token_invalid ("token jti '" <> (claims.jti <> "' has been revoked")))
  ok claims

-- `decode_now` is the clock reading inside `decode`.
unfoldable pub validate :
    JsonWebToken
    → JwtSigner
    → Option InMemoryRevocationStore
    → DateTime
    → DateTime
    → String
    → Result AuthError BearerClaims
unfolding check_claims
validate jwt s revocations decode_now now token = do
  claims ← map_err token_invalid (jwt.decode (validation s) decode_now token)
  check_claims s revocations now claims

-- What the documentation of `jsonwebtoken` promises of an accepted token: the issuer and the audience
-- asked for, and an expiry that, in whole seconds, has not passed by more than the leeway.
pub record DecodeValidates (jwt : JsonWebToken) : Type 0 where
  pub issuer_checked :
      (v : Validation) (now : DateTime) (token i : String) (claims : BearerClaims)
      → v.iss ≡ i ∷ []
      → jwt.decode v now token ≡ ok claims
      → claims.iss ≡ i
  pub audience_checked :
      (v : Validation) (now : DateTime) (token a : String) (claims : BearerClaims)
      → v.aud ≡ a ∷ []
      → jwt.decode v now token ≡ ok claims
      → claims.aud ≡ a
  pub expiry_checked :
      (v : Validation) (now : DateTime) (token : String) (claims : BearerClaims)
      → v.validate_exp ≡ true
      → jwt.decode v now token ≡ ok claims
      → timestamp now ≤ claims.exp + v.leeway
