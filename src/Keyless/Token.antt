-- ===== src/Keyless/Token.antt =====
-- The check of a workload token: `verify` of crates/acdp-registry-core/src/keyless/token.rs, over the cache of
-- keys. Each call of the cache takes what the network answers and the cache's clock at that moment.
pub mod Claimed
pub mod Picked
pub mod Recognised
pub mod Verified
use acdp_registry_rs.Keyless.Claims.{check_claims}
use acdp_registry_rs.Keyless.Header.{parse_header, Header}
use acdp_registry_rs.Keyless.SigningKey.{
  nothing, decoding_key, select_key, ambiguous, one, Selected,
}
use acdp_registry_rs.Keyless.Types.{
  spiffe_source, schema_violation, oidc_source, issuer_not_accepted, issuer_unreachable, KeySet,
  SpiffeDomain, OidcIssuer, KeylessConfig, IssuerJwk, token_invalid, KeySource, KeylessRefusal,
}
use acdp_registry_rs.Keyless.Jwks.{
  refresh_for_unknown_kid, keys, JwksCache, Answer, IssuerUnreachable, Fetched, Target,
}
use acdp_registry_rs.Keyless.Sdk.{
  or_violation, spiffe, oidc, spiffe_identity, oidc_identity, Sdk, IdentityDescriptor, Kind,
}
use acdp_registry_rs.Prelude.{
  ◌>>◌, ◌>>=◌, string_eq, [], ◌==◌, if◌then◌else◌, ◌∷◌, some, ◌>>=◌, none, err, ok_or, ok, List,
  Option, Result, String, ℕ,
}

pub record VerifiedToken : Type 0 where
  pub exp : ℕ
  pub token_hash : String

-- What step 2 settles of an identity.
pub record Accepted : Type 0 where
  pub kind : Kind
  pub source : KeySource
  pub expected_iss : Option String
  pub subject : String

abbrev pub find_oidc : String → List OidcIssuer → Option OidcIssuer
find_oidc issuer [] = none
find_oidc issuer (o ∷ rest) =
    let found = find_oidc issuer rest in if o.issuer == issuer then some o else found

abbrev pub find_spiffe : String → List SpiffeDomain → Option SpiffeDomain
find_spiffe domain [] = none
find_spiffe domain (d ∷ rest) =
    let found = find_spiffe domain rest in if d.trust_domain == domain then some d else found

abbrev pub token : IdentityDescriptor → String
token (oidc_identity issuer subject t) = t
token (spiffe_identity subject t) = t

-- The answers of the network and the clock of the cache, for its lookup and for a forced refetch.
pub record Network : Type 0 where
  pub looked : Target → Fetched
  pub looked_at : ℕ
  pub forced : Target → Fetched
  pub forced_at : ℕ

-- `map_err(|_| IssuerUnreachable)`
abbrev pub reachable {ℓ} : {A : Type ℓ} → Result IssuerUnreachable A → Result KeylessRefusal A
reachable (ok a) = ok a
reachable (err e) = err issuer_unreachable

abbrev pub unknown_kid : KeylessRefusal
unknown_kid = token_invalid "unknown kid"

abbrev pub ambiguous_kid : KeylessRefusal
ambiguous_kid = token_invalid "kid matches more than one key"

-- The key among refetched ones.
abbrev pub refreshed_key : Selected → Result KeylessRefusal IssuerJwk
refreshed_key (one k) = ok k
refreshed_key ambiguous = err ambiguous_kid
refreshed_key nothing = err unknown_kid

-- The key after a forced refetch.
abbrev pub after_refresh :
    Header → Kind → Answer (Option KeySet) → Result KeylessRefusal IssuerJwk × JwksCache
after_refresh header kind (answer, c) = (
  reachable answer >>= λ refreshed.
      ok_or refreshed unknown_kid >>= λ ks. refreshed_key (select_key ks header kind),
  c,
)

-- What is done with what the held keys give.
abbrev pub by_selection :
    Network
    → KeySource
    → Header
    → Kind
    → Option String
    → JwksCache
    → Selected
    → Result KeylessRefusal IssuerJwk × JwksCache
by_selection net source header kind kid c (one k) = (ok k, c)
by_selection net source header kind kid c ambiguous = (err ambiguous_kid, c)
by_selection net source header kind (some kid) c nothing =
    after_refresh header kind (refresh_for_unknown_kid net.forced source net.forced_at c)
by_selection net source header kind none c nothing =
    (err (token_invalid "no kid and not exactly one usable key"), c)

abbrev pub with_keys :
    Network
    → KeySource
    → Header
    → Kind
    → Answer KeySet
    → Result KeylessRefusal IssuerJwk × JwksCache
with_keys net source header kind (err e, c) = (err issuer_unreachable, c)
with_keys net source header kind (ok ks, c) =
    by_selection net source header kind header.kid c (select_key ks header kind)

-- The key, by `kid`, with one forced refetch for an unknown one.
unfoldable pub pick_key :
    Network → KeySource → Header → Kind → JwksCache → Result KeylessRefusal IssuerJwk × JwksCache
pick_key net source header kind c =
    with_keys net source header kind (keys net.looked source net.looked_at c)

module _ {V M K J : Type 0} (sdk : Sdk V M K J) (cfg : KeylessConfig) where
  unfoldable pub accept : IdentityDescriptor → Result KeylessRefusal Accepted
  accept (oidc_identity issuer subject t) =
      ok_or (find_oidc issuer cfg.oidc_issuers) issuer_not_accepted >>= λ o. ok (record {
        kind = oidc;
        source = oidc_source o.issuer;
        expected_iss = some o.issuer;
        subject = subject;
      })
  accept (spiffe_identity subject t) =
      ok_or (sdk.spiffe_trust_domain subject)
        (schema_violation "identity.subject is not a SPIFFE ID")
      >>= λ domain. ok_or (find_spiffe domain cfg.spiffe_trust_domains) issuer_not_accepted >>= λ d.
          ok (record {
            kind = spiffe;
            source = spiffe_source d.trust_domain;
            expected_iss = d.jwt_issuer;
            subject = subject;
          })

  -- The steps before any fetch.
  unfoldable pub before_fetch : IdentityDescriptor → Result KeylessRefusal (Accepted × Header)
  unfolding accept
  before_fetch identity = do
    or_violation (sdk.validate identity)
    accepted ← accept identity
    header ← parse_header sdk (token identity) accepted.kind
    ok (accepted, header)

  -- The steps after the key.
  unfoldable pub after_key :
      IdentityDescriptor
      → String
      → J
      → ℕ
      → Accepted
      → Header
      → IssuerJwk
      → Result KeylessRefusal VerifiedToken
  after_key identity registry_did jwk now accepted header key = do
    decoding ← decoding_key sdk key header
    claims ←
        ok_or (sdk.decode header.alg decoding (token identity))
          (token_invalid "signature does not verify")
    exp ← check_claims sdk accepted.expected_iss accepted.subject registry_did jwk now claims
    ok (record { exp = exp; token_hash = sdk.token_hash (token identity) })

  abbrev pub verify_with :
      Network
      → IdentityDescriptor
      → String
      → J
      → ℕ
      → JwksCache
      → Result KeylessRefusal (Accepted × Header)
      → Result KeylessRefusal VerifiedToken × JwksCache
  verify_with net identity registry_did jwk now c (err refusal) = (err refusal, c)
  verify_with net identity registry_did jwk now c (ok (accepted, header)) =
      let picked = pick_key net accepted.source header accepted.kind c in
      (picked.0 >>= λ key. after_key identity registry_did jwk now accepted header key, picked.1)

  unfoldable pub verify :
      Network
      → IdentityDescriptor
      → String
      → J
      → ℕ
      → JwksCache
      → Result KeylessRefusal VerifiedToken × JwksCache
  unfolding before_fetch
  verify net identity registry_did jwk now c =
      verify_with net identity registry_did jwk now c (before_fetch identity)
