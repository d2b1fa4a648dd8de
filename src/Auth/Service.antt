-- ===== src/Auth/Service.antt =====
-- `AuthService` of crates/acdp-registry-auth/src/service.rs over the in-memory stores. The random nonce,
-- the token's UUID, each reading of the clock, DID resolution and signature verification (the crate
-- `acdp`) and JWT encoding are arguments. The source's `as i64` of a duration is exact below 2^63.
pub mod Laws
pub mod Revocation
use acdp_registry_rs.Auth.Keys.{verify_signature, resolve_key, Acdp, AuthConfig}
use Prim.Native.String.{◌++◌ as ◌<>◌, len, slice}
use Prim.Native.Char.{Char, code}
use text.Mathlib.Text.{starts_with}
use acdp_registry_rs.Prelude.{
  ℕ, String, Bool, true, false, not, ◌&&◌, ◌||◌, List, [], ◌∷◌, Option, none, some, Result, ok, err,
  ◌>>=◌, ◌>>◌, refuse_if, ok_or, ◌==◌, string_eq, if◌then◌else◌, ◌+◌, ltb, any, nat_eq, length,
}
use acdp_registry_rs.Time.{DateTime, timestamp, seconds, show_ℕ}
use acdp_registry_rs.Auth.Error.{
  AuthError, challenge_unknown, challenge_expired, key_id_malformed, key_id_mismatch,
  key_not_assertion, unsupported_did_method, algorithm_not_supported, signature_invalid, resolution,
  resolution_unreachable, internal, token_invalid,
}
use acdp_registry_rs.Auth.ChallengeStore.{ChallengeRecord, Challenges, put, take}
use acdp_registry_rs.Auth.RevocationStore.{
  RevocationRecord, InMemoryRevocationStore, record_issued, revoke, owner_of,
}
use acdp_registry_rs.Auth.Claims.{
  AuthChallenge, TokenRequest, TokenResponse, BearerClaims, TenantAgentBinding, signing_input,
}
use acdp_registry_rs.Auth.Jwt.{JsonWebToken, JwtSigner, map_err, sign}

pub record AuthService : Type 0 where
  pub config : AuthConfig
  pub signer : JwtSigner
  pub authority : String

-- What the service mutates. The signer holds the same revocation store.
pub record AuthState : Type 0 where
  pub challenges : Challenges
  pub revocations : Option InMemoryRevocationStore

abbrev pub challenge_did_prefixes : List String
challenge_did_prefixes = "did:web:" ∷ "did:key:" ∷ []

abbrev pub challenge_agent_id_min_bytes : ℕ
challenge_agent_id_min_bytes = 9

abbrev pub challenge_agent_id_max_bytes : ℕ
challenge_agent_id_max_bytes = 2048

-- The screen of `issue_challenge`.
unfoldable pub is_unscreened : String → Bool
is_unscreened agent_id =
    not (any (λ p. starts_with agent_id p) challenge_did_prefixes)
    || ltb (len agent_id) challenge_agent_id_min_bytes
    || ltb challenge_agent_id_max_bytes (len agent_id)

-- Ends `issue_challenge` on what `put` answered.
abbrev pub challenge_issued :
    AuthChallenge
    → AuthState
    → Result AuthError (Unit {0}) × Challenges
    → Result AuthError AuthChallenge × AuthState
challenge_issued answer s (ok _, challenges) = (ok answer, record s { challenges = challenges })
challenge_issued answer s (err e, challenges) = (err e, record s { challenges = challenges })

-- `nonce` is the encoding of the 24 random bytes.
unfoldable pub issue_challenge :
    AuthService
    → String
    → DateTime
    → String
    → AuthState
    → Result AuthError AuthChallenge × AuthState
issue_challenge svc nonce now agent_id s =
    if is_unscreened agent_id
    then (err (unsupported_did_method agent_id), s)
    else let expires_at = now + seconds svc.config.challenge_ttl_seconds in
      challenge_issued
        (record {
          nonce = nonce;
          registry_authority = svc.authority;
          expires_at = timestamp expires_at;
          signing_input = signing_input nonce agent_id svc.authority (timestamp expires_at);
        })
        s
        (put (record { nonce = nonce; agent_id = agent_id; expires_at = expires_at }) s.challenges)

-- Steps 2 to 4 of `issue_token`: the challenge's bindings, its expiry and the algorithm.
unfoldable pub check_challenge :
    ChallengeRecord → TokenRequest → DateTime → Result AuthError (Unit {0})
check_challenge rec req now = do
  refuse_if (not (rec.agent_id == req.agent_id)) (challenge_unknown "challenge agent_id mismatch")
  refuse_if (not (timestamp rec.expires_at == req.expires_at))
      (challenge_unknown "challenge expires_at mismatch")
  refuse_if (ltb req.expires_at (timestamp now)) challenge_expired
  refuse_if (not (req.algorithm == "ed25519") && not (req.algorithm == "ecdsa-p256"))
      (algorithm_not_supported req.algorithm)

-- `Iterator::find` in `tenant_for_agent`: the first binding wins.
unfoldable pub tenant_for_agent : List TenantAgentBinding → String → Option String
tenant_for_agent [] agent_did = none
tenant_for_agent (b ∷ bindings) agent_did =
    let rest = tenant_for_agent bindings agent_did in
    if b.agent_did == agent_did then some b.tenant_id else rest

-- The claims of step 5. `jti` is the fresh UUID.
unfoldable pub claims_for : AuthService → TokenRequest → DateTime → String → BearerClaims
claims_for svc req now jti = record {
  iss = svc.signer.issuer;
  sub = req.agent_id;
  aud = svc.authority;
  jti = jti;
  iat = timestamp now;
  exp = timestamp (now + seconds svc.config.token_ttl_seconds);
  acdp = record { registry = svc.authority; key_id = req.key_id };
  tenant = tenant_for_agent svc.config.tenant_agents req.agent_id;
}

-- All of `issue_token` between the consumed challenge and the revocation record.
unfoldable pub redeem :
    AuthService
    → Acdp
    → JsonWebToken
    → DateTime
    → String
    → TokenRequest
    → Option ChallengeRecord
    → Result AuthError TokenResponse
redeem svc acdp jwt now jti req taken = do
  rec ← ok_or taken (challenge_unknown req.nonce)
  check_challenge rec req now
  pub_bytes ← resolve_key svc.config acdp req
  verify_signature acdp req pub_bytes
      (signing_input req.nonce req.agent_id svc.authority req.expires_at)
  token ← sign jwt (claims_for svc req now jti)
  ok (record {
    token = token;
    token_type = "Bearer";
    expires_at = timestamp (now + seconds svc.config.token_ttl_seconds);
  })

abbrev pub record_in :
    RevocationRecord → Option InMemoryRevocationStore → Option InMemoryRevocationStore
record_in r none = none
record_in r (some rev) = some (record_issued r rev)

-- A minted token is recorded before it is handed out; a refusal records nothing.
abbrev pub token_issued :
    RevocationRecord
    → AuthState
    → Result AuthError TokenResponse
    → Result AuthError TokenResponse × AuthState
token_issued r s (ok response) = (ok response, record s { revocations = record_in r s.revocations })
token_issued r s (err e) = (err e, s)

-- `take_now` is the store's clock reading, `now` the one of step 3.
unfoldable pub issue_token :
    AuthService
    → Acdp
    → JsonWebToken
    → DateTime
    → DateTime
    → String
    → TokenRequest
    → AuthState
    → Result AuthError TokenResponse × AuthState
issue_token svc acdp jwt take_now now jti req s =
    let (taken, challenges) = take req.nonce take_now s.challenges in
    token_issued
      (record {
        jti = jti;
        agent_did = req.agent_id;
        expires_at = now + seconds svc.config.token_ttl_seconds;
      })
      (record s { challenges = challenges }) (redeem svc acdp jwt now jti req taken)

-- Revokes only where the caller owns the token.
abbrev pub revoke_owned :
    AuthService
    → DateTime
    → String
    → String
    → AuthState
    → InMemoryRevocationStore
    → Option String
    → Result AuthError (Unit {0}) × AuthState
revoke_owned svc now jti caller_did s rev none =
    (err (token_invalid ("no record for jti '" <> (jti <> "'"))), s)
revoke_owned svc now jti caller_did s rev (some owner) =
    if owner == caller_did
    then (
      ok tt,
      record s {
        revocations = some (
            revoke
              (record {
                jti = jti;
                agent_did = owner;
                expires_at = now + seconds svc.config.token_ttl_seconds;
              })
              rev);
      },
    )
    else (err (token_invalid "may only revoke tokens issued to the calling DID"), s)

abbrev pub revoke_in :
    AuthService
    → DateTime
    → String
    → String
    → AuthState
    → Option InMemoryRevocationStore
    → Result AuthError (Unit {0}) × AuthState
revoke_in svc now jti caller_did s none =
    (err (internal "token revocation is not configured on this registry"), s)
revoke_in svc now jti caller_did s (some rev) =
    revoke_owned svc now jti caller_did s rev (owner_of jti rev)

unfoldable pub revoke_token :
    AuthService → DateTime → String → String → AuthState → Result AuthError (Unit {0}) × AuthState
revoke_token svc now jti caller_did s = revoke_in svc now jti caller_did s s.revocations
