-- ===== src/Auth/Tests.antt =====
-- The theorems on authentication, at one agent, one challenge and one token.
use acdp_registry_rs.Auth.RevocationStore.Laws.{evict_op as retire_op}
use acdp_registry_rs.Auth.Jwt.Laws.{validate-Accepted, Accepted, validate_retired_tombstone}
use acdp_registry_rs.Auth.RevocationStore.Laws.{run}
use acdp_registry_rs.Auth.Service.Revocation.{
  revoke_token-issue_token, revoke_token_owner, validate-revoke_token, Revoked,
}
use acdp_registry_rs.Auth.Service.Laws.{issue_token-Redeemed, Redeemed, issue_token-issue_token}
use acdp_registry_rs.Auth.Error.{AuthError, challenge_unknown}
use acdp_registry_rs.Auth.ChallengeStore.Laws.{
  redeemed-le-stored, stored, take_op, put_op, redeemed, total,
}
use acdp_registry_rs.Auth.RevocationStore.{
  tombstone_cutoff, new, is_revoked, revoke, owner_of, InMemoryRevocationStore, InMemoryEntry,
  RevocationRecord,
}
use acdp_registry_rs.Time.{timestamp, DateTime, seconds}
use acdp_registry_rs.Prelude.{
  ◌≢◌, ◌≤◌, ◌⊎◌, insert, remove, some, lookup, refl, leb→le, ◌+◌, ◌∙◌, string_eq, arith,
  ok_injective, false, sym, true, leb, ◌==◌, [], ap, ◌&&◌, ◌≡◌, ok, String, Result, none, err, ◌∷◌,
  List, Bool,
}
use acdp_registry_rs.Auth.Service.{
  tenant_for_agent, claims_for, check_challenge, redeem, revoke_token, issue_token, AuthState,
  AuthService,
}
use acdp_registry_rs.Auth.Keys.{
  verify_signature, fragment_of, did_portion_of, split_hash, did_key_key, key_by_method,
  resolve_key, other, Acdp,
}
use acdp_registry_rs.Auth.Jwt.{
  sign, check_claims, validate, DecodeValidates, Validation, JsonWebToken, JwtSigner,
}
use acdp_registry_rs.Auth.Claims.{TokenResponse, BearerClaims, TokenRequest}
use acdp_registry_rs.Auth.ChallengeStore.{take, ChallengeRecord}

abbrev challenge_a : ChallengeRecord
challenge_a = record { nonce = "n"; agent_id = "did:key:zA"; expires_at = seconds 100 }

abbrev request : TokenRequest
request = record {
  agent_id = "did:key:zA";
  key_id = "did:key:zA#zA";
  nonce = "n";
  expires_at = 100;
  algorithm = "ecdsa-p256";
  signature = "sig";
}

abbrev signer : JwtSigner
signer = record { issuer = "https://r"; registry_authority = "r"; leeway_seconds = 5 }

abbrev service : AuthService
service = record {
  config = record {
    did_methods = "did:key" ∷ [];
    challenge_ttl_seconds = 60;
    token_ttl_seconds = 600;
    tenant_agents = [];
  };
  signer = signer;
  authority = "r";
}

abbrev acdp : Acdp
acdp = record {
  resolve_with_fragment = λ did fragment. err (other "unknown");
  resolve_did_key = λ did. ok (record { algorithm = "ecdsa-p256"; bytes = 1 ∷ [] });
  verify_ed25519 = λ key signature input. err "mismatch";
  verify_ecdsa_p256 = λ key signature input. ok tt;
}

abbrev claims : BearerClaims
claims = record {
  iss = "https://r";
  sub = "did:key:zA";
  aud = "r";
  jti = "j";
  iat = 50;
  exp = 650;
  acdp = record { registry = "r"; key_id = "did:key:zA#zA" };
  tenant = none;
}

-- Accepts the one token, for the issuer and audience of its claims, until its expiry.
abbrev decode_if : Bool → Result String BearerClaims
decode_if true = ok claims
decode_if false = err "invalid"

abbrev names : List String → String → Bool
names (x ∷ []) s = x == s
names _ s = false

abbrev jwt : JsonWebToken
jwt = record {
  encode = λ c. ok "token";
  decode = λ v now token.
      decode_if
        (names v.iss "https://r" && (names v.aud "r" && leb (timestamp now) (650 + v.leeway)));
}

decode_if-claims : (b : Bool) (c : BearerClaims) → decode_if b ≡ ok c → (b ≡ true) × (claims ≡ c)
decode_if-claims true c h = (refl, ok_injective h)
decode_if-claims false c h = cc

and_true : (a b c : Bool) → (a && (b && c)) ≡ true → (a ≡ true) × (b ≡ true) × (c ≡ true)
and_true true b c h = ground arith
and_true false b c h = cc

names_one : (xs : List String) (x s : String) → xs ≡ x ∷ [] → names xs s ≡ true → s ≡ x
names_one xs x s e h = sym ((string_eq.beq_iff x s).0 (rw e at h))

accepts :
    (v : Validation) (now : DateTime) (token : String) (c : BearerClaims)
    → jwt.decode v now token ≡ ok c
    → (names v.iss "https://r" ≡ true)
      × (names v.aud "r" ≡ true)
      × (leb (timestamp now) (650 + v.leeway) ≡ true)
      × (claims ≡ c)
accepts v now token c h =
    let (b, same) = decode_if-claims _ c h in
    let (i, a, t) =
      and_true (names v.iss "https://r") (names v.aud "r") (leb (timestamp now) (650 + v.leeway))
        b in
    (i, a, t, same)

jwt-DecodeValidates : DecodeValidates jwt
jwt-DecodeValidates = record {
  issuer_checked = λ v now token i c e h.
      let (iss, aud, exp, same) = accepts v now token c h in
      ap (λ (x : BearerClaims). x.iss) (sym same) ∙ names_one v.iss i "https://r" e iss;
  audience_checked = λ v now token a c e h.
      let (iss, aud, exp, same) = accepts v now token c h in
      ap (λ (x : BearerClaims). x.aud) (sym same) ∙ names_one v.aud a "r" e aud;
  expiry_checked = λ v now token c e h.
      let (iss, aud, exp, same) = accepts v now token c h in
      rw (sym (ap (λ (x : BearerClaims). x.exp) same))
        (leb→le (timestamp now) (650 + v.leeway) exp);
}

abbrev record_j : RevocationRecord
record_j = record { jti = "j"; agent_did = "did:key:zA"; expires_at = seconds 650 }

abbrev entry_j : InMemoryEntry
entry_j = record { record_ = record_j; revoked = false }

abbrev store_j : InMemoryRevocationStore
store_j = record { inner = ("j", entry_j) ∷ []; cursors = [] }

abbrev state_a : AuthState
state_a = record { challenges = ("n", challenge_a) ∷ []; revocations = some new }

abbrev state_j : AuthState
state_j = record { challenges = []; revocations = some store_j }

abbrev response : TokenResponse
response = record { token = "token"; token_type = "Bearer"; expires_at = 650 }

redeemed-le-stored_example :
    total redeemed "n" (put_op challenge_a ∷ take_op "n" 1 ∷ take_op "n" 2 ∷ []) []
    ≤ total stored "n" (put_op challenge_a ∷ take_op "n" 1 ∷ take_op "n" 2 ∷ []) []
redeemed-le-stored_example =
    redeemed-le-stored "n" (put_op challenge_a ∷ take_op "n" 1 ∷ take_op "n" 2 ∷ [])

issue_token-Redeemed_example :
    Redeemed service acdp jwt (seconds 50) (seconds 50) "j" request state_a.challenges response
unfolding issue_token take lookup remove redeem check_challenge resolve_key key_by_method
    did_key_key split_hash did_portion_of fragment_of verify_signature sign claims_for
    tenant_for_agent
issue_token-Redeemed_example =
    issue_token-Redeemed service acdp jwt (seconds 50) (seconds 50) "j" request state_a refl

issue_token-issue_token_example :
    ((issue_token service acdp jwt 3 3 "k" request
        (issue_token service acdp jwt 1 1 "j" request state_a).1).0
      ≡ err (challenge_unknown "n"))
    × ((issue_token service acdp jwt 3 3 "k" request
          (issue_token service acdp jwt 1 1 "j" request state_a).1).1.revocations
        ≡ (issue_token service acdp jwt 1 1 "j" request state_a).1.revocations)
issue_token-issue_token_example =
    issue_token-issue_token service acdp acdp jwt jwt 1 1 3 3 "j" "k" request request state_a refl

revoke_token-issue_token_example :
    (revoke_token service
      (seconds 60)
      "j"
      "did:key:zA"
      (issue_token service acdp jwt (seconds 50) (seconds 50) "j" request state_a).1).0
    ≡ ok tt
unfolding issue_token take lookup remove redeem check_challenge resolve_key key_by_method
    did_key_key split_hash did_portion_of fragment_of verify_signature sign claims_for
    tenant_for_agent
revoke_token-issue_token_example =
    revoke_token-issue_token service acdp jwt (seconds 50) (seconds 50) (seconds 60) "j" request
      state_a new refl refl refl

revoke_token_owner_example :
    ((owner_of "j" store_j ≡ some "did:key:zA")
      × Revoked service 7 "j" "did:key:zA" state_j store_j)
    ⊎ ((owner_of "j" store_j ≢ some "did:key:zA")
        × (e : AuthError) × (revoke_token service 7 "j" "did:key:zA" state_j ≡ (err e, state_j)))
revoke_token_owner_example = revoke_token_owner service 7 "j" "did:key:zA" state_j store_j refl

abbrev revoked_j : InMemoryRevocationStore
revoked_j = record {
  inner = ("j", record { record_ = record_j; revoked = true }) ∷ [];
  cursors = [];
}

validate-revoke_token_example :
    validate jwt signer
      (some (run (retire_op (seconds 40) ∷ []) revoked_j))
      (seconds 600)
      (seconds 600)
      "token"
    ≢ ok claims
unfolding revoke_token owner_of lookup revoke insert tombstone_cutoff
validate-revoke_token_example =
    validate-revoke_token service jwt (seconds 60) "j" "did:key:zA" state_j store_j entry_j
      (record { challenges = []; revocations = some revoked_j }) revoked_j
      (retire_op (seconds 40) ∷ []) (seconds 600) (seconds 600) "token" claims refl (refl, tt) refl
      refl refl refl (omega arith, tt) (omega arith) (omega arith)

validate-Accepted_example :
    Accepted jwt signer (some store_j) (seconds 600) (seconds 600) "token" claims
unfolding validate check_claims is_revoked lookup tombstone_cutoff
validate-Accepted_example =
    validate-Accepted jwt signer (some store_j) (seconds 600) (seconds 600) "token" claims
      jwt-DecodeValidates refl

validate_retired_tombstone_example :
    validate jwt signer (some revoked_j) (seconds 655) (seconds 655) "token" ≡ ok claims
unfolding lookup
validate_retired_tombstone_example =
    validate_retired_tombstone jwt signer revoked_j (record { record_ = record_j; revoked = true })
      (seconds 655) (seconds 655) "token" claims refl (omega arith) refl refl
