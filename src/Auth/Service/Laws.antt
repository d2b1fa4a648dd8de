-- ===== src/Auth/Service/Laws.antt =====
-- What the handshake of `AuthService` guarantees: a token is minted only for a live challenge of the same
-- agent under a verified signature, a nonce is spent by any attempt, and only owners revoke.
use acdp_registry_rs.Prelude.{
  ℕ, ◌≡◌, ◌≤◌, ◌<◌, refl, ap, ◌∙◌, String, List, none, some, lookup, Result, ok, err, refuse_if,
  ok_or, >>=-eq-ok, ok_or-eq-ok, refuse_if-eq-ok, arith, eq_iff, string_eq, ◌==◌, ◌⊎◌,
}
use acdp_registry_rs.Time.{DateTime, timestamp}
use acdp_registry_rs.Auth.Error.{AuthError, challenge_unknown}
use acdp_registry_rs.Auth.ChallengeStore.{ChallengeRecord, Challenges, take}
use acdp_registry_rs.Auth.ChallengeStore.Laws.{take_live, take-take}
use acdp_registry_rs.Auth.Claims.{TokenRequest, TokenResponse, signing_input}
use acdp_registry_rs.Auth.Jwt.{JsonWebToken, sign}
use acdp_registry_rs.Auth.Service.{
  RevocationRecord, false, not, AuthService, AuthState, check_challenge, claims_for, redeem,
  issue_token, token_issued,
}
use acdp_registry_rs.Auth.Keys.{
  AuthConfig, Acdp, resolve_key, verify_signature, did_portion_of, split_hash,
}

-- `check_challenge` passes exactly a challenge of the requesting agent, under the expiry that the
-- request echoes, which has not passed, and one of the two algorithms.
check_challenge-eq-ok :
    (rec : ChallengeRecord) (req : TokenRequest) (now : DateTime) {u : Unit {0}}
    → check_challenge rec req now ≡ ok u
    → (rec.agent_id ≡ req.agent_id)
      × (timestamp rec.expires_at ≡ req.expires_at)
      × (timestamp now ≤ req.expires_at)
      × ((req.algorithm ≡ "ed25519") ⊎ (req.algorithm ≡ "ecdsa-p256"))
unfolding check_challenge
check_challenge-eq-ok rec req now h = ground (
  arith,
  eq_iff rec.agent_id req.agent_id,
  eq_iff req.algorithm "ed25519",
  eq_iff req.algorithm "ecdsa-p256",
)

-- What stands behind a token that was issued.
pub record Redeemed (svc : AuthService) (acdp : Acdp) (jwt : JsonWebToken) (take_now now : DateTime)
    (jti : String) (req : TokenRequest) (challenges : Challenges) (response : TokenResponse)
    : Type 0 where
  pub challenge : ChallengeRecord
  pub pub_bytes : List ℕ
  pub was_stored : lookup req.nonce challenges ≡ some challenge
  pub was_live : take_now < challenge.expires_at
  pub same_agent : challenge.agent_id ≡ req.agent_id
  pub same_expiry : timestamp challenge.expires_at ≡ req.expires_at
  pub in_time : timestamp now ≤ req.expires_at
  pub known_algorithm : (req.algorithm ≡ "ed25519") ⊎ (req.algorithm ≡ "ecdsa-p256")
  pub agent_key : did_portion_of (split_hash req.key_id) ≡ some req.agent_id
  pub key_resolved : resolve_key svc.config acdp req ≡ ok pub_bytes
  pub signed :
      verify_signature acdp req pub_bytes
        (signing_input req.nonce req.agent_id svc.authority req.expires_at)
      ≡ ok tt
  pub minted : sign jwt (claims_for svc req now jti) ≡ ok response.token

==-of-not : (a b : String) → not (a == b) ≡ false → a ≡ b
==-of-not a b h = ground (arith, eq_iff a b)

answered_token :
    (token : String) (at : ℕ) (response : TokenResponse)
    → ◌≡◌ {A = Result AuthError TokenResponse}
        (ok (record { token = token; token_type = "Bearer"; expires_at = at }))
        (ok response)
    → token ≡ response.token
answered_token token at response h = ground arith

-- A resolved key lies under the agent's own DID.
resolve_key-agent :
    (config : AuthConfig) (acdp : Acdp) (req : TokenRequest) {bytes : List ℕ}
    → resolve_key config acdp req ≡ ok bytes
    → did_portion_of (split_hash req.key_id) ≡ some req.agent_id
unfolding resolve_key
resolve_key-agent config acdp req h =
    let (did, found, h1) = >>=-eq-ok (ok_or (did_portion_of (split_hash req.key_id)) _) _ h in
    let (_, same, h2) = >>=-eq-ok (refuse_if (not (did == req.agent_id)) _) _ h1 in
    ok_or-eq-ok _ _ found ∙ ap some (==-of-not did req.agent_id (refuse_if-eq-ok _ _ same))

redeem-eq-ok :
    (svc : AuthService) (acdp : Acdp) (jwt : JsonWebToken) (take_now now : DateTime) (jti : String)
    (req : TokenRequest) (g : Challenges) {response : TokenResponse}
    → redeem svc acdp jwt now jti req (take req.nonce take_now g).0 ≡ ok response
    → Redeemed svc acdp jwt take_now now jti req g response
unfolding redeem
redeem-eq-ok svc acdp jwt take_now now jti req g {response} h =
    let (rec, taken, h1) = >>=-eq-ok (ok_or (take req.nonce take_now g).0 _) _ h in
    let (_, checked, h2) = >>=-eq-ok (check_challenge rec req now) _ h1 in
    let (bytes, key, h3) = >>=-eq-ok (resolve_key svc.config acdp req) _ h2 in
    let (_, verified, h4) = >>=-eq-ok (verify_signature acdp req bytes _) _ h3 in
    let (token, made, h5) = >>=-eq-ok (sign jwt _) _ h4 in
    let (found, live) = take_live req.nonce take_now g (ok_or-eq-ok _ _ taken) in
    let (agent, expiry, in_time, algorithm) = check_challenge-eq-ok rec req now checked in
    record {
      challenge = rec;
      pub_bytes = bytes;
      was_stored = found;
      was_live = live;
      same_agent = agent;
      same_expiry = expiry;
      in_time = in_time;
      known_algorithm = algorithm;
      agent_key = resolve_key-agent svc.config acdp req key;
      key_resolved = key;
      signed = verified;
      minted = made ∙ ap ok (answered_token _ _ response h5);
    }

token_issued-eq-ok :
    (r : _) (s : AuthState) (res : Result AuthError TokenResponse) {response : TokenResponse}
    → (token_issued r s res).0 ≡ ok response
    → res ≡ ok response
token_issued-eq-ok r s (ok x) h = h
token_issued-eq-ok r s (err e) h = cc

-- A token is issued only for a live challenge stored under the request's nonce for the same agent and
-- expiry, in time, for a key under that agent's DID, over a signature of the canonical input.
pub issue_token-Redeemed :
    (svc : AuthService) (acdp : Acdp) (jwt : JsonWebToken) (take_now now : DateTime) (jti : String)
    (req : TokenRequest) (s : AuthState) {response : TokenResponse}
    → (issue_token svc acdp jwt take_now now jti req s).0 ≡ ok response
    → Redeemed svc acdp jwt take_now now jti req s.challenges response
unfolding issue_token
issue_token-Redeemed svc acdp jwt take_now now jti req s h =
    redeem-eq-ok svc acdp jwt take_now now jti req s.challenges (token_issued-eq-ok _ _ _ h)

challenges-token_issued :
    (r : RevocationRecord) (s : AuthState) (res : Result AuthError TokenResponse)
    → (token_issued r s res).1.challenges ≡ s.challenges
challenges-token_issued r s (ok x) = refl
challenges-token_issued r s (err e) = refl

-- Whatever an attempt answers, it leaves its nonce unknown to the challenge store.
issue_token-spends :
    (svc : AuthService) (acdp : Acdp) (jwt : JsonWebToken) (take_now now : DateTime) (jti : String)
    (req : TokenRequest) (s : AuthState)
    → (issue_token svc acdp jwt take_now now jti req s).1.challenges
      ≡ (take req.nonce take_now s.challenges).1
unfolding issue_token
issue_token-spends svc acdp jwt take_now now jti req s = challenges-token_issued _ _ _

-- An unknown nonce is refused as such, and nothing is recorded.
issue_token_unknown :
    (svc : AuthService) (acdp : Acdp) (jwt : JsonWebToken) (take_now now : DateTime) (jti : String)
    (req : TokenRequest) (s : AuthState)
    → (take req.nonce take_now s.challenges).0 ≡ none
    → let later = issue_token svc acdp jwt take_now now jti req s in
      (later.0 ≡ err (challenge_unknown req.nonce)) × (later.1.revocations ≡ s.revocations)
unfolding issue_token redeem
issue_token_unknown svc acdp jwt take_now now jti req s h = rw h (refl, refl)

-- A nonce answers one request: after any attempt, successful or refused, a following request with the same
-- nonce is refused as unknown, and records nothing.
pub issue_token-issue_token :
    (svc : AuthService) (acdp acdp' : Acdp) (jwt jwt' : JsonWebToken) (t n t' n' : DateTime)
    (jti jti' : String) (req req' : TokenRequest) (s : AuthState)
    → req'.nonce ≡ req.nonce
    → let s1 = (issue_token svc acdp jwt t n jti req s).1 in
      let later = issue_token svc acdp' jwt' t' n' jti' req' s1 in
      (later.0 ≡ err (challenge_unknown req'.nonce)) × (later.1.revocations ≡ s1.revocations)
issue_token-issue_token svc acdp acdp' jwt jwt' t n t' n' jti jti' req req' s same =
    issue_token_unknown svc acdp' jwt' t' n' jti' req' (issue_token svc acdp jwt t n jti req s).1 (
      rw (issue_token-spends svc acdp jwt t n jti req s, same)
        (take-take req.nonce t t' s.challenges))
