-- ===== src/Auth/Service/Revocation.antt =====
-- Who may revoke a token, and what revoking it does to every later presentation.
use acdp_registry_rs.Prelude.{
  sym, Bool-cases, ◌+◌, ◌≡◌, ◌≢◌, ◌<◌, refl, ap, ◌∙◌, String, List, Option, none, some, lookup,
  Result, ok, err, arith, eq_iff, string_eq, ◌==◌, ◌⊎◌, inl, inr, Distinct, All, lookup-insert,
}
use acdp_registry_rs.Time.{DateTime, seconds}
use acdp_registry_rs.Auth.Error.{token_invalid, AuthError}
use acdp_registry_rs.Auth.RevocationStore.{
  InMemoryRevocationStore, InMemoryEntry, RevocationRecord, owner_of, record_issued, revoke,
  tombstone_cutoff,
}
use acdp_registry_rs.Auth.RevocationStore.Laws.{Op, EvictsBy, run}
use acdp_registry_rs.Auth.Claims.{TokenRequest, TokenResponse, BearerClaims}
use acdp_registry_rs.Auth.Jwt.{JsonWebToken, validate}
use acdp_registry_rs.Auth.Jwt.Laws.{validate-revoke}
use acdp_registry_rs.Auth.Service.{
  AuthService, AuthState, issue_token, token_issued, revoke_token, revoke_owned,
}
use acdp_registry_rs.Auth.Keys.{Acdp}

-- The record that the owner's revocation hands to the store.
abbrev pub own_record : AuthService → DateTime → String → String → RevocationRecord
own_record svc now jti caller_did = record {
  jti = jti;
  agent_did = caller_did;
  expires_at = now + seconds svc.config.token_ttl_seconds;
}

-- What a revocation by the owner does.
abbrev pub Revoked :
    AuthService → DateTime → String → String → AuthState → InMemoryRevocationStore → Type 0
Revoked svc now jti caller_did s rev =
    revoke_token svc now jti caller_did s
    ≡ (ok tt, record s { revocations = some (revoke (own_record svc now jti caller_did) rev) })

left-by-revoke :
    (svc : AuthService) (now : DateTime) (jti caller_did : String) (s s' : AuthState)
    (rev rev' : InMemoryRevocationStore)
    → Revoked svc now jti caller_did s rev
    → revoke_token svc now jti caller_did s ≡ (ok tt, s')
    → s'.revocations ≡ some rev'
    → rev' ≡ revoke (own_record svc now jti caller_did) rev
left-by-revoke svc now jti caller_did s s' rev rev' did done after = ground arith

ok-ne-err :
    (x : AuthError) (s s' : AuthState)
    → ¬ (◌≡◌ {A = Result AuthError (Unit {0}) × AuthState} (ok tt, s') (err x, s))
ok-ne-err x s s' h = ground arith

revoke_owned-cases :
    (svc : AuthService) (now : DateTime) (jti caller_did : String) (s : AuthState)
    (rev : InMemoryRevocationStore) (o : Option String)
    → ((o ≡ some caller_did)
        × (revoke_owned svc now jti caller_did s rev o ≡ (
          ok tt,
          record s { revocations = some (revoke (own_record svc now jti caller_did) rev) },
        )))
      ⊎ ((o ≢ some caller_did)
          × (e : AuthError) × (revoke_owned svc now jti caller_did s rev o ≡ (err e, s)))
revoke_owned-cases svc now jti caller_did s rev none = inr (λ p. cc, _, refl)
revoke_owned-cases svc now jti caller_did s rev (some owner) =
    elim (Bool-cases (owner == caller_did)) [
      | inl same ↦
          let e : owner ≡ caller_did = (eq_iff owner caller_did).0 same in
          inl (ap some e, rw same (rw e refl))
      | inr other ↦ inr (
        λ p. ground (arith, eq_iff owner caller_did),
        token_invalid "may only revoke tokens issued to the calling DID",
        rw other refl,
      )
    ]

-- On a registry with a revocation store, `revoke_token` revokes exactly where the caller is the owner on
-- record; any other caller, and any unknown token, is refused with the state unchanged.
pub revoke_token_owner :
    (svc : AuthService) (now : DateTime) (jti caller_did : String) (s : AuthState)
    (rev : InMemoryRevocationStore)
    → s.revocations ≡ some rev
    → ((owner_of jti rev ≡ some caller_did) × Revoked svc now jti caller_did s rev)
      ⊎ ((owner_of jti rev ≢ some caller_did)
          × (e : AuthError) × (revoke_token svc now jti caller_did s ≡ (err e, s)))
unfolding revoke_token
revoke_token_owner svc now jti caller_did s rev h =
    simp h (revoke_owned-cases svc now jti caller_did s rev (owner_of jti rev))

-- A successful `revoke_token` of a recorded token binds the validator: the token is refused before its
-- recorded expiry and the leeway have passed, whatever calls reach the store in between, where evictions
-- run at cutoffs that the clock has reached.
pub validate-revoke_token :
    (svc : AuthService) (jwt : JsonWebToken) (at : DateTime) (jti caller_did : String)
    (s : AuthState) (rev : InMemoryRevocationStore) (e : InMemoryEntry) (s' : AuthState)
    (rev' : InMemoryRevocationStore) (ops : List Op) (decode_now now : DateTime) (token : String)
    (claims : BearerClaims)
    → s.revocations ≡ some rev
    → Distinct rev.inner
    → lookup jti rev.inner ≡ some e
    → revoke_token svc at jti caller_did s ≡ (ok tt, s')
    → s'.revocations ≡ some rev'
    → claims.jti ≡ jti
    → All (EvictsBy (tombstone_cutoff now svc.signer.leeway_seconds)) ops
    → now < e.record_.expires_at + seconds svc.signer.leeway_seconds
    → 0 < e.record_.expires_at
    → validate jwt svc.signer (some (run ops rev')) decode_now now token ≢ ok claims
validate-revoke_token svc jwt at jti caller_did s rev e s' rev' ops decode_now now token claims h d
      known done after same evictions early pos =
    elim (revoke_token_owner svc at jti caller_did s rev h) [
      | inl (own, did) ↦ rw (left-by-revoke svc at jti caller_did s s' rev rev' did done after) (
          validate-revoke jwt svc.signer rev (own_record svc at jti caller_did) e ops decode_now now
            token claims d known same evictions early pos)
      | inr (_, x, failed) ↦ absurd (ok-ne-err x s s' (sym done ∙ failed))
    ]

revoke_token_own :
    (svc : AuthService) (now : DateTime) (jti caller_did : String) (s : AuthState)
    (rev : InMemoryRevocationStore)
    → s.revocations ≡ some rev
    → owner_of jti rev ≡ some caller_did
    → (revoke_token svc now jti caller_did s).0 ≡ ok tt
unfolding revoke_token
revoke_token_own svc now jti caller_did s rev h own =
    simp h (rw own (ground (arith, eq_iff caller_did caller_did)))

revocations-token_issued :
    (r : RevocationRecord) (s : AuthState) (res : Result AuthError TokenResponse)
    (rev : InMemoryRevocationStore) {response : TokenResponse}
    → s.revocations ≡ some rev
    → (token_issued r s res).0 ≡ ok response
    → (token_issued r s res).1.revocations ≡ some (record_issued r rev)
revocations-token_issued r s (ok x) rev h done = ground arith
revocations-token_issued r s (err e) rev h done = cc

owner_of-record_issued :
    (r : RevocationRecord) (rev : InMemoryRevocationStore)
    → lookup r.jti rev.inner ≡ none
    → owner_of r.jti (record_issued r rev) ≡ some r.agent_did
unfolding owner_of record_issued
owner_of-record_issued r rev fresh =
    rw (lookup-insert r.jti r.jti _ rev.inner) (rw fresh (ground (arith, eq_iff r.jti r.jti)))

-- The agent that was issued a token under a fresh identifier can revoke it.
pub revoke_token-issue_token :
    (svc : AuthService) (acdp : Acdp) (jwt : JsonWebToken) (take_now now at : DateTime)
    (jti : String) (req : TokenRequest) (s : AuthState) (rev : InMemoryRevocationStore)
    {response : TokenResponse}
    → s.revocations ≡ some rev
    → lookup jti rev.inner ≡ none
    → (issue_token svc acdp jwt take_now now jti req s).0 ≡ ok response
    → (revoke_token svc at jti req.agent_id (issue_token svc acdp jwt take_now now jti req s).1).0
      ≡ ok tt
unfolding issue_token
revoke_token-issue_token svc acdp jwt take_now now at jti req s rev h fresh issued =
    revoke_token_own svc at jti req.agent_id _ _ (revocations-token_issued _ _ _ rev h issued)
      (owner_of-record_issued _ rev fresh)
