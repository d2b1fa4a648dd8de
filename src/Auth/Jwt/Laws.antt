-- ===== src/Auth/Jwt/Laws.antt =====
-- What a validated bearer token guarantees, and how long a revocation binds the validator.
use acdp_registry_rs.Prelude.{
  ◌+◌, ◌≡◌, ◌≢◌, ◌≤◌, ◌<◌, refl, true, false, String, List, Option, some, lookup, Distinct, arith,
  eq_iff, string_eq, Result, ok, err, >>=-eq-ok, All, ◌∙◌, ap,
}
use acdp_registry_rs.Time.{DateTime, timestamp, seconds}
use acdp_registry_rs.Auth.Error.{AuthError, token_invalid}
use acdp_registry_rs.Auth.Claims.{BearerClaims}
use acdp_registry_rs.Auth.RevocationStore.{
  InMemoryEntry, InMemoryRevocationStore, RevocationRecord, is_revoked, revoke, tombstone_cutoff,
}
use acdp_registry_rs.Auth.RevocationStore.Laws.{
  Op, EvictsBy, run, run-is_revoked, revoke-Distinct, is_revoked-revoke_known,
}
use acdp_registry_rs.Auth.Jwt.{
  JsonWebToken, JwtSigner, validation, validate, check_claims, DecodeValidates, revoked_as_of,
  map_err,
}

-- What an accepted token's claims satisfy.
pub record Accepted (jwt : JsonWebToken) (s : JwtSigner)
    (revocations : Option InMemoryRevocationStore) (decode_now now : DateTime) (token : String)
    (claims : BearerClaims) : Type 0 where
  pub decoded : jwt.decode (validation s) decode_now token ≡ ok claims
  pub issued_here : claims.iss ≡ s.issuer
  pub meant_for_us : claims.aud ≡ s.registry_authority
  pub bound_to_us : claims.acdp.registry ≡ s.registry_authority
  pub unexpired : timestamp decode_now ≤ claims.exp + s.leeway_seconds
  pub unrevoked :
      revoked_as_of revocations claims.jti (tombstone_cutoff now s.leeway_seconds) ≡ false

-- `check_claims` answers its own input, and only where both tests pass.
check_claims-eq-ok :
    (s : JwtSigner) (revs : Option InMemoryRevocationStore) (now : DateTime)
    (c claims : BearerClaims)
    → check_claims s revs now c ≡ ok claims
    → (c ≡ claims)
      × (claims.acdp.registry ≡ s.registry_authority)
      × (revoked_as_of revs claims.jti (tombstone_cutoff now s.leeway_seconds) ≡ false)
unfolding check_claims
check_claims-eq-ok s revs now c claims h =
    ground (arith, eq_iff c.acdp.registry s.registry_authority)

map_err-eq-ok :
    {A : Type 0} (f : String → AuthError) (r : Result String A) {a : A}
    → map_err f r ≡ ok a
    → r ≡ ok a
map_err-eq-ok f (ok a) h = cc
map_err-eq-ok f (err e) h = cc

-- Where `decode` checks what it documents, an accepted token decodes under the signer's validation, names
-- this registry as issuer, audience and `acdp.registry`, has not expired by more than the leeway, and is
-- not revoked as of the cutoff.
pub validate-Accepted :
    (jwt : JsonWebToken) (s : JwtSigner) (revs : Option InMemoryRevocationStore)
    (decode_now now : DateTime) (token : String) (claims : BearerClaims)
    → DecodeValidates jwt
    → validate jwt s revs decode_now now token ≡ ok claims
    → Accepted jwt s revs decode_now now token claims
unfolding validate
validate-Accepted jwt s revs decode_now now token claims d h =
    let (c, decoded, checked) =
      >>=-eq-ok (map_err token_invalid (jwt.decode _ decode_now token)) _ h in
    let (same, bound, unrevoked) = check_claims-eq-ok s revs now c claims checked in
    let accepted : jwt.decode (validation s) decode_now token ≡ ok claims =
      map_err-eq-ok token_invalid (jwt.decode (validation s) decode_now token) decoded
      ∙ ap ok same in
    record {
      decoded = accepted;
      issued_here = d.issuer_checked (validation s) decode_now token s.issuer claims refl accepted;
      meant_for_us =
          d.audience_checked (validation s) decode_now token s.registry_authority claims refl
            accepted;
      bound_to_us = bound;
      unexpired = d.expiry_checked (validation s) decode_now token claims refl accepted;
      unrevoked = unrevoked;
    }

-- A token that is revoked as of the validator's cutoff is refused, whatever `decode` says of it.
validate-revoked :
    (jwt : JsonWebToken) (s : JwtSigner) (rev : InMemoryRevocationStore) (decode_now now : DateTime)
    (token : String) (claims : BearerClaims)
    → is_revoked claims.jti (tombstone_cutoff now s.leeway_seconds) rev ≡ true
    → validate jwt s (some rev) decode_now now token ≢ ok claims
unfolding validate
validate-revoked jwt s rev decode_now now token claims h e =
    let (c, decoded, checked) =
      >>=-eq-ok (map_err token_invalid (jwt.decode _ decode_now token)) _ e in
    let (same, bound, unrevoked) = check_claims-eq-ok s (some rev) now c claims checked in cc

cutoff-lt :
    (now at : DateTime) (s : JwtSigner)
    → now < at + seconds s.leeway_seconds
    → 0 < at
    → tombstone_cutoff now s.leeway_seconds < at
unfolding tombstone_cutoff
cutoff-lt now at s early pos = omega arith

-- After `revoke`, and any further calls on the store whose evictions run at cutoffs that the clock has
-- reached, a token is refused until its recorded expiry and the leeway have passed.
pub validate-revoke :
    (jwt : JsonWebToken) (s : JwtSigner) (rev : InMemoryRevocationStore) (r : RevocationRecord)
    (e : InMemoryEntry) (ops : List Op) (decode_now now : DateTime) (token : String)
    (claims : BearerClaims)
    → Distinct rev.inner
    → lookup r.jti rev.inner ≡ some e
    → claims.jti ≡ r.jti
    → All (EvictsBy (tombstone_cutoff now s.leeway_seconds)) ops
    → now < e.record_.expires_at + seconds s.leeway_seconds
    → 0 < e.record_.expires_at
    → validate jwt s (some (run ops (revoke r rev))) decode_now now token ≢ ok claims
validate-revoke jwt s rev r e ops decode_now now token claims d known same evictions early pos =
    validate-revoked jwt s (run ops (revoke r rev)) decode_now now token claims (
      rw same (
        run-is_revoked ops (revoke r rev) r.jti (tombstone_cutoff now s.leeway_seconds)
          (revoke-Distinct r rev d) evictions
          (is_revoked-revoke_known r rev e _ known
            (cutoff-lt now e.record_.expires_at s early pos))))

-- A retired tombstone no longer binds the validator: once the clock has reached the recorded expiry plus
-- the leeway, a revoked token for this registry that `decode` still accepts is accepted again. `decode`
-- counts whole seconds, so it may accept such a token for the rest of that second.
pub validate_retired_tombstone :
    (jwt : JsonWebToken) (s : JwtSigner) (rev : InMemoryRevocationStore) (e : InMemoryEntry)
    (decode_now now : DateTime) (token : String) (claims : BearerClaims)
    → lookup claims.jti rev.inner ≡ some e
    → e.record_.expires_at + seconds s.leeway_seconds ≤ now
    → claims.acdp.registry ≡ s.registry_authority
    → jwt.decode (validation s) decode_now token ≡ ok claims
    → validate jwt s (some rev) decode_now now token ≡ ok claims
unfolding validate is_revoked tombstone_cutoff check_claims
validate_retired_tombstone jwt s rev e decode_now now token claims known late bound decoded =
    rw decoded (ground (arith, eq_iff claims.acdp.registry s.registry_authority))
