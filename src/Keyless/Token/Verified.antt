-- ===== src/Keyless/Token/Verified.antt =====
-- What a verified workload token establishes, from the configuration to the claims.
use acdp_registry_rs.Keyless.Token.Recognised.{
  accept-Recognised, parse_header-Read, Read, Recognised,
}
use acdp_registry_rs.Keyless.Claims.{check_claims}
use acdp_registry_rs.Keyless.Token.Claimed.{check_claims-Claimed, Claimed}
use acdp_registry_rs.Keyless.SigningKey.{decoding_key}
use acdp_registry_rs.Keyless.Jwks.Freshness.{handed_out-FromIssuer, FromIssuer, Honest}
use acdp_registry_rs.Keyless.Token.Picked.{pick_key-Picked, Picked, refresh_call, lookup_call, Fits}
use acdp_registry_rs.Keyless.Jwks.Calls.{run-append, run, Call}
use acdp_registry_rs.Keyless.Jwks.{new_cache, Target}
use acdp_registry_rs.Keyless.Token.{
  pick_key, verify_with, token, after_key, before_fetch, VerifiedToken, verify, Network, Accepted,
  accept,
}
use acdp_registry_rs.Keyless.Header.{Header, parse_header}
use acdp_registry_rs.Keyless.Sdk.{or_violation, Kind, IdentityDescriptor, Sdk}
use mathlib.Core.Path.{subst}
use acdp_registry_rs.Keyless.Types.{
  KeylessRefusal, IssuerJwk, KeySource, KeySet, KeylessConfig, source_eq,
}
use acdp_registry_rs.Prelude.{
  Result-cases, err, All-append, Result, ◌++◌, string_eq, [], ◌∙◌, inr, ap, ok_injective, ◌⊎◌, sym,
  inl, ok_or-eq-ok, ok_or, ◌∷◌, >>=-eq-ok, All, ok, some, ◌≡◌, List, String, ℕ,
}

module _ {V M K J : Type 0} (sdk : Sdk V M K J) (cfg : KeylessConfig) where
  module _ (Serves : Target → ℕ → KeySet → Type 0) where
    -- The key was served by a target that the configuration lists for the source, less than an hour and the
    -- configured stale time before the cache was asked.
    pub record KeyServed (net : Network) (source : KeySource) (header : Header) (kind : Kind)
        (key : IssuerJwk) : Type 0 where
      pub ks : KeySet
      pub fits : Fits ks header kind key
      pub from :
          FromIssuer Serves cfg source net.looked_at ks
          ⊎ FromIssuer Serves cfg source net.forced_at ks

    pub record Vouched (net : Network) (identity : IdentityDescriptor) (registry_did : String)
        (jwk : J) (now : ℕ) (v : VerifiedToken) : Type 0 where
      pub accepted : Accepted
      pub recognised : Recognised sdk cfg identity accepted
      pub header : Header
      pub header_read : Read sdk cfg (token identity) accepted.kind header
      pub key : IssuerJwk
      pub key_served : KeyServed net accepted.source header accepted.kind key
      pub decoding : K
      pub key_fits : decoding_key sdk key header ≡ ok decoding
      pub claims : M
      pub signed : sdk.decode header.alg decoding (token identity) ≡ some claims
      pub claimed :
          Claimed sdk accepted.expected_iss accepted.subject registry_did jwk now v.exp claims
      pub hashed : v.token_hash ≡ sdk.token_hash (token identity)

    Picked-KeyServed :
        (calls : List Call) (net : Network) (source : KeySource) (header : Header) (kind : Kind)
        (key : IssuerJwk)
        → All (Honest Serves) calls
        → Honest Serves (lookup_call net source)
        → Honest Serves (refresh_call net source)
        → Picked net source header kind (run calls (new_cache cfg)) key
        → KeyServed net source header kind key
    Picked-KeyServed calls net source header kind key honest looked forced p = record {
      ks = p.ks;
      fits = p.fits;
      from = elim p.handed [
        | inl at_once ↦
            inl (
              handed_out-FromIssuer Serves cfg calls (lookup_call net source) honest looked at_once)
        | inr after ↦ inr (
            handed_out-FromIssuer Serves cfg (calls ++ lookup_call net source ∷ [])
              (refresh_call net source)
              (All-append (Honest Serves) calls (lookup_call net source ∷ []) honest (looked, tt))
              forced (rw (run-append calls (lookup_call net source ∷ []) (new_cache cfg)) after))
      ];
    }

    before_fetch-eq-ok :
        (identity : IdentityDescriptor) {accepted : Accepted} {header : Header}
        → before_fetch sdk cfg identity ≡ ok (accepted, header)
        → (accept sdk cfg identity ≡ ok accepted)
          × (parse_header sdk (token identity) accepted.kind ≡ ok header)
    unfolding before_fetch
    before_fetch-eq-ok identity h =
        let (_, _, h1) = >>=-eq-ok (or_violation (sdk.validate identity)) _ h in
        let (a, taken, h2) = >>=-eq-ok (accept sdk cfg identity) _ h1 in
        let (x, parsed, same) = >>=-eq-ok (parse_header sdk (token identity) a.kind) _ h2 in
        let e = ok_injective same in
        (
          taken ∙ ap (λ (p : Accepted × Header). ok p.0) e,
          subst (λ (p : Accepted × Header). parse_header sdk (token identity) p.0.kind ≡ ok p.1) e
              parsed,
        )

    vouched :
        (net : Network) (identity : IdentityDescriptor) (registry_did : String) (jwk : J) (now : ℕ)
        (accepted : Accepted) (header : Header) (key : IssuerJwk) {v : VerifiedToken}
        → before_fetch sdk cfg identity ≡ ok (accepted, header)
        → KeyServed net accepted.source header accepted.kind key
        → after_key sdk cfg identity registry_did jwk now accepted header key ≡ ok v
        → Vouched net identity registry_did jwk now v
    unfolding after_key
    vouched net identity registry_did jwk now accepted header key {v} before served h =
        let (taken, parsed) = before_fetch-eq-ok identity before in
        let (decoding, fits, h1) = >>=-eq-ok (decoding_key sdk key header) _ h in
        let (claims, signed, h2) =
          >>=-eq-ok (ok_or (sdk.decode header.alg decoding (token identity)) _) _ h1 in
        let (exp, checked, same) =
          >>=-eq-ok
            (check_claims sdk accepted.expected_iss accepted.subject registry_did jwk now claims) _
            h2 in
        let e = ok_injective same in
        record {
          accepted = accepted;
          recognised = accept-Recognised sdk cfg identity taken;
          header = header;
          header_read = parse_header-Read sdk cfg (token identity) accepted.kind parsed;
          key = key;
          key_served = served;
          decoding = decoding;
          key_fits = fits;
          claims = claims;
          signed = ok_or-eq-ok _ _ signed;
          claimed =
              subst
                (λ (x : VerifiedToken).
                  Claimed sdk accepted.expected_iss accepted.subject registry_did jwk now x.exp
                    claims)
                e
                (check_claims-Claimed sdk accepted.expected_iss accepted.subject registry_did jwk
                  now exp claims checked);
          hashed = ap (λ (x : VerifiedToken). x.token_hash) (sym e);
        }

    -- In a cache after any calls, where every fetch answers what its target serves at the time: a token that is
    -- verified is of an issuer or trust domain that the configuration lists, its own header names an algorithm allowed
    -- for its kind and no `crit`, it is signed by that algorithm under a published key of the issuer that fits the
    -- header, by the `kid` that the header has where it has one, which an enabled configuration's
    -- target served less than an hour and the stale time before; it has not expired, is not issued or valid more
    -- than a minute from now, names the issuer that is expected, the identity's subject and this registry, and, where it
    -- carries a thumbprint, the request's key. The answer tells its expiry and its hash.
    pub verify-Vouched :
        (calls : List Call) (net : Network) (identity : IdentityDescriptor) (registry_did : String)
        (jwk : J) (now : ℕ) {v : VerifiedToken}
        → All (Honest Serves) calls
        → ((source : KeySource) → Honest Serves (lookup_call net source))
        → ((source : KeySource) → Honest Serves (refresh_call net source))
        → (verify sdk cfg net identity registry_did jwk now (run calls (new_cache cfg))).0 ≡ ok v
        → Vouched net identity registry_did jwk now v
    unfolding verify
    verify-Vouched calls net identity registry_did jwk now {v} honest looked forced h =
        elim (Result-cases (before_fetch sdk cfg identity)) [
          | inr (e, failed) ↦ absurd (refused (rw (failed, verify_with) at h))
          | inl ((accepted, header), prepared) ↦
              let cache = run calls (new_cache cfg) in
              let (key, picked, rest) =
                >>=-eq-ok (pick_key net accepted.source header accepted.kind cache).0 _
                  (rw (prepared, verify_with) at h) in
              vouched net identity registry_did jwk now accepted header key prepared
                (Picked-KeyServed calls net accepted.source header accepted.kind key honest
                  (looked accepted.source) (forced accepted.source)
                  (pick_key-Picked net accepted.source header accepted.kind cache key picked))
                rest
        ]
      where
        refused :
            {e : KeylessRefusal} → ◌≡◌ {A = Result KeylessRefusal VerifiedToken} (err e) (ok v) → ⊥
        refused e = cc
