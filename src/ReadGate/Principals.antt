-- ===== src/ReadGate/Principals.antt =====
-- Whom a read is served as: only a credential that is configured or validated names a principal.
use acdp_registry_rs.ReadTokens.Digests.{length-parse_sha256_hex, ct_eq_32-eq}
use acdp_registry_rs.ReadGate.Tokens.{find_entry-from_config, StaticToken}
use Prim.Native.String.{◌++◌ as ◌<>◌}
use acdp_registry_rs.RateLimit.AgentLimiter.{Instant}
use acdp_registry_rs.Time.{DateTime}
use acdp_registry_rs.ReadTokens.{
  ReadTokenError, is_read_token, find_entry, expired, unknown, is_token_bytes, malformed,
  read_token_prefix, strip_prefix, has_expired, StaticReadPrincipal, validate_read_token,
  from_config, Entry, ReadTokenEntry,
}
use acdp_registry_rs.ReadGate.{
  bearer_static_active, charge_read, answer_or_limited, refused, charged, GateAnswer, served,
  resolve_value, ReadLimiters, schema_violation, Refusal, anonymous, bearer_principal, read_gate,
  resolve, ReadPrincipal, static_principal, did_principal, resolve_token, extract_bearer, GateState,
}
use acdp_registry_rs.Auth.Claims.{TenantAgentBinding}
use acdp_registry_rs.Prelude.{
  ◌&&◌, Bool, Result, Bool-cases, Option-cases, nat_eq, ok_injective, refuse_if-eq-ok, ◌∙◌,
  ok_or-eq-ok, ◌||◌, ◌==◌, codes, length, not, refuse_if, ok_or, >>=-eq-ok, ◌≡◌, ◌∷◌, [], ◌⊎◌, ok,
  err, some, none, ℕ, List, String, Option, true, false, inl, inr, refl, sym, ap,
}
use mathlib.Core.Path.{subst}

module _ {E : Type 0} (state : GateState E) (bindings : List TenantAgentBinding)
    (configured : List ReadTokenEntry)
    (loaded : state.read_tokens ≡ from_config bindings configured)
    (digests : (token : String) → length (state.sha256 token) ≡ 32) where
  validate_read_token-StaticToken :
      (token : String) (now : DateTime) (p : StaticReadPrincipal)
      → validate_read_token state.decode state.sha256 state.read_tokens token now ≡ ok p
      → StaticToken bindings configured (state.sha256 token) now p.did p.tenant
  unfolding validate_read_token
  validate_read_token-StaticToken token now p h =
      let (body, _, h1) = >>=-eq-ok (ok_or (strip_prefix read_token_prefix token) malformed) _ h in
      let (_, _, h2) =
        >>=-eq-ok
          (refuse_if (not (length (codes body) == 43) || not (is_token_bytes (state.decode body)))
            malformed)
          _ h1 in
      let (e, found, h3) =
        >>=-eq-ok (ok_or (find_entry (state.sha256 token) none state.read_tokens) unknown) _ h2 in
      let (_, fresh, same) = >>=-eq-ok (refuse_if (has_expired e.expires_at now) expired) _ h3 in
      let hit =
        subst (λ t. find_entry (state.sha256 token) none t ≡ some e) loaded
          (ok_or-eq-ok _ _ found) in
      elim (find_entry-from_config bindings configured (state.sha256 token) none e hit) [
        | inl absent ↦ cc
        | inr (c, before, after, split, hash, parsed, matches, built) ↦ record {
          entry = c;
          before = before;
          after = after;
          split = split;
          hashed =
              parsed
              ∙ ap some (
                  ct_eq_32-eq hash (state.sha256 token)
                    (length-parse_sha256_hex c.sha256 hash parsed ∙ sym (digests token)) matches);
          live = ap (λ (x : Entry). has_expired x.expires_at now) built ∙ refuse_if-eq-ok _ _ fresh;
          same_did =
              sym (ap (λ (x : StaticReadPrincipal). x.did) (ok_injective same))
              ∙ sym (ap (λ (x : Entry). x.principal.did) built);
          same_tenant =
              sym (ap (λ (x : StaticReadPrincipal). x.tenant) (ok_injective same))
              ∙ sym (ap (λ (x : Entry). x.principal.tenant) built);
        }
      ]

  -- What stands behind a principal: authentication is on, there is exactly one `Authorization` header with a
  -- bearer token, and that is a configured static token or one that the service validates.
  pub record Authenticated (values : List (Option String)) (now : DateTime) (did : String)
      (tenant : Option String) : Type 0 where
    pub enabled : state.enabled ≡ true
    pub value : String
    pub single : values ≡ some value ∷ []
    pub token : String
    pub bearer : extract_bearer state.trim value ≡ some token
    pub validated :
        ((is_read_token token ≡ true)
          × StaticToken bindings configured (state.sha256 token) now did tenant)
        ⊎ ((is_read_token token ≡ false) × (state.validate_bearer_claims token ≡ ok (did, tenant)))

  resolve_token-validated :
      (token : String) (now : DateTime) (did : String) (tenant : Option String)
      → resolve_token state token now ≡ ok (did_principal did tenant)
      → ((is_read_token token ≡ true)
          × StaticToken bindings configured (state.sha256 token) now did tenant)
        ⊎ ((is_read_token token ≡ false) × (state.validate_bearer_claims token ≡ ok (did, tenant)))
  unfolding resolve_token
  resolve_token-validated token now did tenant h = elim (Bool-cases (is_read_token token)) [
    | inl static ↦
        let (p, e, same_did, same_tenant) = static_cases _ (rw (resolve_token, static) at h) in
        inl (
          static,
          subst (λ t. StaticToken bindings configured (state.sha256 token) now did t) same_tenant
              (subst (λ d. StaticToken bindings configured (state.sha256 token) now d p.tenant)
                same_did (validate_read_token-StaticToken token now p e)),
        )
    | inr jwt ↦ inr (jwt, bearer_cases _ (rw (resolve_token, jwt) at h))
  ]
    where
      claimed : ReadPrincipal → String × Option String
      claimed anonymous = ("", none)
      claimed (did_principal d t) = (d, t)

      static_cases :
          (r : Result ReadTokenError StaticReadPrincipal)
          → static_principal state r ≡ ok (did_principal did tenant)
          → (p : StaticReadPrincipal) × (r ≡ ok p) × (p.did ≡ did) × (p.tenant ≡ tenant)
      static_cases (ok p) e = (
        p,
        refl,
        ap (λ x. (claimed x).0) (ok_injective e),
        ap (λ x. (claimed x).1) (ok_injective e),
      )
      static_cases (err x) e = cc

      bearer_cases :
          (r : Result E (String × Option String))
          → bearer_principal state r ≡ ok (did_principal did tenant)
          → r ≡ ok (did, tenant)
      bearer_cases (ok (sub, t)) e = ap (λ x. ok (claimed x)) (ok_injective e)
      bearer_cases (err x) e = cc

  resolve-Authenticated :
      (values : List (Option String)) (now : DateTime) (did : String) (tenant : Option String)
      → resolve state values now ≡ ok (did_principal did tenant)
      → Authenticated values now did tenant
  unfolding resolve resolve_token
  resolve-Authenticated [] now did tenant h = absurd (nobody (ok_injective h))
    where
      nobody : anonymous ≡ did_principal did tenant → ⊥
      nobody e = cc
  resolve-Authenticated (value ∷ other ∷ values) now did tenant h =
      elim (Bool-cases state.enabled) [
        | inl on ↦ absurd (refusal (rw on at h))
        | inr off ↦ absurd (nobody (ok_injective (rw off at h)))
      ]
    where
      nobody : anonymous ≡ did_principal did tenant → ⊥
      nobody e = cc

      refusal :
          ◌≡◌ {A = Result (Refusal E) ReadPrincipal}
            (err schema_violation)
            (ok (did_principal did tenant))
          → ⊥
      refusal e = cc
  resolve-Authenticated (value ∷ []) now did tenant h = elim (Bool-cases state.enabled) [
    | inl on ↦ of_value value on (rw on at h)
    | inr off ↦ absurd (nobody (ok_injective (rw off at h)))
  ]
    where
      nobody : anonymous ≡ did_principal did tenant → ⊥
      nobody e = cc

      of_value :
          (v : Option String)
          → state.enabled ≡ true
          → resolve_value state v now ≡ ok (did_principal did tenant)
          → Authenticated (v ∷ []) now did tenant
      of_value none on h = absurd (nobody (ok_injective h))
      of_value (some text) on h = elim (Option-cases (extract_bearer state.trim text)) [
        | inl no_token ↦ absurd (nobody (ok_injective (rw (resolve_value, no_token) at h)))
        | inr (token, e) ↦ record {
          enabled = on;
          value = text;
          single = refl;
          token = token;
          bearer = e;
          validated = resolve_token-validated token now did tenant (rw (resolve_value, e) at h);
        }
      ]

  unlimited :
      (limited : Option ℕ) (answer : GateAnswer E) (p : ReadPrincipal)
      → answer_or_limited limited answer ≡ served p
      → answer ≡ served p
  unlimited none answer p h = h
  unlimited (some secs) answer p h = cc

  charged-served :
      (key : String) (now : Instant) (r : Result (Refusal E) ReadPrincipal) (l : ReadLimiters)
      (did : String) (tenant : Option String)
      → (charged key now r l).0 ≡ served (did_principal did tenant)
      → r ≡ ok (did_principal did tenant)
  unfolding charged
  charged-served key now (err refusal) l did tenant h = absurd (
      not_served (
        unlimited (charge_read l.anonymous_limiter key now).0 (refused refusal)
          (did_principal did tenant) h))
    where
      not_served : refused refusal ≡ served (did_principal did tenant) → ⊥
      not_served e = cc
  charged-served key now (ok anonymous) l did tenant h = ap of_answer (
      unlimited (charge_read l.anonymous_limiter key now).0 (served anonymous)
        (did_principal did tenant) h)
    where
      of_answer : GateAnswer E → Result (Refusal E) ReadPrincipal
      of_answer (served p) = ok p
      of_answer _ = ok anonymous
  charged-served key now (ok (did_principal d t)) l did tenant h = ap of_answer (
      unlimited (charge_read l.principal_limiter ("did:" <> d) now).0 (served (did_principal d t))
        (did_principal did tenant) h)
    where
      of_answer : GateAnswer E → Result (Refusal E) ReadPrincipal
      of_answer (served p) = ok p
      of_answer _ = ok anonymous

  -- With the read tokens loaded from the configuration, and digests of 32 bytes: a read that the gate serves
  -- as a DID and a tenant carries exactly one `Authorization` header, with a bearer token that is either a
  -- static token whose digest is configured for that DID and tenant and has not expired, or one that the
  -- service validated with them.
  pub read_gate-Authenticated :
      (names_access_token : Bool) (values : List (Option String)) (wall_now : DateTime)
      (anonymous_key : String) (now : Instant) (l after : ReadLimiters) (did : String)
      (tenant : Option String)
      → read_gate state true names_access_token values wall_now anonymous_key now l
        ≡ (served (did_principal did tenant), after)
      → Authenticated values wall_now did tenant
  unfolding read_gate
  read_gate-Authenticated names_access_token values wall_now anonymous_key now l after did tenant
        h =
      elim (Bool-cases (bearer_static_active state && names_access_token)) [
        | inl in_query ↦ absurd (
            not_served
              (ap (λ (x : GateAnswer E × ReadLimiters). x.0) (rw (read_gate, in_query) at h)))
        | inr clean ↦ resolve-Authenticated values wall_now did tenant (
            charged-served anonymous_key now (resolve state values wall_now) l did tenant
              (ap (λ (x : GateAnswer E × ReadLimiters). x.0) (rw (read_gate, clean) at h)))
      ]
    where
      not_served :
          ◌≡◌ {A = GateAnswer E} (refused schema_violation) (served (did_principal did tenant)) → ⊥
      not_served e = cc
