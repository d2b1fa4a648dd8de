-- ===== src/Keyless/Token/Recognised.antt =====
-- What the steps before any fetch establish: the identity is recognised, and the algorithm allowed.
use acdp_registry_rs.Keyless.Token.{Accepted, find_spiffe, find_oidc, accept}
use acdp_registry_rs.Keyless.Header.{
  kind_rules, kid_of, is_some, malformed, first_segment, algorithm, allowed, Header, parse_header,
  find_name,
}
use acdp_registry_rs.Keyless.Sdk.{
  and_then, spiffe, spiffe_identity, oidc, oidc_identity, Kind, IdentityDescriptor, Sdk,
}
use mathlib.Core.Path.{subst}
use acdp_registry_rs.Keyless.Types.{
  spiffe_source, issuer_not_accepted, oidc_source, SpiffeDomain, OidcIssuer, KeylessConfig,
  source_eq,
}
use acdp_registry_rs.Prelude.{
  false, none, refuse_if-eq-ok, ℕ, Option, refl, string_eq, [], eq_iff, ◌∙◌, refuse_if, inr, ap,
  ok_injective, some_injective, codes, sym, inl, ◌==◌, ok_or-eq-ok, Bool-cases, ok_or, ◌∷◌,
  >>=-eq-ok, Member, ok, some, ◌≡◌, List, String,
}

find_oidc-Member :
    (issuer : String) (l : List OidcIssuer) {o : OidcIssuer}
    → find_oidc issuer l ≡ some o
    → Member o l × (o.issuer ≡ issuer)
find_oidc-Member issuer [] h = cc
find_oidc-Member issuer (x ∷ l) {o} h = elim (Bool-cases (x.issuer == issuer)) [
  | inl same ↦
      let here : x ≡ o = some_injective (rw same at h) in
      (inl here, ap (λ (y : OidcIssuer). y.issuer) (sym here) ∙ (eq_iff x.issuer issuer).0 same)
  | inr other ↦ let (there, named) = find_oidc-Member issuer l (rw other at h) in (inr there, named)
]

find_spiffe-Member :
    (domain : String) (l : List SpiffeDomain) {d : SpiffeDomain}
    → find_spiffe domain l ≡ some d
    → Member d l × (d.trust_domain ≡ domain)
find_spiffe-Member domain [] h = cc
find_spiffe-Member domain (x ∷ l) {d} h = elim (Bool-cases (x.trust_domain == domain)) [
  | inl same ↦
      let here : x ≡ d = some_injective (rw same at h) in
      (
        inl here,
        ap (λ (y : SpiffeDomain). y.trust_domain) (sym here)
            ∙ (eq_iff x.trust_domain domain).0 same,
      )
  | inr other ↦
      let (there, named) = find_spiffe-Member domain l (rw other at h) in (inr there, named)
]

find_name-Member :
    (alg : String) (l : List String) {a : String}
    → find_name alg l ≡ some a
    → Member a l × (a ≡ alg)
find_name-Member alg [] h = cc
find_name-Member alg (x ∷ l) {a} h = elim (Bool-cases (x == alg)) [
  | inl same ↦
      let here : x ≡ a = some_injective (rw same at h) in
      (inl here, sym here ∙ (eq_iff x alg).0 same)
  | inr other ↦ let (there, named) = find_name-Member alg l (rw other at h) in (inr there, named)
]

module _ {V M K J : Type 0} (sdk : Sdk V M K J) (cfg : KeylessConfig) where
  -- The issuer or trust domain of an identity is one that the configuration lists, and settles how it is checked.
  abbrev pub Recognised : IdentityDescriptor → Accepted → Type 0
  Recognised (oidc_identity issuer subject t) a =
      (o : OidcIssuer) × Member o cfg.oidc_issuers
      × (o.issuer ≡ issuer)
      × (a ≡ record {
        kind = oidc;
        source = oidc_source o.issuer;
        expected_iss = some o.issuer;
        subject = subject;
      })
  Recognised (spiffe_identity subject t) a =
      (d : SpiffeDomain) × Member d cfg.spiffe_trust_domains
      × (sdk.spiffe_trust_domain subject ≡ some d.trust_domain)
      × (a ≡ record {
        kind = spiffe;
        source = spiffe_source d.trust_domain;
        expected_iss = d.jwt_issuer;
        subject = subject;
      })

  pub accept-Recognised :
      (identity : IdentityDescriptor) {a : Accepted}
      → accept sdk cfg identity ≡ ok a
      → Recognised identity a
  unfolding accept
  accept-Recognised (oidc_identity issuer subject t) h =
      let (o, found, same) =
        >>=-eq-ok (ok_or (find_oidc issuer cfg.oidc_issuers) issuer_not_accepted) _ h in
      let (there, named) = find_oidc-Member issuer cfg.oidc_issuers (ok_or-eq-ok _ _ found) in
      (o, there, named, sym (ok_injective same))
  accept-Recognised (spiffe_identity subject t) h =
      let (domain, read, rest) = >>=-eq-ok (ok_or (sdk.spiffe_trust_domain subject) _) _ h in
      let (d, found, same) =
        >>=-eq-ok (ok_or (find_spiffe domain cfg.spiffe_trust_domains) issuer_not_accepted) _
          rest in
      let (there, named) =
        find_spiffe-Member domain cfg.spiffe_trust_domains (ok_or-eq-ok _ _ found) in
      (d, there, ok_or-eq-ok _ _ read ∙ ap (λ x. some x) (sym named), sym (ok_injective same))

  -- The `kid` of a header: none, or the text of its member.
  abbrev pub KidOf : Option V → Option String → Type 0
  KidOf none kid = kid ≡ none
  KidOf (some v) kid = (text : String) × (sdk.as_str v ≡ some text) × (kid ≡ some text)

  -- What a JOSE header says: the first segment of the token is its text; it has no `crit`, and its `alg` and `kid`
  -- are these.
  pub record Read (text : String) (kind : Kind) (header : Header) : Type 0 where
    pub raw : List ℕ
    pub decoded : sdk.b64_decode (first_segment (codes text)) ≡ some raw
    pub members : M
    pub parsed : sdk.from_slice raw ≡ some members
    pub no_crit : sdk.get "crit" members ≡ none
    pub alg_said : and_then (sdk.get "alg" members) sdk.as_str ≡ some header.alg_name
    pub alg_allowed : Member header.alg_name (allowed kind)
    pub alg_named : header.alg ≡ algorithm header.alg_name
    pub kid_said : KidOf (sdk.get "kid" members) header.kid

  kid_of-KidOf : (o : Option V) {kid : Option String} → kid_of sdk o ≡ ok kid → KidOf o kid
  kid_of-KidOf none h = sym (ok_injective h)
  kid_of-KidOf (some v) h =
      let (text, read, same) = >>=-eq-ok (ok_or (sdk.as_str v) malformed) _ h in
      (text, ok_or-eq-ok _ _ read, sym (ok_injective same))

  absent : (o : Option V) → is_some o ≡ false → o ≡ none
  absent none h = refl
  absent (some v) h = cc

  pub parse_header-Read :
      (text : String) (kind : Kind) {header : Header}
      → parse_header sdk text kind ≡ ok header
      → Read text kind header
  unfolding parse_header
  parse_header-Read text kind h =
      let (raw, decoded, h1) =
        >>=-eq-ok (ok_or (sdk.b64_decode (first_segment (codes text))) malformed) _ h in
      let (m, parsed, h2) = >>=-eq-ok (ok_or (sdk.from_slice raw) malformed) _ h1 in
      let (_, plain, h3) = >>=-eq-ok (refuse_if (is_some (sdk.get "crit" m)) _) _ h2 in
      let (alg, said, h4) =
        >>=-eq-ok (ok_or (and_then (sdk.get "alg" m) sdk.as_str) malformed) _ h3 in
      let (name, found, h5) = >>=-eq-ok (ok_or (find_name alg (allowed kind)) _) _ h4 in
      let (kid, taken, h6) = >>=-eq-ok (kid_of sdk (sdk.get "kid" m)) _ h5 in
      let (_, _, same) = >>=-eq-ok (kind_rules sdk kind m kid) _ h6 in
      let (listed, named) = find_name-Member alg (allowed kind) (ok_or-eq-ok _ _ found) in
      subst (Read text kind) (ok_injective same) (record {
        raw = raw;
        decoded = ok_or-eq-ok _ _ decoded;
        members = m;
        parsed = ok_or-eq-ok _ _ parsed;
        no_crit = absent (sdk.get "crit" m) (refuse_if-eq-ok _ _ plain);
        alg_said = ok_or-eq-ok _ _ said ∙ ap some (sym named);
        alg_allowed = listed;
        alg_named = refl;
        kid_said = kid_of-KidOf (sdk.get "kid" m) taken;
      })
