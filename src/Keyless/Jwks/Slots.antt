-- ===== src/Keyless/Jwks/Slots.antt =====
-- The slots that a cache is made with: one for each configured source, without a copy.
use acdp_registry_rs.Keyless.Jwks.{
  secs_to_ms, jwks, add_spiffe, add_oidc, new_slot, oidc_target, max_ttl_seconds, Slot, Target,
  new_cache,
}
use mathlib.Core.Path.{subst}
use acdp_registry_rs.Keyless.Types.{
  spiffe_source, oidc_source, SpiffeDomain, OidcIssuer, KeySource, KeylessConfig, source_eq,
}
use acdp_registry_rs.Prelude.{
  ◌*◌, false, if◌then◌else◌, Bool, true, refl, some_injective, inl, inr, ◌==◌, Bool-cases, ◌∷◌,
  lookup-insert, arith, some, none, ◌≡◌, Member, insert, ◌≤◌, [], lookup, List, HashMap,
}

-- The configuration lists the source with that target.
abbrev pub Listed : KeylessConfig → KeySource → Target → Type 0
Listed cfg (oidc_source issuer) target =
    (o : OidcIssuer) × Member o cfg.oidc_issuers
    × (o.issuer ≡ issuer)
    × (oidc_target o o.jwks_uri ≡ target)
Listed cfg (spiffe_source domain) target =
    (d : SpiffeDomain) × Member d cfg.spiffe_trust_domains
    × (d.trust_domain ≡ domain)
    × (jwks d.bundle_endpoint ≡ target)

pub record Configured (cfg : KeylessConfig) (source : KeySource) (slot : Slot) : Type 0 where
  pub enabled : cfg.enabled ≡ true
  pub listed : Listed cfg source slot.target
  pub empty : slot.state.entry ≡ none

module _ (cfg : KeylessConfig) where
  abbrev AllConfigured : HashMap KeySource Slot → Type 0
  AllConfigured slots =
      (source : KeySource) (slot : Slot)
      → lookup source slots ≡ some slot
      → Configured cfg source slot

  module _ (on : cfg.enabled ≡ true) where
    AllConfigured-insert :
        (source : KeySource) (target : Target) (slots : HashMap KeySource Slot)
        → Listed cfg source target
        → AllConfigured slots
        → AllConfigured (insert source (new_slot target) slots)
    AllConfigured-insert source target slots listed h s x at =
        let put = lookup-insert source s (new_slot target) slots in
        elim (Bool-cases (source == s)) [
          | inl same ↦
              let here : some (new_slot target) ≡ some x = rw (put, same) at at in
              subst (λ y. Configured cfg y x) ((source_eq.beq_iff source s).0 same)
                (subst (Configured cfg source) (some_injective here)
                  (record { enabled = on; listed = listed; empty = refl }))
          | inr other ↦ h s x (rw (put, other) at at)
        ]

    AllConfigured-add_oidc :
        (rest : List OidcIssuer) (slots : HashMap KeySource Slot)
        → ((o : OidcIssuer) → Member o rest → Member o cfg.oidc_issuers)
        → AllConfigured slots
        → AllConfigured (add_oidc rest slots)
    AllConfigured-add_oidc [] slots known h = h
    AllConfigured-add_oidc (o ∷ rest) slots known h =
        AllConfigured-add_oidc rest
          (insert (oidc_source o.issuer) (new_slot (oidc_target o o.jwks_uri)) slots)
          (λ p m. known p (inr m))
          (AllConfigured-insert (oidc_source o.issuer) (oidc_target o o.jwks_uri) slots
            (o, known o (inl refl), refl, refl) h)

    AllConfigured-add_spiffe :
        (rest : List SpiffeDomain) (slots : HashMap KeySource Slot)
        → ((d : SpiffeDomain) → Member d rest → Member d cfg.spiffe_trust_domains)
        → AllConfigured slots
        → AllConfigured (add_spiffe rest slots)
    AllConfigured-add_spiffe [] slots known h = h
    AllConfigured-add_spiffe (d ∷ rest) slots known h =
        AllConfigured-add_spiffe rest
          (insert (spiffe_source d.trust_domain) (new_slot (jwks d.bundle_endpoint)) slots)
          (λ p m. known p (inr m))
          (AllConfigured-insert (spiffe_source d.trust_domain) (jwks d.bundle_endpoint) slots
            (d, known d (inl refl), refl, refl) h)

  none_yet : AllConfigured []
  unfolding lookup
  none_yet source slot at = cc

  if_enabled :
      (b : Bool) (slots : HashMap KeySource Slot)
      → (b ≡ true → AllConfigured slots)
      → AllConfigured (if b then slots else [])
  if_enabled true slots h = h refl
  if_enabled false slots h = none_yet

  pub new_cache-Configured :
      (source : KeySource) (slot : Slot)
      → lookup source (new_cache cfg).slots ≡ some slot
      → Configured cfg source slot
  unfolding new_cache
  new_cache-Configured =
      if_enabled cfg.enabled (add_spiffe cfg.spiffe_trust_domains (add_oidc cfg.oidc_issuers []))
        (λ on.
          AllConfigured-add_spiffe on cfg.spiffe_trust_domains (add_oidc cfg.oidc_issuers [])
            (λ d m. m) (AllConfigured-add_oidc on cfg.oidc_issuers [] (λ o m. m) none_yet))

  pub ttl_seconds-new_cache : (new_cache cfg).ttl_seconds ≤ max_ttl_seconds
  unfolding new_cache
  ttl_seconds-new_cache = omega arith

  pub max_stale_ms-new_cache : (new_cache cfg).max_stale_ms ≤ cfg.jwks_max_stale_seconds * 1000
  unfolding new_cache secs_to_ms
  max_stale_ms-new_cache = omega arith
