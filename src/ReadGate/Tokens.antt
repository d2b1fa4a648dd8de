-- ===== src/ReadGate/Tokens.antt =====
-- A static token that is accepted stands in the configuration.
use acdp_registry_rs.Auth.Service.{tenant_for_agent}
use acdp_registry_rs.Time.{DateTime}
use acdp_registry_rs.ReadTokens.{
  find_entry, or_tenant, entry_of, has_expired, ct_eq_32, parse_sha256_hex, from_config, Entry,
  ReadTokenEntry,
}
use acdp_registry_rs.Auth.Claims.{TenantAgentBinding}
use acdp_registry_rs.Prelude.{
  some_injective, Bool-cases, Option-cases, nat_eq, ◌≡◌, ◌∷◌, [], ◌++◌, ◌⊎◌, some, ℕ, List, String,
  Option, true, false, inl, inr, refl, ap,
}

-- A configured entry whose hash is the token's digest, with its DID and tenant, and not expired.
pub record StaticToken (bindings : List TenantAgentBinding) (configured : List ReadTokenEntry)
    (digest : List ℕ) (now : DateTime) (did : String) (tenant : Option String) : Type 0 where
  pub entry : ReadTokenEntry
  pub before : List ReadTokenEntry
  pub after : List ReadTokenEntry
  pub split : configured ≡ before ++ (entry ∷ after)
  pub hashed : parse_sha256_hex entry.sha256 ≡ some digest
  pub live : has_expired entry.expires_at now ≡ false
  pub same_did : did ≡ entry.did
  pub same_tenant : tenant ≡ or_tenant entry.tenant (tenant_for_agent bindings entry.did)

-- The entry `e` that the loop finds comes from the configuration.
abbrev pub Configured : List TenantAgentBinding → List ReadTokenEntry → List ℕ → Entry → Type 0
Configured bindings configured digest e =
    (c : ReadTokenEntry) × (before : List ReadTokenEntry) × (after : List ReadTokenEntry)
    × (configured ≡ before ++ (c ∷ after))
    × (hash : List ℕ) × (parse_sha256_hex c.sha256 ≡ some hash)
    × (ct_eq_32 hash digest ≡ true)
    × (entry_of bindings c hash ≡ e)

later :
    (bindings : List TenantAgentBinding) (x : ReadTokenEntry) (configured : List ReadTokenEntry)
    (digest : List ℕ) (e : Entry)
    → Configured bindings configured digest e
    → Configured bindings (x ∷ configured) digest e
later bindings x configured digest e (c, before, after, split, hash, parsed, hit, built) =
    (c, x ∷ before, after, ap (λ t. x ∷ t) split, hash, parsed, hit, built)

pub find_entry-from_config :
    (bindings : List TenantAgentBinding) (configured : List ReadTokenEntry) (digest : List ℕ)
    (found : Option Entry) (e : Entry)
    → find_entry digest found (from_config bindings configured) ≡ some e
    → (found ≡ some e) ⊎ Configured bindings configured digest e
unfolding find_entry from_config
find_entry-from_config bindings [] digest found e h = inl h
find_entry-from_config bindings (x ∷ configured) digest found e h =
    elim (Option-cases (parse_sha256_hex x.sha256)) [
      | inl dropped ↦
          elim (find_entry-from_config bindings configured digest found e
            (rw (from_config, dropped) at h)) [
              | inl same ↦ inl same
              | inr c ↦ inr (later bindings x configured digest e c)
            ]
      | inr (hash, parsed) ↦ elim (Bool-cases (ct_eq_32 hash digest)) [
        | inl hit ↦
            elim (find_entry-from_config bindings configured digest
              (some (entry_of bindings x hash)) e
              (rw (from_config, parsed, find_entry, hit) at h)) [
                | inl same ↦ inr (x, [], configured, refl, hash, parsed, hit, some_injective same)
                | inr c ↦ inr (later bindings x configured digest e c)
              ]
        | inr miss ↦
            elim (find_entry-from_config bindings configured digest found e
              (rw (from_config, parsed, find_entry, miss) at h)) [
                | inl same ↦ inl same
                | inr c ↦ inr (later bindings x configured digest e c)
              ]
      ]
    ]
