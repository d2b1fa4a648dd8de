-- ===== src/Auth/RevocationStore.antt =====
-- `tombstone_cutoff` and `InMemoryRevocationStore` of
-- crates/acdp-registry-auth/src/revocation_store.rs. The two maps stand for the content of the
-- mutexes; a poisoned lock is not modelled.
pub mod Laws
use acdp_registry_rs.Prelude.{
  ℕ, ◌-◌, String, Bool, true, false, ◌&&◌, Option, none, some, HashMap, lookup, insert, retain, ltb,
  if◌then◌else◌, string_eq, [],
}
use acdp_registry_rs.Time.{DateTime, seconds}

-- Below chrono's earliest instant the source panics, and this stops at 0.
unfoldable pub tombstone_cutoff : DateTime → ℕ → DateTime
tombstone_cutoff now leeway_seconds = now - seconds leeway_seconds

pub record RevocationRecord : Type 0 where
  pub jti : String
  pub agent_did : String
  pub expires_at : DateTime

pub record InMemoryEntry : Type 0 where
  pub record_ : RevocationRecord
  pub revoked : Bool

pub record InMemoryRevocationStore : Type 0 where
  pub inner : HashMap String InMemoryEntry
  pub cursors : HashMap String ℕ

abbrev pub new : InMemoryRevocationStore
new = record { inner = []; cursors = [] }

-- The entry that `record_issued` leaves under its `jti`.
abbrev pub issued_entry : Option InMemoryEntry → RevocationRecord → InMemoryEntry
issued_entry none r = record { record_ = r; revoked = false }
issued_entry (some e) r = if e.revoked then e else record e { record_ = r }

unfoldable pub record_issued : RevocationRecord → InMemoryRevocationStore → InMemoryRevocationStore
record_issued r s = record s {
  inner = insert r.jti (issued_entry (lookup r.jti s.inner) r) s.inner;
}

-- The entry that `revoke` leaves: the flag of a known one, a tombstone for an unknown one.
abbrev pub revoked_entry : Option InMemoryEntry → RevocationRecord → InMemoryEntry
revoked_entry none r = record { record_ = r; revoked = true }
revoked_entry (some e) r = record e { revoked = true }

unfoldable pub revoke : RevocationRecord → InMemoryRevocationStore → InMemoryRevocationStore
revoke r s = record s { inner = insert r.jti (revoked_entry (lookup r.jti s.inner) r) s.inner }

abbrev pub is_live : DateTime → InMemoryEntry → Bool
is_live cutoff e = ltb cutoff e.record_.expires_at

abbrev pub revoked_live : DateTime → Option InMemoryEntry → Bool
revoked_live cutoff none = false
revoked_live cutoff (some e) = e.revoked && is_live cutoff e

unfoldable pub is_revoked : String → DateTime → InMemoryRevocationStore → Bool
is_revoked jti cutoff s = revoked_live cutoff (lookup jti s.inner)

abbrev pub owner : Option InMemoryEntry → Option String
owner none = none
owner (some e) = some e.record_.agent_did

unfoldable pub owner_of : String → InMemoryRevocationStore → Option String
owner_of jti s = owner (lookup jti s.inner)

unfoldable pub evict_expired : DateTime → InMemoryRevocationStore → InMemoryRevocationStore
evict_expired cutoff s = record s { inner = retain (is_live cutoff) s.inner }

unfoldable pub get_revocation_cursor : String → InMemoryRevocationStore → Option ℕ
get_revocation_cursor issuer s = lookup issuer s.cursors

unfoldable pub set_revocation_cursor :
    String → ℕ → InMemoryRevocationStore → InMemoryRevocationStore
set_revocation_cursor issuer cursor_ms s = record s { cursors = insert issuer cursor_ms s.cursors }
