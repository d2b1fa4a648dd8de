-- ===== src/Auth/RevocationStore/Laws.antt =====
-- Revocation is permanent: no later call brings a revoked token back while its tombstone is needed,
-- and no call on another token touches it.
use acdp_registry_rs.Prelude.{
  ◌<◌, ℕ, ◌≡◌, ◌≤◌, true, String, List, [], ◌∷◌, none, some, lookup, lookup-insert, lookup-retain,
  Distinct, insert-Distinct, retain-Distinct, arith, eq_iff, string_eq, ◌==◌, if◌then◌else◌, All,
}
use acdp_registry_rs.Time.{DateTime}
use acdp_registry_rs.Auth.RevocationStore.{
  RevocationRecord, InMemoryEntry, InMemoryRevocationStore, record_issued, revoke, is_revoked,
  is_live, owner_of, evict_expired, set_revocation_cursor, revoked_live,
}

pub data Op : Type 0 where
  issue_op : RevocationRecord → Op
  revoke_op : RevocationRecord → Op
  evict_op : DateTime → Op
  cursor_op : String → ℕ → Op

unfoldable pub apply : Op → InMemoryRevocationStore → InMemoryRevocationStore
apply (issue_op r) s = record_issued r s
apply (revoke_op r) s = revoke r s
apply (evict_op cutoff) s = evict_expired cutoff s
apply (cursor_op issuer c) s = set_revocation_cursor issuer c s

unfoldable pub run : List Op → InMemoryRevocationStore → InMemoryRevocationStore
unfolding apply
run [] s = s
run (op ∷ ops) s = run ops (apply op s)

-- Every eviction of a history runs at or before the cutoff `c`.
abbrev pub EvictsBy : DateTime → Op → Type 0
EvictsBy c (evict_op cutoff) = cutoff ≤ c
EvictsBy c _ = Unit

pub apply-Distinct :
    (op : Op) (s : InMemoryRevocationStore) → Distinct s.inner → Distinct (apply op s).inner
unfolding apply record_issued revoke evict_expired set_revocation_cursor
apply-Distinct (issue_op r) s d = insert-Distinct _ _ s.inner d
apply-Distinct (revoke_op r) s d = insert-Distinct _ _ s.inner d
apply-Distinct (evict_op cutoff) s d = retain-Distinct _ s.inner d
apply-Distinct (cursor_op issuer c) s d = d

-- A live tombstone survives any call whose eviction cutoff has not passed `c`.
apply-is_revoked :
    (op : Op) (s : InMemoryRevocationStore) (jti : String) (c : DateTime)
    → Distinct s.inner
    → EvictsBy c op
    → is_revoked jti c s ≡ true
    → is_revoked jti c (apply op s) ≡ true
unfolding apply record_issued revoke evict_expired set_revocation_cursor is_revoked
apply-is_revoked (issue_op r) s jti c d e h =
    rw (lookup-insert r.jti jti _ s.inner) (ground (arith, eq_iff r.jti jti))
apply-is_revoked (revoke_op r) s jti c d e h =
    rw (lookup-insert r.jti jti _ s.inner) (ground (arith, eq_iff r.jti jti))
apply-is_revoked (evict_op cutoff) s jti c d e h =
    rw (lookup-retain (is_live cutoff) jti s.inner d) (ground arith)
apply-is_revoked (cursor_op issuer n) s jti c d e h = h

-- In a store with one entry for each token: once revoked, a token stays revoked as of the cutoff `c`
-- through any further calls, the issue of a token under the same `jti` among them, as long as no eviction
-- runs past `c`.
pub run-is_revoked :
    (ops : List Op) (s : InMemoryRevocationStore) (jti : String) (c : DateTime)
    → Distinct s.inner
    → All (EvictsBy c) ops
    → is_revoked jti c s ≡ true
    → is_revoked jti c (run ops s) ≡ true
unfolding run
run-is_revoked [] s jti c d e h = h
run-is_revoked (op ∷ ops) s jti c d e h =
    run-is_revoked ops (apply op s) jti c (apply-Distinct op s d) e.1
      (apply-is_revoked op s jti c d e.0 h)

-- `revoke` makes the token revoked as of every cutoff before the expiry of the entry: the recorded
-- one where the token was known, the given one where it was not.
pub is_revoked-revoke :
    (r : RevocationRecord) (s : InMemoryRevocationStore) (jti : String) (c : DateTime)
    → is_revoked jti c (revoke r s) ≡ (
        if r.jti == jti
        then revoked_live c (
            some (record {
              record_ = elim (lookup r.jti s.inner) [ none ↦ r | some e ↦ e.record_ ];
              revoked = true;
            }))
        else is_revoked jti c s)
unfolding is_revoked revoke
is_revoked-revoke r s jti c =
    rw (lookup-insert r.jti jti _ s.inner) (ground (arith, eq_iff r.jti jti))

-- The owner of a token is settled by its first record until the token is evicted: neither issuing
-- under other identifiers nor revoking changes it.
pub owner_of-revoke :
    (r : RevocationRecord) (s : InMemoryRevocationStore) (jti : String) {o : String}
    → owner_of jti s ≡ some o
    → owner_of jti (revoke r s) ≡ some o
unfolding owner_of revoke
owner_of-revoke r s jti h =
    rw (lookup-insert r.jti jti _ s.inner) (ground (arith, eq_iff r.jti jti))

pub revoke-Distinct :
    (r : RevocationRecord) (s : InMemoryRevocationStore)
    → Distinct s.inner
    → Distinct (revoke r s).inner
unfolding revoke
revoke-Distinct r s d = insert-Distinct _ _ s.inner d

-- Revoking a known token is seen as of every cutoff before its recorded expiry.
pub is_revoked-revoke_known :
    (r : RevocationRecord) (s : InMemoryRevocationStore) (e : InMemoryEntry) (c : DateTime)
    → lookup r.jti s.inner ≡ some e
    → c < e.record_.expires_at
    → is_revoked r.jti c (revoke r s) ≡ true
unfolding is_revoked revoke
is_revoked-revoke_known r s e c known early =
    rw (lookup-insert r.jti r.jti _ s.inner) (ground (arith, eq_iff r.jti r.jti))
