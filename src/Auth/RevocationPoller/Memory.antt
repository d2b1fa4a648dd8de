-- ===== src/Auth/RevocationPoller/Memory.antt =====
-- The in-memory revocation store is what the poller relies on.
use acdp_registry_rs.Auth.RevocationPoller.Applied.{Reliable, marked}
use acdp_registry_rs.Auth.RevocationStore.{
  InMemoryRevocationStore, get_revocation_cursor, set_revocation_cursor, revoke, revoked_entry,
  RevocationRecord, InMemoryEntry,
}
use acdp_registry_rs.Auth.RevocationPoller.{in_memory}
use acdp_registry_rs.Prelude.{
  string_eq, inr, inl, ◌==◌, Bool-cases, eq_iff, arith, ◌≢◌, String, ==_refl, lookup-insert, lookup,
  refl, true, ◌≡◌, none, some, Bool, Option,
}

abbrev pub row : Option InMemoryEntry → Option (RevocationRecord × Bool)
row none = none
row (some e) = some (e.record_, e.revoked)

marked-revoked_entry :
    (o : Option InMemoryEntry) (r : RevocationRecord)
    → marked (row (some (revoked_entry o r))) ≡ true
marked-revoked_entry none r = refl
marked-revoked_entry (some e) r = refl

pub in_memory-Reliable : Reliable in_memory
unfolding revoke set_revocation_cursor get_revocation_cursor
in_memory-Reliable = record {
  entry = λ jti s. row (lookup jti s.inner);
  revoke_marks = λ r s done. marks r s;
  revoke_keeps = keeps;
  revoke_others = others;
  cursor_others = λ issuer c s jti. refl;
  revoke_cursor = λ r s issuer. refl;
  cursor_read = λ issuer c s.
      inl (rw (lookup-insert issuer issuer c s.cursors) (ground (arith, eq_iff issuer issuer)));
}
  where
    marks :
        (r : RevocationRecord) (s : InMemoryRevocationStore)
        → marked (row (lookup r.jti (revoke r s).inner)) ≡ true
    marks r s =
        rw
          (
            lookup-insert r.jti r.jti (revoked_entry (lookup r.jti s.inner) r) s.inner,
            ==_refl r.jti,
          )
          (marked-revoked_entry (lookup r.jti s.inner) r)

    others :
        (r : RevocationRecord) (s : InMemoryRevocationStore) (jti : String)
        → r.jti ≢ jti
        → row (lookup jti (revoke r s).inner) ≡ row (lookup jti s.inner)
    others r s jti other =
        rw (lookup-insert r.jti jti (revoked_entry (lookup r.jti s.inner) r) s.inner)
          (ground (arith, eq_iff r.jti jti))

    keeps :
        (r : RevocationRecord) (s : InMemoryRevocationStore) (jti : String)
        → marked (row (lookup jti s.inner)) ≡ true
        → marked (row (lookup jti (revoke r s).inner)) ≡ true
    keeps r s jti h = elim (Bool-cases (r.jti == jti)) [
      | inl same ↦
          rw (lookup-insert r.jti jti (revoked_entry (lookup r.jti s.inner) r) s.inner, same)
            (marked-revoked_entry (lookup r.jti s.inner) r)
      | inr other ↦
          rw (lookup-insert r.jti jti (revoked_entry (lookup r.jti s.inner) r) s.inner, other) h
    ]
