-- ===== src/Auth/RevocationPoller/Applied.antt =====
-- What a page of a feed does to the store.
use acdp_registry_rs.Time.{DateTime}
use acdp_registry_rs.Auth.Error.{AuthError}
use acdp_registry_rs.Auth.RevocationStore.{RevocationRecord}
use acdp_registry_rs.Auth.RevocationPoller.{
  record_of, timestamp_opt, apply_at, is_ok, apply_entries, apply_entry, is_foreign, FeedEntry,
  RevocationFeedConfig, Store,
}
use mathlib.Core.Path.{subst}
use acdp_registry_rs.Prelude.{
  Member, string_eq, Option-cases, none, refl, sym, err, inr, eq_iff, arith, [], ◌∙◌, ◌==◌, ◌≢◌,
  inl, ok, some, Bool-cases, All, true, false, ◌∷◌, ◌⊎◌, Bool, ◌≡◌, Result, List, String, Option, ℕ,
}

abbrev pub marked : Option (RevocationRecord × Bool) → Bool
marked none = false
marked (some (r, revoked)) = revoked

-- What the poller relies on in a store: the entry that a token has there, if any, and whether it is revoked. A
-- revocation that succeeds takes effect, none undoes another or touches another token, and a cursor that is
-- set is read back, or else the one before it.
pub record Reliable {S : Type 0} (store : Store S) : Type 0 where
  pub entry : String → S → Option (RevocationRecord × Bool)
  pub revoke_marks :
      (r : RevocationRecord) (s : S)
      → (store.revoke r s).1 ≡ ok tt
      → marked (entry r.jti (store.revoke r s).0) ≡ true
  pub revoke_keeps :
      (r : RevocationRecord) (s : S) (jti : String)
      → marked (entry jti s) ≡ true
      → marked (entry jti (store.revoke r s).0) ≡ true
  pub revoke_others :
      (r : RevocationRecord) (s : S) (jti : String)
      → r.jti ≢ jti
      → entry jti (store.revoke r s).0 ≡ entry jti s
  pub cursor_others :
      (issuer : String) (c : ℕ) (s : S) (jti : String)
      → entry jti (store.set_revocation_cursor issuer c s).0 ≡ entry jti s
  pub revoke_cursor :
      (r : RevocationRecord) (s : S) (issuer : String)
      → store.get_revocation_cursor issuer (store.revoke r s).0
        ≡ store.get_revocation_cursor issuer s
  pub cursor_read :
      (issuer : String) (c : ℕ) (s : S)
      → let s' = (store.set_revocation_cursor issuer c s).0 in
        (store.get_revocation_cursor issuer s' ≡ ok (some c))
        ⊎ (store.get_revocation_cursor issuer s' ≡ store.get_revocation_cursor issuer s)

-- The entry is one for this poller to apply: its issuer is the peer's or left out, and its expiry is an instant.
pub record Applies (cfg : RevocationFeedConfig) (e : FeedEntry) : Type 0 where
  pub ours : (e.iss ≡ "") ⊎ (e.iss ≡ cfg.issuer)
  pub dated : (t : DateTime) × (timestamp_opt e.exp ≡ some t)

ours-is_foreign :
    (cfg : RevocationFeedConfig) (e : FeedEntry)
    → (e.iss ≡ "") ⊎ (e.iss ≡ cfg.issuer)
    → is_foreign cfg e ≡ false
ours-is_foreign cfg e (inl h) = ground (arith, eq_iff e.iss "")
ours-is_foreign cfg e (inr h) = ground (arith, eq_iff e.iss cfg.issuer)

foreign-is_foreign :
    (cfg : RevocationFeedConfig) (e : FeedEntry)
    → is_foreign cfg e ≡ false
    → (e.iss ≡ "") ⊎ (e.iss ≡ cfg.issuer)
foreign-is_foreign cfg e h = elim (Bool-cases (e.iss == "")) [
  | inl left_out ↦ inl ((eq_iff e.iss "").0 left_out)
  | inr there ↦ inr ((eq_iff e.iss cfg.issuer).0 (ground (arith, there, h)))
]

module _ {S : Type 0} (store : Store S) (cfg : RevocationFeedConfig) (laws : Reliable store) where
  -- What holds of a store that is left alone, and after the revocation, holds after the entry.
  apply_entry-cases :
      (P : S → Type 0) (e : FeedEntry) (s : S)
      → P s
      → ((t : DateTime) → is_foreign cfg e ≡ false → P (store.revoke (record_of e t) s).0)
      → P (apply_entry store cfg e s).0
  unfolding apply_entry
  apply_entry-cases P e s same moved = elim (Bool-cases (is_foreign cfg e)) [
    | inl foreign ↦ rw foreign same
    | inr ours ↦ elim (Option-cases (timestamp_opt e.exp)) [
      | inl undated ↦ rw (ours, undated, apply_at) same
      | inr (t, dated) ↦ rw (ours, dated, apply_at) (moved t ours)
    ]
  ]

  apply_entry-keeps :
      (e : FeedEntry) (s : S) (jti : String)
      → marked (laws.entry jti s) ≡ true
      → marked (laws.entry jti (apply_entry store cfg e s).0) ≡ true
  apply_entry-keeps e s jti h =
      apply_entry-cases (λ x. marked (laws.entry jti x) ≡ true) e s h
        (λ t ours. laws.revoke_keeps (record_of e t) s jti h)

  pub apply_entries-keeps :
      (entries : List FeedEntry) (s : S) (jti : String)
      → marked (laws.entry jti s) ≡ true
      → marked (laws.entry jti (apply_entries store cfg entries s).0) ≡ true
  unfolding apply_entries
  apply_entries-keeps [] s jti h = h
  apply_entries-keeps (e ∷ entries) s jti h =
      apply_entries-keeps entries _ jti (apply_entry-keeps e s jti h)

  is_ok-eq-ok : (r : Result AuthError (Unit {0})) → is_ok r ≡ true → r ≡ ok tt
  is_ok-eq-ok (ok u) h = refl
  is_ok-eq-ok (err e) h = cc

  apply_entry-marks :
      (e : FeedEntry) (s : S)
      → Applies cfg e
      → (apply_entry store cfg e s).1 ≡ true
      → marked (laws.entry e.jti (apply_entry store cfg e s).0) ≡ true
  unfolding apply_entry
  apply_entry-marks e s a done =
      let (t, dated) = a.dated in
      let ours = ours-is_foreign cfg e a.ours in
      rw (ours, dated, apply_at)
        (laws.revoke_marks (record_of e t) s (is_ok-eq-ok _ (rw (ours, dated, apply_at) at done)))

  -- A page that is applied without a failure revokes each token that an entry for this poller names, and keeps
  -- what was revoked.
  pub apply_entries-marks :
      (entries : List FeedEntry) (s : S) (e : FeedEntry)
      → Applies cfg e
      → Member e entries
      → (apply_entries store cfg entries s).1 ≡ true
      → marked (laws.entry e.jti (apply_entries store cfg entries s).0) ≡ true
  unfolding apply_entries
  apply_entries-marks [] s e a m done = absurd m
  apply_entries-marks (x ∷ entries) s e a (inl here) done = apply_entries-keeps entries _ e.jti (
      subst (λ y. marked (laws.entry y.jti (apply_entry store cfg x s).0) ≡ true) here
        (apply_entry-marks x s (subst (Applies cfg) (sym here) a) (ground (arith, done))))
  apply_entries-marks (x ∷ entries) s e a (inr there) done =
      apply_entries-marks entries _ e a there (ground (arith, done))

  apply_entry-others :
      (e : FeedEntry) (s : S) (jti : String)
      → (is_foreign cfg e ≡ false → e.jti ≢ jti)
      → laws.entry jti (apply_entry store cfg e s).0 ≡ laws.entry jti s
  apply_entry-others e s jti other =
      apply_entry-cases (λ x. laws.entry jti x ≡ laws.entry jti s) e s refl
        (λ t ours. laws.revoke_others (record_of e t) s jti (other ours))

  -- No entry that names another issuer than the peer revokes a token: where every entry for a token does,
  -- applying the page leaves the token's row in the store as it was.
  pub apply_entries-foreign :
      (entries : List FeedEntry) (s : S) (jti : String)
      → All (λ (e : FeedEntry). e.jti ≡ jti → (e.iss ≢ "") × (e.iss ≢ cfg.issuer)) entries
      → laws.entry jti (apply_entries store cfg entries s).0 ≡ laws.entry jti s
  unfolding apply_entries
  apply_entries-foreign [] s jti h = refl
  apply_entries-foreign (e ∷ entries) s jti h =
      apply_entries-foreign entries _ jti h.1 ∙ apply_entry-others e s jti (other e h.0)
    where
      other :
          (e : FeedEntry)
          → (e.jti ≡ jti → (e.iss ≢ "") × (e.iss ≢ cfg.issuer))
          → is_foreign cfg e ≡ false
          → e.jti ≢ jti
      other e h ours same = elim (foreign-is_foreign cfg e ours) [
        | inl left_out ↦ (h same).0 left_out
        | inr peer ↦ (h same).1 peer
      ]

  get_revocation_cursor-apply_entry :
      (e : FeedEntry) (s : S)
      → store.get_revocation_cursor cfg.issuer (apply_entry store cfg e s).0
        ≡ store.get_revocation_cursor cfg.issuer s
  get_revocation_cursor-apply_entry e s =
      apply_entry-cases
        (λ x. store.get_revocation_cursor cfg.issuer x ≡ store.get_revocation_cursor cfg.issuer s) e
        s refl (λ t ours. laws.revoke_cursor (record_of e t) s cfg.issuer)

  pub get_revocation_cursor-apply_entries :
      (entries : List FeedEntry) (s : S)
      → store.get_revocation_cursor cfg.issuer (apply_entries store cfg entries s).0
        ≡ store.get_revocation_cursor cfg.issuer s
  unfolding apply_entries
  get_revocation_cursor-apply_entries [] s = refl
  get_revocation_cursor-apply_entries (e ∷ entries) s =
      get_revocation_cursor-apply_entries entries _ ∙ get_revocation_cursor-apply_entry e s
