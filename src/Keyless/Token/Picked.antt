-- ===== src/Keyless/Token/Picked.antt =====
-- Where the key of a token comes from: a key set that the cache hands out, by the header's `kid`.
use acdp_registry_rs.Keyless.Jwks.Answers.{refetched, looked_up}
use acdp_registry_rs.Keyless.Token.Claimed.{is_text-eq}
use acdp_registry_rs.Keyless.Jwks.Freshness.{handed_out}
use acdp_registry_rs.Keyless.Jwks.Calls.{call, run, Call}
use acdp_registry_rs.Keyless.Jwks.{
  keys, Answer, refresh_for_unknown_kid, IssuerUnreachable, JwksCache,
}
use acdp_registry_rs.Keyless.SigningKey.{
  nothing, ambiguous, Selected, matching, usable, one, is_candidate, only, select_key,
}
use acdp_registry_rs.Keyless.Sdk.{is_text, Kind}
use acdp_registry_rs.Keyless.Header.{Header}
use acdp_registry_rs.Keyless.Token.{
  with_keys, unknown_kid, by_selection, after_refresh, reachable, refreshed_key, pick_key, Network,
}
use mathlib.Core.Path.{subst}
use acdp_registry_rs.Keyless.Types.{
  issuer_unreachable, KeylessRefusal, KeySource, IssuerJwk, KeySet, source_eq,
}
use acdp_registry_rs.Prelude.{
  Result-cases, ok_or-eq-ok, Option-cases, ok_or, >>=-eq-ok, ◌∙◌, err, ok_injective, ap, ok, arith,
  inr, Result, sym, inl, none, refl, Bool-cases, string_eq, ◌⊎◌, [], some, ◌∷◌, true, false, ◌≡◌,
  ◌==◌, filterb, Member, List, Bool, String, Option,
}

-- The selected key of a set: of the right use, no shared secret, and with the header's `kid` where it has one.
pub record Fits (ks : KeySet) (header : Header) (kind : Kind) (key : IssuerJwk) : Type 0 where
  pub published : Member key ks.keys
  pub public : (key.kty == "oct") ≡ false
  pub for_kind : usable kind key.use_ ≡ true
  pub named : (kid : String) → header.kid ≡ some kid → key.kid ≡ some kid

only-eq-one :
    (kid : Option String) (l : List IssuerJwk) {key : IssuerJwk}
    → only kid l ≡ one key
    → l ≡ key ∷ []
only-eq-one kid [] h = cc
only-eq-one kid (k ∷ []) h = cc
only-eq-one (some kid) (k ∷ l ∷ rest) h = cc
only-eq-one none (k ∷ l ∷ rest) h = cc

Member-filterb :
    (p : IssuerJwk → Bool) (l : List IssuerJwk) (key : IssuerJwk)
    → Member key (filterb p l)
    → Member key l × (p key ≡ true)
Member-filterb p [] key m = absurd m
Member-filterb p (k ∷ l) key m = elim (Bool-cases (p k)) [
  | inl yes_ ↦ taken yes_ (Member-filterb p l key) (rw yes_ at m)
  | inr no_ ↦ let (there, holds) = Member-filterb p l key (rw no_ at m) in (inr there, holds)
]
  where
    taken :
        p k ≡ true
        → (Member key (filterb p l) → Member key l × (p key ≡ true))
        → (k ≡ key) ⊎ Member key (filterb p l)
        → Member key (k ∷ l) × (p key ≡ true)
    taken holds deeper (inl same) = (inl same, subst (λ x. p x ≡ true) same holds)
    taken holds deeper (inr there) = let (later, also) = deeper there in (inr later, also)

module _ (ks : KeySet) (header : Header) (kind : Kind) where
  select_key-Fits :
      (key : IssuerJwk) → select_key ks header kind ≡ one key → Fits ks header kind key
  unfolding select_key is_candidate
  select_key-Fits key h = fits header.kid refl (only-eq-one _ _ h)
    where
      candidate :
          Member key (filterb (is_candidate kind) ks.keys)
          → Member key ks.keys × (is_candidate kind key ≡ true)
      candidate = Member-filterb (is_candidate kind) ks.keys key

      apart : {k : String} → ◌≡◌ {A = Option String} none (some k) → ⊥
      apart e = cc

      first : {l : List IssuerJwk} → l ≡ key ∷ [] → Member key l
      first e = subst (Member key) (sym e) (inl refl)

      fits :
          (kid : Option String)
          → header.kid ≡ kid
          → matching kid (filterb (is_candidate kind) ks.keys) ≡ key ∷ []
          → Fits ks header kind key
      fits none same e =
          let (there, good) = candidate (first e) in
          record {
            published = there;
            public = ground (arith, good);
            for_kind = ground (arith, good);
            named = λ kid other. absurd (apart (sym same ∙ other));
          }
      fits (some k) same e =
          let (among, has_kid) =
            Member-filterb (λ (x : IssuerJwk). is_text x.kid k)
              (filterb (is_candidate kind) ks.keys) key (first e) in
          let (there, good) = candidate among in
          record {
            published = there;
            public = ground (arith, good);
            for_kind = ground (arith, good);
            named = λ kid other. is_text-eq key.kid k has_kid ∙ sym same ∙ other;
          }

abbrev pub lookup_call : Network → KeySource → Call
lookup_call net source = record {
  source = source;
  unknown_kid = false;
  now = net.looked_at;
  web = net.looked;
}

abbrev pub refresh_call : Network → KeySource → Call
refresh_call net source = record {
  source = source;
  unknown_kid = true;
  now = net.forced_at;
  web = net.forced;
}

-- The cache hands out the set, on the lookup or on the forced refetch after it.
abbrev pub Handed : Network → KeySource → JwksCache → KeySet → Type 0
Handed net source c ks =
    (handed_out (lookup_call net source) c ≡ some ks)
    ⊎ (handed_out (refresh_call net source) (run (lookup_call net source ∷ []) c) ≡ some ks)

-- The cache hands out a key set in which the picked key stands.
pub record Picked (net : Network) (source : KeySource) (header : Header) (kind : Kind)
    (c : JwksCache) (key : IssuerJwk) : Type 0 where
  pub ks : KeySet
  pub fits : Fits ks header kind key
  pub handed : Handed net source c ks

module _ (net : Network) (source : KeySource) (header : Header) (kind : Kind) (c : JwksCache)
    (key : IssuerJwk) where
  refreshed_key-eq-ok : (s : Selected) → refreshed_key s ≡ ok key → s ≡ one key
  refreshed_key-eq-ok (one k) h = cc
  refreshed_key-eq-ok ambiguous h = cc
  refreshed_key-eq-ok nothing h = cc

  reachable-eq-ok :
      {A : Type 0} (r : Result IssuerUnreachable A) {a : A} → reachable r ≡ ok a → r ≡ ok a
  reachable-eq-ok (ok a) h = ap (λ x. ok x) (ok_injective h)
  reachable-eq-ok (err e) h = cc

  refreshed-Picked :
      (answer : Answer (Option KeySet))
      → answer
        ≡ refresh_for_unknown_kid net.forced source net.forced_at (call (lookup_call net source) c)
      → (after_refresh header kind answer).0 ≡ ok key
      → Picked net source header kind c key
  unfolding handed_out run
  refreshed-Picked answer same h =
      let (found, reached, rest) = >>=-eq-ok (reachable answer.0) _ h in
      let (ks, present, chosen) = >>=-eq-ok (ok_or found unknown_kid) _ rest in
      record {
        ks = ks;
        fits = select_key-Fits ks header kind key (refreshed_key-eq-ok _ chosen);
        handed = inr (
            ap (λ (a : Answer (Option KeySet)). refetched a.0) (sym same)
            ∙ ap refetched (reachable-eq-ok answer.0 reached)
            ∙ ok_or-eq-ok _ _ present);
      }

  -- A key that is picked stands in a set that the cache hands out.
  pub pick_key-Picked :
      (pick_key net source header kind c).0 ≡ ok key → Picked net source header kind c key
  unfolding pick_key handed_out call
  pick_key-Picked h = elim (Result-cases (keys net.looked source net.looked_at c).0) [
    | inr (e, failed) ↦ absurd (failed_key (rw (failed, with_keys) at h))
    | inl (ks, got) ↦ selected ks got (select_key ks header kind) refl (rw (got, with_keys) at h)
  ]
    where
      failed_key : ◌≡◌ {A = Result KeylessRefusal IssuerJwk} (err issuer_unreachable) (ok key) → ⊥
      failed_key e = cc

      no_key : {e : KeylessRefusal} → ◌≡◌ {A = Result KeylessRefusal IssuerJwk} (err e) (ok key) → ⊥
      no_key e = cc

      selected :
          (ks : KeySet)
          → (keys net.looked source net.looked_at c).0 ≡ ok ks
          → (s : Selected) → select_key ks header kind ≡ s
          → (by_selection net source header kind header.kid
              (keys net.looked source net.looked_at c).1
              s).0
            ≡ ok key
          → Picked net source header kind c key
      selected ks got (one k) found h = record {
        ks = ks;
        fits = select_key-Fits ks header kind key (found ∙ ap one (ok_injective h));
        handed = inl (ap looked_up got);
      }
      selected ks got ambiguous found h = cc
      selected ks got nothing found h = elim (Option-cases header.kid) [
        | inl unnamed ↦ absurd (no_key (rw (unnamed, by_selection) at h))
        | inr (kid, named) ↦ refreshed-Picked _ refl (rw (named, by_selection) at h)
      ]
