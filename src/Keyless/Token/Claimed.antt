-- ===== src/Keyless/Token/Claimed.antt =====
-- What the checks of a token's claims establish.
use acdp_registry_rs.Keyless.Types.{confirmation_mismatch, token_invalid}
use acdp_registry_rs.Keyless.Claims.{
  listed_audience, last_second, clock_skew_seconds, confirmed_by, aud_ok, expected_issuer,
  not_ahead, numeric, check_claims, confirmed,
}
use acdp_registry_rs.Keyless.Sdk.{or_violation, and_then, is_text, Sdk}
use acdp_registry_rs.Prelude.{
  string_eq, some_injective, sym, ◌==◌, err, Result, ok_injective, min, ok_or-eq-ok, ◌∙◌, leb,
  refuse_if, inr, arith, Option-cases, inl, not, ok_or, eq_iff, none, [], false, Bool-cases,
  refuse_if-eq-ok, >>=-eq-ok, ◌+◌, ap, any, ◌<◌, ok, ◌⊎◌, ◌∷◌, ◌≤◌, true, ◌≡◌, List, some, String,
  Option, ℕ,
}

pub is_text-eq : (o : Option String) (text : String) → is_text o text ≡ true → o ≡ some text
is_text-eq none text h = cc
is_text-eq (some s) text h = ap (λ x. some x) ((eq_iff s text).0 h)

pub or_violation-eq-ok {ℓ} :
    {A : Type ℓ} (r : Result String A) {a : A} → or_violation r ≡ ok a → r ≡ ok a
or_violation-eq-ok (ok a) h = ap (λ x. ok x) (ok_injective h)
or_violation-eq-ok (err e) h = cc

module _ {V M K J : Type 0} (sdk : Sdk V M K J) where
  abbrev pub text_of : String → M → Option String
  text_of member claims = and_then (sdk.get member claims) sdk.as_str

  -- A date that is there is one, and at most a minute ahead.
  abbrev pub NotAhead : ℕ → Option V → Type 0
  NotAhead now none = Unit
  NotAhead now (some v) = (t : ℕ) × (numeric sdk (some v) ≡ some t) × (t ≤ now + 60)

  abbrev pub IsIn : String → List V → Type 0
  IsIn did [] = ⊥
  IsIn did (v ∷ values) = (sdk.as_str v ≡ some did) ⊎ IsIn did values

  -- The audience is this registry, or a list that names it.
  abbrev pub Audience : String → Option V → Type 0
  Audience did none = ⊥
  Audience did (some v) =
      (sdk.as_str v ≡ some did)
      ⊎ ((values : List V) × (sdk.as_array v ≡ some values) × IsIn did values)

  -- A thumbprint that is there is that of the request's key.
  abbrev pub Confirms : J → Option V → Type 0
  Confirms jwk none = Unit
  Confirms jwk (some v) =
      (cnf : M) × (sdk.as_object v ≡ some cnf)
      × ((jkt : V)
          → sdk.get "jkt" cnf ≡ some jkt
          → (thumb : String) × (sdk.thumbprint jwk ≡ ok thumb) × (sdk.as_str jkt ≡ some thumb))

  pub record Claimed (expected_iss : Option String) (subject registry_did : String) (jwk : J)
      (now exp : ℕ) (claims : M) : Type 0 where
    pub expires : numeric sdk (sdk.get "exp" claims) ≡ some exp
    pub alive : now < exp
    pub issued : NotAhead now (sdk.get "iat" claims)
    pub not_before : NotAhead now (sdk.get "nbf" claims)
    pub issuer : (iss : String) → expected_iss ≡ some iss → text_of "iss" claims ≡ some iss
    pub subject_matches : text_of "sub" claims ≡ some subject
    pub audience : Audience registry_did (sdk.get "aud" claims)
    pub confirmation : Confirms jwk (sdk.get "cnf" claims)

  not_ahead-NotAhead :
      (why : String) (now : ℕ) (o : Option V) {u : Unit {0}}
      → not_ahead sdk why now o ≡ ok u
      → NotAhead now o
  not_ahead-NotAhead why now none h = tt
  not_ahead-NotAhead why now (some v) h =
      let (t, dated, small) =
        >>=-eq-ok (ok_or (numeric sdk (some v)) (token_invalid "iat or nbf is not a NumericDate")) _
          h in
      let bound =
        refuse_if-eq-ok (not (leb t (min (now + clock_skew_seconds) last_second))) _ small in
      (t, ok_or-eq-ok _ _ dated, ground (arith, bound))

  expected_issuer-eq :
      (expected : Option String) (claims : M) {u : Unit {0}}
      → expected_issuer sdk expected claims ≡ ok u
      → (iss : String) → expected ≡ some iss
      → text_of "iss" claims ≡ some iss
  expected_issuer-eq none claims h iss e = cc
  expected_issuer-eq (some i) claims h iss e =
      let same = refuse_if-eq-ok (not (is_text (text_of "iss" claims) i)) _ h in
      is_text-eq (text_of "iss" claims) i (ground (arith, same)) ∙ e

  any-IsIn :
      (did : String) (values : List V)
      → any (λ v. is_text (sdk.as_str v) did) values ≡ true
      → IsIn did values
  any-IsIn did [] h = cc
  any-IsIn did (v ∷ values) h = elim (Bool-cases (is_text (sdk.as_str v) did)) [
    | inl here ↦ inl (is_text-eq (sdk.as_str v) did here)
    | inr there ↦ inr (any-IsIn did values (ground (arith, h, there)))
  ]

  aud_ok-Audience : (did : String) (o : Option V) → aud_ok sdk did o ≡ true → Audience did o
  aud_ok-Audience did none h = cc
  aud_ok-Audience did (some v) h = elim (Option-cases (sdk.as_str v)) [
    | inr (a, text) ↦ inl (text ∙ ap (λ x. some x) ((eq_iff a did).0 (rw (text, aud_ok) at h)))
    | inl other ↦ elim (Option-cases (sdk.as_array v)) [
      | inr (values, listed) ↦
          inr
            (values, listed, any-IsIn did values (rw (other, listed, aud_ok, listed_audience) at h))
      | inl neither ↦ absurd (refused (rw (other, neither, aud_ok, listed_audience) at h))
    ]
  ]
    where
      refused : false ≡ true → ⊥
      refused e = cc

  confirmed-Confirms :
      (jwk : J) (o : Option V) {u : Unit {0}} → confirmed sdk jwk o ≡ ok u → Confirms jwk o
  confirmed-Confirms jwk none h = tt
  confirmed-Confirms jwk (some v) h =
      let (cnf, object, rest) = >>=-eq-ok (ok_or (sdk.as_object v) confirmation_mismatch) _ h in
      (cnf, ok_or-eq-ok _ _ object, λ jkt there. by_jkt (sdk.get "jkt" cnf) jkt there rest)
    where
      by_jkt :
          (o : Option V) (jkt : V)
          → o ≡ some jkt
          → {u : Unit {0}} → confirmed_by sdk jwk o ≡ ok u
          → (thumb : String) × (sdk.thumbprint jwk ≡ ok thumb) × (sdk.as_str jkt ≡ some thumb)
      by_jkt none jkt there h = cc
      by_jkt (some w) jkt there h =
          let (text, read, rest) = >>=-eq-ok (ok_or (sdk.as_str w) confirmation_mismatch) _ h in
          let (thumb, made, last) = >>=-eq-ok (or_violation (sdk.thumbprint jwk)) _ rest in
          let same = refuse_if-eq-ok (not (text == thumb)) _ last in
          (
            thumb,
            or_violation-eq-ok (sdk.thumbprint jwk) made,
            ap sdk.as_str (sym (some_injective there))
                ∙ ok_or-eq-ok _ _ read
                ∙ ap (λ x. some x) ((eq_iff text thumb).0 (ground (arith, same))),
          )

  pub check_claims-Claimed :
      (expected_iss : Option String) (subject registry_did : String) (jwk : J) (now exp : ℕ)
      (claims : M)
      → check_claims sdk expected_iss subject registry_did jwk now claims ≡ ok exp
      → Claimed expected_iss subject registry_did jwk now exp claims
  unfolding check_claims
  check_claims-Claimed expected_iss subject registry_did jwk now exp claims h =
      let (e, expires, h1) = >>=-eq-ok (ok_or (numeric sdk (sdk.get "exp" claims)) _) _ h in
      let (_, alive, h2) = >>=-eq-ok _ _ h1 in
      let (_, iat, h3) = >>=-eq-ok (not_ahead sdk _ now (sdk.get "iat" claims)) _ h2 in
      let (_, nbf, h4) = >>=-eq-ok (not_ahead sdk _ now (sdk.get "nbf" claims)) _ h3 in
      let (_, iss, h5) = >>=-eq-ok (expected_issuer sdk expected_iss claims) _ h4 in
      let (_, sub, h6) =
        >>=-eq-ok (refuse_if (not (is_text (text_of "sub" claims) subject)) _) _ h5 in
      let (_, aud, h7) =
        >>=-eq-ok (refuse_if (not (aud_ok sdk registry_did (sdk.get "aud" claims))) _) _ h6 in
      let (_, cnf, same) = >>=-eq-ok (confirmed sdk jwk (sdk.get "cnf" claims)) _ h7 in
      let late = refuse_if-eq-ok (leb e now) _ alive in
      let sub_same = refuse_if-eq-ok (not (is_text (text_of "sub" claims) subject)) _ sub in
      let listed = refuse_if-eq-ok (not (aud_ok sdk registry_did (sdk.get "aud" claims))) _ aud in
      let e_same : e ≡ exp = ok_injective same in
      record {
        expires = ok_or-eq-ok _ _ expires ∙ ap (λ x. some x) e_same;
        alive = ground (arith, late, e_same);
        issued = not_ahead-NotAhead _ now (sdk.get "iat" claims) iat;
        not_before = not_ahead-NotAhead _ now (sdk.get "nbf" claims) nbf;
        issuer = expected_issuer-eq expected_iss claims iss;
        subject_matches = is_text-eq (text_of "sub" claims) subject (ground (arith, sub_same));
        audience = aud_ok-Audience registry_did (sdk.get "aud" claims) (ground (arith, listed));
        confirmation = confirmed-Confirms jwk (sdk.get "cnf" claims) cnf;
      }
