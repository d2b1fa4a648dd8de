-- ===== src/Changes/Serve/Rounds.antt =====
-- What one page of rows, and the refill loop, add to an answer.
use acdp_registry_rs.Changes.Feed.{has, FeedRow}
use acdp_registry_rs.Prelude.{
  Bool-cases, inr, inl, Option-cases, [], ◌∷◌, ◌++◌, refl, ok, ==_refl, arith, ℕ, All, not, none,
  string_eq, true, false, ◌==◌, ◌&&◌, some, ◌≡◌, List, Bool, String,
}
use acdp_registry_rs.Changes.Page.{
  is_empty_page, render, is_shown, named, subjects, visibility_subject, Registry,
}

module _ {V E Change : Type 0} (reg : Registry V E Change) (is_visible : String → Bool) where
  -- The store answers, of the contexts that it is asked for, the visible ones.
  abbrev pub Sees : Type 0
  Sees =
      (ids : List String) (id : String) → reg.visible_ctx_ids ids id ≡ (has ids id && is_visible id)

  -- Whether the requester may see the change.
  abbrev pub is_seen : FeedRow V → Bool
  is_seen row = elim (visibility_subject row) [
    | none ↦ true
    | some id ↦ not (id == "") && is_visible id
  ]

  abbrev SubjectKnown : List (FeedRow V) → FeedRow V → Type 0
  SubjectKnown page row =
      (id : String)
      → visibility_subject row ≡ some id
      → (id == "") ≡ false
      → has (subjects reg page) id ≡ true

  has-named :
      (id x : String) (ids : List String) → has ids id ≡ true → has (named reg x ids) id ≡ true
  has-named id x ids h = ground arith

  has-named_self :
      (id : String) (ids : List String) → (id == "") ≡ false → has (named reg id ids) id ≡ true
  has-named_self id ids h = rw (h, ==_refl id) refl

  subjects-cons :
      (row : FeedRow V) (rows : List (FeedRow V)) (id : String)
      → has (subjects reg rows) id ≡ true
      → has (subjects reg (row ∷ rows)) id ≡ true
  subjects-cons row rows id h = elim (Option-cases (visibility_subject row)) [
    | inl public ↦ rw (subjects, public) h
    | inr (x, e) ↦ rw (subjects, e) (has-named id x (subjects reg rows) h)
  ]

  subjects-known :
      (page rows : List (FeedRow V))
      → ((id : String) → has (subjects reg rows) id ≡ true → has (subjects reg page) id ≡ true)
      → All (SubjectKnown page) rows
  subjects-known page [] keeps = tt
  subjects-known page (row ∷ rows) keeps = (
    λ id e text. keeps id (rw (subjects, e) (has-named_self id (subjects reg rows) text)),
    subjects-known page rows (λ id h. keeps id (subjects-cons row rows id h)),
  )

  no_empty_subject : (rows : List (FeedRow V)) → has (subjects reg rows) "" ≡ false
  no_empty_subject [] = refl
  no_empty_subject (row ∷ rows) = elim (Option-cases (visibility_subject row)) [
    | inl public ↦ rw (subjects, public) (no_empty_subject rows)
    | inr (x, e) ↦ rw (subjects, e) (not_named x (subjects reg rows) (no_empty_subject rows))
  ]
    where
      not_named :
          (x : String) (ids : List String) → has ids "" ≡ false → has (named reg x ids) "" ≡ false
      not_named x ids h = ground arith

  has-not_empty : (ids : List String) (id : String) → has ids id ≡ true → is_empty_page ids ≡ false
  has-not_empty [] id h = cc
  has-not_empty (x ∷ ids) id h = refl

  is_shown-eq-is_seen :
      Sees
      → (page : List (FeedRow V)) (row : FeedRow V) → SubjectKnown page row
      → is_shown reg page row ≡ is_seen row
  is_shown-eq-is_seen sees page row known = elim (Option-cases (visibility_subject row)) [
    | inl public ↦ rw (is_shown, is_seen, public) refl
    | inr (id, e) ↦ elim (Bool-cases (id == "")) [
      | inl nameless ↦
          rw
            (
              is_shown,
              is_seen,
              e,
              sees (subjects reg page) id,
              (string_eq.beq_iff id "").0 nameless,
              no_empty_subject page,
            )
            (nothing (is_empty_page (subjects reg page)))
      | inr text ↦
          let asked = known id e text in
          rw
            (
              is_shown,
              is_seen,
              e,
              sees (subjects reg page) id,
              asked,
              text,
              has-not_empty (subjects reg page) id asked,
            )
            refl
    ]
  ]
    where
      nothing : (b : Bool) → (not b && false) ≡ false
      nothing true = refl
      nothing false = refl

  pub shown-page :
      Sees → (page : List (FeedRow V)) → All (λ row. is_shown reg page row ≡ is_seen row) page
  shown-page sees page = each page (subjects-known page page (λ id h. h))
    where
      each :
          (rows : List (FeedRow V))
          → All (SubjectKnown page) rows
          → All (λ row. is_shown reg page row ≡ is_seen row) rows
      each [] h = tt
      each (row ∷ rows) h = (is_shown-eq-is_seen sees page row h.0, each rows h.1)

  -- `cs` are the entries of the rows `rs`, one by one.
  abbrev pub Renders : List (FeedRow V) → List Change → Type 0
  Renders [] [] = Unit
  Renders (r ∷ rs) (c ∷ cs) = ((n : ℕ) × (render reg r ≡ ok (c, n))) × Renders rs cs
  Renders _ _ = ⊥

  pub Renders-append :
      (rs : List (FeedRow V)) (cs : List Change) (r : FeedRow V) (c : Change) (n : ℕ)
      → Renders rs cs
      → render reg r ≡ ok (c, n)
      → Renders (rs ++ (r ∷ [])) (cs ++ (c ∷ []))
  Renders-append [] [] r c n h e = ((n, e), tt)
  Renders-append (x ∷ rs) (y ∷ cs) r c n h e = (h.0, Renders-append rs cs r c n h.1 e)
  Renders-append [] (y ∷ cs) r c n h e = absurd h
  Renders-append (x ∷ rs) [] r c n h e = absurd h
