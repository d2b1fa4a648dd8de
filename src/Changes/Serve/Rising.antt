-- ===== src/Changes/Serve/Rising.antt =====
-- The rows of a page stand at rising positions, up to the head.
use acdp_registry_rs.Changes.MemoryFeed.Paging.{left}
use acdp_registry_rs.Changes.MemoryFeed.Order.{Contiguous-le, Contiguous}
use acdp_registry_rs.Changes.Feed.{matches, FeedQuery, FeedRow}
use acdp_registry_rs.Prelude.{
  nat_eq, inr, some_injective, leb, inl, zero, ap, Bool-cases, some, filterb, suc, [], last, Bool,
  take, arith, ◌∷◌, ◌≡◌, ◌≤◌, ◌<◌, ℕ, List,
}

module _ {V : Type 0} where
  -- Positions that rise from `p` and do not pass `top`.
  abbrev pub Rising : ℕ → ℕ → List (FeedRow V) → Type 0
  Rising p top [] = Unit
  Rising p top (r ∷ rows) = (p < r.seq) × (r.seq ≤ top) × Rising r.seq top rows

  pub Rising-below :
      (p q top : ℕ) (rows : List (FeedRow V)) → p ≤ q → Rising q top rows → Rising p top rows
  Rising-below p q top [] le h = tt
  Rising-below p q top (r ∷ rows) le h = (omega (arith, le, h.0), h.1, h.2)

  pub Rising-take :
      (n p top : ℕ) (rows : List (FeedRow V)) → Rising p top rows → Rising p top (take n rows)
  Rising-take zero p top rows h = tt
  Rising-take (suc n) p top [] h = tt
  Rising-take (suc n) p top (r ∷ rows) h = (h.0, h.1, Rising-take n r.seq top rows h.2)

  Rising-filterb :
      (m : FeedRow V → Bool) (p top : ℕ) (rows : List (FeedRow V))
      → Contiguous p top rows
      → Rising p top (filterb m rows)
  Rising-filterb m p top [] h = tt
  Rising-filterb m p top (x ∷ rows) h = elim (Bool-cases (m x)) [
    | inl on ↦
        rw on (
          omega (arith, h.0),
          Contiguous-le x.seq top rows h.1,
          Rising-filterb m x.seq top rows h.1,
        )
    | inr off ↦ rw off (
        Rising-below p x.seq top (filterb m rows) (omega (arith, h.0))
          (Rising-filterb m x.seq top rows h.1))
  ]

  pub Rising-left :
      (q : FeedQuery) (pos p top : ℕ) (rows : List (FeedRow V))
      → Contiguous p top rows
      → Rising pos top (left q pos rows)
  Rising-left q pos p top [] h = tt
  Rising-left q pos p top (x ∷ rows) h = elim (Bool-cases (leb x.seq pos)) [
    | inl on ↦ rw on (Rising-left q pos x.seq top rows h.1)
    | inr off ↦ rw off (
        Rising-below pos p top (filterb (matches q) (x ∷ rows)) (ground (arith, off, h.0))
          (Rising-filterb (matches q) p top (x ∷ rows) h))
  ]

  pub Rising-last :
      (p top : ℕ) (rows : List (FeedRow V)) (r : FeedRow V)
      → Rising p top rows
      → last rows ≡ some r
      → r.seq ≤ top
  Rising-last p top [] r h e = cc
  Rising-last p top (x ∷ []) r h e =
      omega (arith, ap (λ (y : FeedRow V). y.seq) (some_injective e), h.1)
  Rising-last p top (x ∷ y ∷ rows) r h e = Rising-last x.seq top (y ∷ rows) r h.2 e
