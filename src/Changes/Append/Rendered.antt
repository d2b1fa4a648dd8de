-- ===== src/Changes/Append/Rendered.antt =====
-- The rows that were checked before their append are ones that `GET /changes` can render.
use acdp_registry_rs.Changes.Append.Told.{Told}
use acdp_registry_rs.Changes.Append.{to_change, Sdk}
use acdp_registry_rs.Changes.Page.{render, Registry}
use acdp_registry_rs.Changes.Feed.{FeedRow}
use acdp_registry_rs.Prelude.{[], ◌∷◌, ◌≡◌, ok, All, List, ℕ, refl}

module _ {V M E L R G C : Type 0} (sdk : Sdk V M E L R G C) (reg : Registry V E C) where
  -- Where the handler renders rows by `to_change`, and every change has a length.
  render-Told :
      ((row : FeedRow V) → reg.to_change row ≡ to_change sdk row)
      → ((c : C) → (n : ℕ) × (reg.json_len c ≡ ok n))
      → (rows : List (FeedRow V)) → All (Told sdk) rows
      → All (λ (row : FeedRow V). (entry : C × ℕ) × (render reg row ≡ ok entry)) rows
  render-Told same measured [] told = tt
  render-Told same measured (r ∷ rows) told =
      let (n, length_of) = measured told.0.change in
      (
        ((told.0.change, n), rw (same r, told.0.served, length_of) refl),
        render-Told same measured rows told.1,
      )
