-- ===== src/Changes/Serve/Refill.antt =====
-- What the refill loop of `GET /changes` has collected when it ends.
use acdp_registry_rs.Changes.Serve.Complete.{serve_rows-Collected, Collected}
use acdp_registry_rs.Changes.Since.{cursor_expired}
use mathlib.Core.Path.{subst}
use acdp_registry_rs.Prelude.{
  ◌||◌, ◌>>◌, zero, ltb, ◌&&◌, refuse_if, suc, arith, max, leb, nat_eq, >>=-eq-ok, inl, ◌==◌,
  length, Bool-cases, inr, ok_injective, ◌⊎◌, refl, ap, ok, ◌∙◌, true, false, sym, ◌++◌,
}
use acdp_registry_rs.Changes.MemoryFeed.Paging.{rows-changes_page, matches-after, left}
use acdp_registry_rs.Changes.Serve.Rounds.{shown-page, Sees, is_seen}
use acdp_registry_rs.Changes.MemoryFeed.Order.{WellFormed}
use acdp_registry_rs.Changes.MemoryFeed.{changes_page, head, Feed}
use acdp_registry_rs.Changes.Feed.{from_scan, FeedPage, FeedQuery, FeedFingerprint, FeedRow}
use acdp_registry_rs.Prelude.{◌++◌, ◌≡◌, filterb, ℕ, Bool, String}
use acdp_registry_rs.Changes.Serve.{refill}
use acdp_registry_rs.Changes.Page.{is_shown, passed_page, observed, serve_rows, Scan, Registry}

module _ {V E Change : Type 0} (reg : Registry V E Change) (is_visible : String → Bool)
    (fp : FeedRow V → FeedFingerprint) (f : Feed V) (q : FeedQuery) where
  -- The query of a page from a position, as `refill` builds it.
  abbrev page_at : ℕ → FeedPage V
  page_at pos = changes_page fp (record q { after = pos }) f

  page_at-split :
      WellFormed fp f
      → (pos : ℕ)
      → left q pos f.rows ≡ (page_at pos).rows ++ left q (page_at pos).last_scanned f.rows
  page_at-split w pos =
      rw (matches-after {V = V} q pos, matches-after {V = V} q (page_at pos).last_scanned) at
        (rows-changes_page fp (record q { after = pos }) f w)

  head-page_at : (pos : ℕ) → (page_at pos).head ≡ (head fp f).head
  unfolding changes_page from_scan
  head-page_at pos = refl

  observed-Collected :
      (start pos : ℕ) (st : Scan Change)
      → Collected reg is_visible fp f q start st
      → Collected reg is_visible fp f q start (observed reg (page_at pos) st)
  observed-Collected start pos st c =
      rw (observed, leb_same st.head (page_at pos).head (c.newest ∙ sym (head-page_at pos)))
        (record {
          served = c.served;
          rendered = c.rendered;
          split = c.split;
          newest = head-page_at pos;
        })
    where
      leb_same : (a b : ℕ) → a ≡ b → leb a b ≡ true
      leb_same a b h = ground arith

  passed_page-Collected :
      (start pos : ℕ) (st : Scan Change)
      → left q st.pos f.rows ≡ left q (page_at pos).last_scanned f.rows
      → Collected reg is_visible fp f q start st
      → Collected reg is_visible fp f q start (passed_page reg (page_at pos) st)
  passed_page-Collected start pos st e c = record {
    served = c.served;
    rendered = c.rendered;
    split =
        c.split
        ∙ ap (λ t. c.served ++ filterb (is_seen reg is_visible) t)
            (further st.pos (page_at pos).last_scanned e);
    newest = c.newest;
  }
    where
      further :
          (a b : ℕ) → left q a f.rows ≡ left q b f.rows → left q a f.rows ≡ left q (max a b) f.rows
      further a b h = elim (Bool-cases (leb a b)) [
        | inl le ↦ h ∙ ap (λ n. left q n f.rows) (ground arith)
        | inr gt ↦ ap (λ n. left q n f.rows) (ground arith)
      ]

  pos-observed : (page : FeedPage V) (st : Scan Change) → (observed reg page st).pos ≡ st.pos
  pos-observed page st = elim (Bool-cases (leb st.head page.head)) [
    | inl newer ↦ rw (observed, newer) refl
    | inr older ↦ rw (observed, older) refl
  ]

  pub refill-Collected :
      Sees reg is_visible
      → WellFormed fp f
      → (start scans n target : ℕ) (check_expiry : Bool) (st out : Scan Change)
      → Collected reg is_visible fp f q start st
      → refill reg fp (λ _. f) scans n q target check_expiry st ≡ ok out
      → Collected reg is_visible fp f q start out
  unfolding refill
  refill-Collected sees w start zero n target check_expiry st out c done =
      subst (Collected reg is_visible fp f q start) (ok_injective done) c
  refill-Collected sees w start (suc scans) n target check_expiry st out c done =
      let page = page_at st.pos in
      let (served, entered, rest) =
        >>=-eq-ok
          (refuse_if (check_expiry && ltb st.pos page.pruned_through) cursor_expired
            >> serve_rows reg target (is_shown reg page.rows) page.rows (observed reg page st))
          _ done in
      let (u, fresh, loop) =
        >>=-eq-ok (refuse_if (check_expiry && ltb st.pos page.pruned_through) cursor_expired) _
          entered in
      let (collected, ends) =
        serve_rows-Collected reg is_visible fp f q w start target (is_shown reg page.rows) page.rows
          (left q page.last_scanned f.rows) (observed reg page st) served.0 served.1
          (shown-page reg is_visible sees page.rows)
          (ap (λ n. left q n f.rows) (pos-observed page st) ∙ page_at-split w st.pos)
          (observed-Collected start st.pos st c) loop in
      elim (Bool-cases served.0) [
        | inl early ↦
            subst (Collected reg is_visible fp f q start) (ok_injective (rw early at rest))
              collected
        | inr whole ↦
            let onward = rw whole at rest in
            let next =
              passed_page-Collected start st.pos served.1 (not_early ends whole) collected in
            elim (Bool-cases
              (page.reached_head || length (passed_page reg page served.1).changes == target)) [
                | inl stops ↦
                    subst (Collected reg is_visible fp f q start)
                      (ok_injective (rw stops at onward)) next
                | inr more ↦
                    refill-Collected sees w start scans (suc n) target check_expiry
                      (passed_page reg page served.1) out next (rw more at onward)
              ]
      ]
    where
      not_early : {b : Bool} {P : Type 0} → (b ≡ true) ⊎ P → b ≡ false → P
      not_early (inl early) whole = absurd (ground arith)
      not_early (inr past) whole = past
