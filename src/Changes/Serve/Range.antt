-- ===== src/Changes/Serve/Range.antt =====
-- How far a page of `GET /changes` reads: never back, never past the head, and always some way where
-- more is left.
use acdp_registry_rs.Changes.Serve.Rising.{Rising-left, Rising-take, Rising-last, Rising}
use acdp_registry_rs.Changes.Since.{cursor_expired}
use acdp_registry_rs.Changes.MemoryFeed.Pruning.{head-last_seq}
use mathlib.Core.Path.{subst}
use acdp_registry_rs.Changes.MemoryFeed.{pending, changes_page, head, Feed}
use acdp_registry_rs.Changes.Serve.{refill}
use acdp_registry_rs.Changes.Page.{
  is_shown, passed_page, observed, with_change, overflows, render, serve_rows, Scan, Registry,
}
use acdp_registry_rs.Changes.MemoryFeed.Order.{WellFormed}
use acdp_registry_rs.Changes.Feed.{limit, from_scan, FeedPage, FeedFingerprint, FeedQuery, FeedRow}
use acdp_registry_rs.Prelude.{
  ◌||◌, ◌>>◌, ◌&&◌, true, ◌+◌, refuse_if, sym, Option-cases, ltb, refl, nat_eq, >>=-eq-ok, ◌==◌,
  length, ◌∙◌, ok_injective, ok, inr, leb, inl, zero, ap, Bool-cases, suc, [], last, Bool, arith,
  ◌∷◌, ◌≡◌, ◌≤◌, ℕ, List,
}

module _ {V E Change : Type 0} (reg : Registry V E Change) (fp : FeedRow V → FeedFingerprint)
    (f : Feed V) (q : FeedQuery) where
  -- The scan has come to `low` at least and not past the head, which is the newest it has seen.
  pub record InRange (low : ℕ) (st : Scan Change) : Type 0 where
    pub above : low ≤ st.pos
    pub below : st.pos ≤ (head fp f).head
    pub newest : st.head ≡ (head fp f).head
    pub newest_fp : st.head_fp ≡ (head fp f).head_fp

  pub moved :
      (low : ℕ) (st out : Scan Change)
      → st.pos ≤ out.pos
      → out.pos ≤ (head fp f).head
      → out.head ≡ st.head
      → out.head_fp ≡ st.head_fp
      → InRange low st
      → InRange low out
  moved low st out on top same same_fp h = record {
    above = omega (arith, h.above, on);
    below = top;
    newest = same ∙ h.newest;
    newest_fp = same_fp ∙ h.newest_fp;
  }

  pub serve_rows-InRange :
      (low target : ℕ) (shows : FeedRow V → Bool) (rows : List (FeedRow V)) (st : Scan Change)
      (left_early : Bool) (out : Scan Change)
      → Rising st.pos (head fp f).head rows
      → InRange low st
      → serve_rows reg target shows rows st ≡ ok (left_early, out)
      → InRange low out
  unfolding serve_rows
  serve_rows-InRange low target shows [] st left_early out up h done =
      subst (InRange low) (ap (λ (p : Bool × Scan Change). p.1) (ok_injective done)) h
  serve_rows-InRange low target shows (r ∷ rows) st left_early out up h done =
      elim (Bool-cases (length st.changes == target)) [
        | inl full ↦
            subst (InRange low)
              (ap (λ (p : Bool × Scan Change). p.1) (ok_injective (rw (full, serve_rows) at done)))
              h
        | inr room ↦ elim (Bool-cases (shows r)) [
          | inr off ↦
              serve_rows-InRange low target shows rows (record st { pos = r.seq }) left_early out
                up.2 (moved low st _ (omega (arith, up.0)) up.1 refl refl h)
                (rw (room, off, serve_rows) at done)
          | inl on ↦
              let (rendered, entry, rest) =
                >>=-eq-ok (render reg r) _ (rw (room, on, serve_rows) at done) in
              elim (Bool-cases (overflows reg st rendered.1)) [
                | inl over ↦
                    subst (InRange low)
                      (ap (λ (p : Bool × Scan Change). p.1) (ok_injective (rw over at rest)))
                      (moved low st _ (omega arith) h.below refl refl h)
                | inr fits ↦
                    serve_rows-InRange low target shows rows
                      (with_change reg rendered.0 rendered.1 r.seq st) left_early out up.2
                      (moved low st _ (omega (arith, up.0)) up.1 refl refl h) (rw fits at rest)
              ]
        ]
      ]

  -- The query of a page from a position, as `refill` builds it.
  abbrev pub page_at : ℕ → FeedPage V
  page_at pos = changes_page fp (record q { after = pos }) f

  pub rows-page_at : WellFormed fp f → (pos : ℕ) → Rising pos (head fp f).head (page_at pos).rows
  unfolding changes_page from_scan
  rows-page_at w pos = rw (head-last_seq fp f w) (
      Rising-take (limit q) pos f.last_seq (pending (record q { after = pos }) f) (
        Rising-left (record q { after = pos }) pos f.pruned_through f.last_seq f.rows w.contiguous))

  last_scanned-page_at :
      WellFormed fp f
      → (pos : ℕ) → pos ≤ (head fp f).head
      → (page_at pos).last_scanned ≤ (head fp f).head
  unfolding changes_page from_scan
  last_scanned-page_at w pos le =
      let rows = (page_at pos).rows in
      elim (Bool-cases (ltb (length rows) (limit q))) [
        | inl reached ↦ rw reached (omega (arith, le))
        | inr more ↦ elim (Option-cases (last rows)) [
          | inl empty ↦ rw (more, empty) (omega (arith, le))
          | inr (r, e) ↦
              rw (more, e) (Rising-last pos (head fp f).head rows r (rows-page_at w pos) e)
        ]
      ]

  head-page_at :
      (pos : ℕ)
      → ((page_at pos).head ≡ (head fp f).head) × ((page_at pos).head_fp ≡ (head fp f).head_fp)
  unfolding changes_page from_scan
  head-page_at pos = (refl, refl)

  observed-newer :
      (page : FeedPage V) (st : Scan Change)
      → st.head ≡ page.head
      → observed reg page st ≡ record st {
        head = page.head;
        head_fp = page.head_fp;
        scanned = st.scanned + length page.rows;
      }
  observed-newer page st same = rw (observed, leb_same st.head page.head same) refl
    where
      leb_same : (a b : ℕ) → a ≡ b → leb a b ≡ true
      leb_same a b h = ground arith

  pub observed-InRange :
      (low pos : ℕ) (st : Scan Change)
      → InRange low st
      → InRange low (observed reg (page_at pos) st)
        × ((observed reg (page_at pos) st).pos ≡ st.pos)
        × ((observed reg (page_at pos) st).changes ≡ st.changes)
  observed-InRange low pos st h =
      rw (observed-newer (page_at pos) st (h.newest ∙ sym (head-page_at pos).0)) (
        record {
          above = h.above;
          below = h.below;
          newest = (head-page_at pos).0;
          newest_fp = (head-page_at pos).1;
        },
        refl,
        refl,
      )

  pub passed_page-InRange :
      WellFormed fp f
      → (low pos : ℕ) (st : Scan Change) → pos ≤ (head fp f).head
      → InRange low st
      → InRange low (passed_page reg (page_at pos) st)
  passed_page-InRange w low pos st le h =
      let past = last_scanned-page_at w pos le in
      let below = h.below in moved low st _ (omega arith) (omega (arith, past, below)) refl refl h

  pub refill-InRange :
      WellFormed fp f
      → (low scans n target : ℕ) (check_expiry : Bool) (st out : Scan Change) → InRange low st
      → refill reg fp (λ _. f) scans n q target check_expiry st ≡ ok out
      → InRange low out
  unfolding refill
  refill-InRange w low zero n target check_expiry st out h done =
      subst (InRange low) (ok_injective done) h
  refill-InRange w low (suc scans) n target check_expiry st out h done =
      let page = page_at st.pos in
      let fresh = refuse_if (check_expiry && ltb st.pos page.pruned_through) cursor_expired in
      let (served, entered, rest) =
        >>=-eq-ok
          (fresh >> serve_rows reg target (is_shown reg page.rows) page.rows (observed reg page st))
          _ done in
      let (_, _, loop) = >>=-eq-ok fresh _ entered in
      let (seen, at, _) = observed-InRange low st.pos st h in
      let reached =
        serve_rows-InRange low target (is_shown reg page.rows) page.rows (observed reg page st)
          served.0 served.1
          (subst (λ p. Rising p (head fp f).head page.rows) (sym at) (rows-page_at w st.pos)) seen
          loop in
      let next = passed_page-InRange w low st.pos served.1 h.below reached in
      elim (Bool-cases served.0) [
        | inl early ↦ subst (InRange low) (ok_injective (rw early at rest)) reached
        | inr whole ↦
            elim (Bool-cases
              (page.reached_head || length (passed_page reg page served.1).changes == target)) [
                | inl stops ↦ subst (InRange low) (ok_injective (rw (whole, stops) at rest)) next
                | inr more ↦
                    refill-InRange w low scans (suc n) target check_expiry
                      (passed_page reg page served.1) out next (rw (whole, more) at rest)
              ]
      ]
