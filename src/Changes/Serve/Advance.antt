-- ===== src/Changes/Serve/Advance.antt =====
-- A page of `GET /changes` that leaves more to read has moved its position on.
use mathlib.Core.Path.{subst}
use acdp_registry_rs.Changes.Since.{cursor_expired, ServeError}
use acdp_registry_rs.Changes.MemoryFeed.Order.{WellFormed}
use acdp_registry_rs.Changes.Serve.Range.{
  refill-InRange, passed_page-InRange, rows-page_at, observed-InRange, moved, serve_rows-InRange,
  page_at, InRange,
}
use acdp_registry_rs.Changes.Serve.Rising.{Rising}
use acdp_registry_rs.Changes.MemoryFeed.{head, changes_page, Feed}
use acdp_registry_rs.Changes.Feed.{limit, from_scan, FeedQuery, FeedFingerprint, FeedRow}
use acdp_registry_rs.Changes.Serve.{refill}
use acdp_registry_rs.Changes.Page.{
  passed_page, observed, is_shown, overflows, with_change, render, serve_rows, Scan, Registry,
}
use acdp_registry_rs.Prelude.{
  ap, length, ◌||◌, ok_injective, sym, ◌≤◌, ◌∙◌, ◌>>◌, ◌&&◌, refuse_if, Result, ◌⊎◌, suc, nat_eq,
  >>=-eq-ok, inl, inr, Bool-cases, false, refl, ◌==◌, ok, max, true, [], arith, Bool, ◌∷◌, ◌≡◌, ltb,
  ◌<◌, ℕ, List,
}

module _ {V E Change : Type 0} (reg : Registry V E Change) (fp : FeedRow V → FeedFingerprint)
    (f : Feed V) (q : FeedQuery) where
  arrived : (low : ℕ) (st : Scan Change) → InRange reg fp f q low st → InRange reg fp f q st.pos st
  arrived low st h = record {
    above = omega arith;
    below = h.below;
    newest = h.newest;
    newest_fp = h.newest_fp;
  }

  -- The first row is always passed: an empty answer takes an entry of any size.
  serve_rows-first :
      (target : ℕ) (shows : FeedRow V → Bool) (r : FeedRow V) (rows : List (FeedRow V))
      (st : Scan Change) (left_early : Bool) (out : Scan Change)
      → 0 < target
      → st.changes ≡ []
      → Rising st.pos (head fp f).head (r ∷ rows)
      → InRange reg fp f q st.pos st
      → serve_rows reg target shows (r ∷ rows) st ≡ ok (left_early, out)
      → InRange reg fp f q r.seq out
  unfolding serve_rows
  serve_rows-first target shows r rows st left_early out pos none_yet up h done =
      let entered = rw (none_yet, room target pos, serve_rows) at done in
      elim (Bool-cases (shows r)) [
        | inr off ↦
            let st2 = record st { pos = r.seq } in
            serve_rows-InRange reg fp f q r.seq target shows rows st2 left_early out up.2
              (arrived st.pos st2
                (moved reg fp f q st.pos st st2 (omega (arith, up.0)) up.1 refl refl h))
              (rw (off, serve_rows) at entered)
        | inl on ↦
            let (rendered, entry, rest) =
              >>=-eq-ok (render reg r) _ (rw (on, serve_rows) at entered) in
            let st2 = with_change reg rendered.0 rendered.1 r.seq st in
            serve_rows-InRange reg fp f q r.seq target shows rows st2 left_early out up.2
              (arrived st.pos st2
                (moved reg fp f q st.pos st st2 (omega (arith, up.0)) up.1 refl refl h))
              (rw (overflows, none_yet) at rest)
      ]
    where
      room : (n : ℕ) → 0 < n → (0 == n) ≡ false
      room n h = ground arith

  empty_page :
      (pos : ℕ)
      → (page_at reg fp f q pos).rows ≡ []
      → ((page_at reg fp f q pos).reached_head ≡ true)
        × ((page_at reg fp f q pos).last_scanned ≡ max (head fp f).head pos)
  unfolding changes_page from_scan
  empty_page pos e =
      (rw e (short (limit q) (omega arith)), rw (e, short (limit q) (omega arith)) refl)
    where
      short : (n : ℕ) → 0 < n → ltb 0 n ≡ true
      short n h = ground arith

  -- What the loop does with a page that it has gone through.
  abbrev after_page :
      ℕ → ℕ → ℕ → Bool → ℕ → Bool × Scan Change → Result (ServeError E) (Scan Change)
  after_page scans n target check_expiry pos served =
      let next = passed_page reg (page_at reg fp f q pos) served.1 in
      elim served.0 [
        | true ↦ ok served.1
        | false ↦ elim ((page_at reg fp f q pos).reached_head || length next.changes == target) [
          | true ↦ ok next
          | false ↦ refill reg fp (λ _. f) scans (suc n) q target check_expiry next
        ]
      ]

  after_page-InRange :
      WellFormed fp f
      → (low scans n target : ℕ) (check_expiry : Bool) (pos : ℕ) (served : Bool × Scan Change)
        (out : Scan Change)
      → pos ≤ (head fp f).head
      → InRange reg fp f q low served.1
      → after_page scans n target check_expiry pos served ≡ ok out
      → InRange reg fp f q low out
  after_page-InRange w low scans n target check_expiry pos served out le h done =
      let next = passed_page-InRange reg fp f q w low pos served.1 le h in
      elim (Bool-cases served.0) [
        | inl early ↦
            subst (InRange reg fp f q low) (ok_injective (rw (after_page, early) at done)) h
        | inr whole ↦
            elim (Bool-cases (
              (page_at reg fp f q pos).reached_head
              || length (passed_page reg (page_at reg fp f q pos) served.1).changes == target)) [
                | inl stops ↦
                    subst (InRange reg fp f q low)
                      (ok_injective (rw (after_page, whole, stops) at done)) next
                | inr more ↦
                    refill-InRange reg fp f q w low scans (suc n) target check_expiry
                      (passed_page reg (page_at reg fp f q pos) served.1) out next
                      (rw (after_page, whole, more) at done)
              ]
      ]

  page-advances :
      WellFormed fp f
      → (scans n target : ℕ) (check_expiry : Bool) (shows : FeedRow V → Bool)
        (rows : List (FeedRow V)) (st : Scan Change) (served : Bool × Scan Change)
        (out : Scan Change)
      → 0 < target
      → st.changes ≡ []
      → InRange reg fp f q st.pos st
      → (page_at reg fp f q st.pos).rows ≡ rows
      → serve_rows reg target shows rows st ≡ ok served
      → after_page scans n target check_expiry st.pos served ≡ ok out
      → (st.pos < out.pos) ⊎ (out.pos ≡ (head fp f).head)
  unfolding serve_rows
  page-advances w scans n target check_expiry shows (r ∷ rows) st served out pos none_yet h e loop
        rest =
      let up = rw e at (rows-page_at reg fp f q w st.pos) in
      let reached =
        serve_rows-first target shows r rows st served.0 served.1 pos none_yet up h loop in
      let past =
        after_page-InRange w r.seq scans n target check_expiry st.pos served out h.below reached
          rest in
      inl (omega (arith, up.0, past.above))
  page-advances w scans n target check_expiry shows [] st served out pos none_yet h e loop rest =
      let (at_head, all) = empty_page st.pos e in
      let stops =
        subst (λ s. after_page scans n target check_expiry st.pos s ≡ ok out)
          (sym (ok_injective loop)) rest in
      let end =
        ap (λ (s : Scan Change). s.pos) (ok_injective (rw (after_page, at_head) at stops)) in
      let below = h.below in inr (sym end ∙ ap (max st.pos) all ∙ omega (arith, below))

  -- The refill loop moves on from its start, unless that is the head.
  pub refill-advances :
      WellFormed fp f
      → (scans n target : ℕ) (check_expiry : Bool) (st out : Scan Change) → 0 < target
      → st.changes ≡ []
      → InRange reg fp f q st.pos st
      → refill reg fp (λ _. f) (suc scans) n q target check_expiry st ≡ ok out
      → (st.pos < out.pos) ⊎ (out.pos ≡ (head fp f).head)
  unfolding refill
  refill-advances w scans n target check_expiry st out pos none_yet h done =
      let page = page_at reg fp f q st.pos in
      let fresh = refuse_if (check_expiry && ltb st.pos page.pruned_through) cursor_expired in
      let (served, entered, rest) =
        >>=-eq-ok
          (fresh >> serve_rows reg target (is_shown reg page.rows) page.rows (observed reg page st))
          _ done in
      let (_, _, loop) = >>=-eq-ok fresh _ entered in
      let (seen, at, changes) = observed-InRange reg fp f q st.pos st.pos st h in
      subst (λ p. (p < out.pos) ⊎ (out.pos ≡ (head fp f).head)) at
        (page-advances w scans n target check_expiry (is_shown reg page.rows) page.rows
          (observed reg page st) served out pos (changes ∙ none_yet)
          (subst (λ p. InRange reg fp f q p (observed reg page st)) (sym at) seen)
          (ap (λ p. (page_at reg fp f q p).rows) at) loop
          (subst (λ p. after_page scans n target check_expiry p served ≡ ok out) (sym at) rest))
