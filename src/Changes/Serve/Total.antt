-- ===== src/Changes/Serve/Total.antt =====
-- Where the rows of a feed render and the answers made of it are valid, `GET /changes` does not fail.
use acdp_registry_rs.Changes.Serve.Resume.{start_pos-range}
use acdp_registry_rs.Changes.Since.{at_head, oldest, position, cursor, Since, start_pos}
use mathlib.Core.Path.{subst}
use acdp_registry_rs.Prelude.{leb, All-drop_while, All-filterb, All-take, All, ◌>>=◌}
use acdp_registry_rs.Changes.Since.Accepted.{page-pruned_through}
use acdp_registry_rs.Changes.Serve.Range.{
  passed_page-InRange, rows-page_at, serve_rows-InRange, observed-InRange, page_at, InRange,
}
use acdp_registry_rs.Changes.Serve.Rising.{Rising}
use acdp_registry_rs.Changes.MemoryFeed.Order.{WellFormed}
use acdp_registry_rs.Changes.MemoryFeed.{
  rows_after, pending, changes_page, changes_head, head, Feed,
}
use acdp_registry_rs.Changes.Feed.{matches, limit, from_scan, FeedQuery, FeedFingerprint, FeedRow}
use acdp_registry_rs.Changes.Serve.{
  response, nothing_after, checks_expiry, first_scan, base_query, evaluate_changes, evaluate_from,
  refill,
}
use acdp_registry_rs.Changes.Page.{
  refill_max_scans, ChangesRequest, passed_page, with_change, overflows, observed, is_shown, Scan,
  ChangesResponse, serve_rows, failing, render, Registry,
}
use acdp_registry_rs.Prelude.{
  zero, ◌||◌, nat_eq, refl, [], inr, true, inl, ◌==◌, arith, ◌&&◌, length, suc, Bool-cases, false,
  Bool, ok, ◌∷◌, ◌≡◌, ltb, ◌≤◌, ℕ, List, sym,
}

-- Every row of the feed has an entry, the empty answer at its head a length, and the schema check passes on each
-- answer that the refill loop makes of it.
pub record Total {V E Change : Type 0} (reg : Registry V E Change)
    (fp : FeedRow V → FeedFingerprint) (f : Feed V) : Type 0 where
  pub rendered :
      All (λ (row : FeedRow V). (entry : Change × ℕ) × (render reg row ≡ ok entry)) f.rows
  pub measured : (n : ℕ) × (failing (reg.empty_len (head fp f)) ≡ ok n)
  pub valid :
      (req : ChangesRequest) (q : FeedQuery) (start body : ℕ) (st : Scan Change)
      → start_pos fp {E = E} f (changes_head fp f) req.since ≡ ok start
      → refill reg fp
          (λ _. f)
          refill_max_scans
          2
          q
          req.limit
          (checks_expiry reg fp (λ _. f) req.since)
          (first_scan reg fp (λ _. f) (head fp f) start body)
        ≡ ok st
      → failing (reg.validate (response reg fp (λ _. f) st)) ≡ ok tt

module _ {V E Change : Type 0} (reg : Registry V E Change) (fp : FeedRow V → FeedFingerprint)
    (f : Feed V) (q : FeedQuery) where
  serve_rows_answers :
      (target : ℕ) (shows : FeedRow V → Bool) (rows : List (FeedRow V)) (st : Scan Change)
      → All (λ (row : FeedRow V). (entry : Change × ℕ) × (render reg row ≡ ok entry)) rows
      → (served : Bool × Scan Change) × (serve_rows reg target shows rows st ≡ ok served)
  unfolding serve_rows
  serve_rows_answers target shows [] st t = ((false, st), refl)
  serve_rows_answers target shows (r ∷ rows) st t =
      elim (Bool-cases (length st.changes == target)) [
        | inl full ↦ ((true, st), rw (serve_rows, full) refl)
        | inr room ↦ elim (Bool-cases (shows r)) [
          | inr off ↦
              let (served, e) =
                serve_rows_answers target shows rows (record st { pos = r.seq }) t.1 in
              (served, rw (serve_rows, room, off) e)
          | inl on ↦
              let (entry, done) = t.0 in
              elim (Bool-cases (overflows reg st entry.1)) [
                | inl over ↦ (
                  (true, record st { capped = true }),
                  rw (serve_rows, room, on, done, ◌>>=◌, over) refl,
                )
                | inr fits ↦
                    let (served, e) =
                      serve_rows_answers target shows rows
                        (with_change reg entry.0 entry.1 r.seq st) t.1 in
                    (served, rw (serve_rows, room, on, done, ◌>>=◌, fits) e)
              ]
        ]
      ]

  page-rendered :
      Total reg fp f
      → (pos : ℕ)
      → All
          (λ (row : FeedRow V). (entry : Change × ℕ) × (render reg row ≡ ok entry))
          (page_at reg fp f q pos).rows
  unfolding changes_page from_scan
  page-rendered t pos =
      let Rendered : FeedRow V → Type 0 =
        λ row. (entry : Change × ℕ) × (render reg row ≡ ok entry) in
      All-take Rendered (limit q) (pending (record q { after = pos }) f) (
        All-filterb Rendered (matches (record q { after = pos })) (rows_after pos f.rows)
          (All-drop_while Rendered (λ (row : FeedRow V). leb row.seq pos) f.rows t.rendered))

  pub refill_answers :
      Total reg fp f
      → WellFormed fp f
      → (low scans n target : ℕ) (check_expiry : Bool) (st : Scan Change) → f.pruned_through ≤ low
      → InRange reg fp f q low st
      → (out : Scan Change) × (refill reg fp (λ _. f) scans n q target check_expiry st ≡ ok out)
  unfolding refill
  refill_answers t w low zero n target check_expiry st kept h = (st, refl)
  refill_answers t w low (suc scans) n target check_expiry st kept h =
      let page = page_at reg fp f q st.pos in
      let (served, loop) =
        serve_rows_answers target (is_shown reg page.rows) page.rows (observed reg page st)
          (page-rendered t st.pos) in
      let fresh = unexpired check_expiry st.pos page.pruned_through (
        omega (arith, kept, h.above, (page-pruned_through fp f (record q { after = st.pos })).0)) in
      let (seen, at, _) = observed-InRange reg fp f q low st.pos st h in
      let reached =
        serve_rows-InRange reg fp f q low target (is_shown reg page.rows) page.rows
          (observed reg page st) served.0 served.1
          (subst (λ p. Rising p (head fp f).head page.rows) (sym at)
            (rows-page_at reg fp f q w st.pos))
          seen loop in
      let next = passed_page-InRange reg fp f q w low st.pos served.1 h.below reached in
      elim (Bool-cases served.0) [
        | inl early ↦ (served.1, rw (fresh, loop, ◌>>=◌, early) refl)
        | inr whole ↦
            elim (Bool-cases
              (page.reached_head || length (passed_page reg page served.1).changes == target)) [
                | inl stops ↦
                    (passed_page reg page served.1, rw (fresh, loop, ◌>>=◌, whole, stops) refl)
                | inr more ↦
                    let (out, e) =
                      refill_answers t w low scans (suc n) target check_expiry
                        (passed_page reg page served.1) kept next in
                    (out, rw (fresh, loop, ◌>>=◌, whole, more) e)
              ]
      ]
    where
      unexpired : (b : Bool) (p a : ℕ) → a ≤ p → (b && ltb p a) ≡ false
      unexpired true p a h = ground arith
      unexpired false p a h = refl

module _ {V E Change : Type 0} (reg : Registry V E Change) (fp : FeedRow V → FeedFingerprint)
    (f : Feed V) where
  evaluate_from_answers :
      Total reg fp f
      → WellFormed fp f
      → (req : ChangesRequest) (start : ℕ) (q : FeedQuery)
      → start_pos fp {E = E} f (changes_head fp f) req.since ≡ ok start
      → base_query reg fp (λ _. f) req start ≡ ok q
      → (answer : ChangesResponse Change × ℕ) × (evaluate_from reg fp
            (λ _. f)
            req
            (changes_head fp f)
          ≡ ok answer)
  unfolding evaluate_from changes_head
  evaluate_from_answers t w req start q from query =
      let (body, measured) = t.measured in
      let first = first_scan reg fp (λ _. f) (head fp f) start body in
      let (low, high) = start_pos-range reg fp f w req.since start from in
      let begins : InRange reg fp f q start first = record {
        above = omega arith;
        below = high;
        newest = refl;
        newest_fp = refl;
      } in
      let (st, filled) =
        refill_answers reg fp f q t w start refill_max_scans 2 req.limit
          (checks_expiry reg fp (λ _. f) req.since) first low begins in
      (
        (response reg fp (λ _. f) st, st.scanned),
        rw (from, query, measured, filled, t.valid req q start body st from filled) refl,
      )

  -- On a well-formed feed that stays the same meanwhile, and where the registry is Total for it,
  -- a request whose position is accepted and whose buckets parse gets an answer.
  pub evaluate_changes_answers :
      Total reg fp f
      → WellFormed fp f
      → (req : ChangesRequest) (start : ℕ) (q : FeedQuery)
      → start_pos fp {E = E} f (changes_head fp f) req.since ≡ ok start
      → base_query reg fp (λ _. f) req start ≡ ok q
      → (answer : ChangesResponse Change × ℕ) × (evaluate_changes reg fp (λ _. f) req ≡ ok answer)
  unfolding evaluate_changes
  evaluate_changes_answers t w req start q from query = by_start req.since refl
    where
      Answered : Type 0
      Answered =
          (answer : ChangesResponse Change × ℕ) × (evaluate_changes reg fp (λ _. f) req ≡ ok answer)

      below_head :
          (answer : ChangesResponse Change × ℕ) × (evaluate_from reg fp
              (λ _. f)
              req
              (changes_head fp f)
            ≡ ok answer)
      below_head = evaluate_from_answers t w req start q from query

      by_start : (s : Since) → req.since ≡ s → Answered
      by_start oldest e = (below_head.0, rw (evaluate_changes, e) below_head.1)
      by_start (cursor c) e = (below_head.0, rw (evaluate_changes, e) below_head.1)
      by_start (position p) e = (below_head.0, rw (evaluate_changes, e) below_head.1)
      by_start at_head e =
          ((nothing_after reg fp (λ _. f) (changes_head fp f), 0), rw (evaluate_changes, e) refl)
