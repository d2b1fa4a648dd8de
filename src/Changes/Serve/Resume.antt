-- ===== src/Changes/Serve/Resume.antt =====
-- The cursor that an answer to `GET /changes` hands out.
use acdp_registry_rs.Changes.Serve.Advance.{refill-advances}
use acdp_registry_rs.Changes.Serve.Range.{refill-InRange, InRange}
use acdp_registry_rs.Changes.MemoryFeed.Pruning.{head-last_seq}
use acdp_registry_rs.Changes.MemoryFeed.Order.{Contiguous-le, WellFormed}
use acdp_registry_rs.Changes.Since.{
  anchor_holds, at_head, oldest, cursor, cursor_expired, position, Since, anchor_at, out_of_range,
  start_pos,
}
use acdp_registry_rs.Changes.MemoryFeed.{changes_head, head, Feed}
use acdp_registry_rs.Changes.Feed.{FeedQuery, from_snapshot, FeedFingerprint, FeedRow}
use acdp_registry_rs.Changes.Serve.{
  evaluate_changes, refill, checks_expiry, first_scan, base_query, response, evaluate_from,
}
use acdp_registry_rs.Changes.Page.{
  refill_max_scans, failing, ChangesRequest, Scan, ChangesResponse, Registry,
}
use acdp_registry_rs.Prelude.{
  ap, inr, inl, ◌||◌, not, refuse_if-eq-ok, refuse_if, >>=-eq-ok, ok_injective, arith, ok, refl,
  ◌⊎◌, false, ◌≡◌, ltb, ◌≤◌, ◌<◌, ℕ, sym,
}
use mathlib.Core.Path.{subst}

module _ {V E Change : Type 0} (reg : Registry V E Change) (fp : FeedRow V → FeedFingerprint)
    (f : Feed V) where
  -- The cursor stands between the answer's start and the head, which anchors it; unless it says that there
  -- is no more, the answer has moved on.
  pub record Resumes (start : ℕ) (resp : ChangesResponse Change) : Type 0 where
    pub anchored : resp.next.anchor ≡ anchor_at (head fp f).head (head fp f).head_fp
    pub above : start ≤ resp.next.pos
    pub below : resp.next.pos ≤ (head fp f).head
    pub onward : (start < resp.next.pos) ⊎ (resp.has_more ≡ false)

  pub pruned_through-head : (head fp f).pruned_through ≡ f.pruned_through
  unfolding head from_snapshot
  pruned_through-head = refl

  in_range :
      (p : ℕ)
      → out_of_range fp (head fp f) p ≡ false
      → (f.pruned_through ≤ p) × (p ≤ (head fp f).head)
  in_range p h =
      split (head fp f).head p (head fp f).pruned_through f.pruned_through h pruned_through-head
    where
      split : (h p a b : ℕ) → (ltb h p || ltb p a) ≡ false → a ≡ b → (b ≤ p) × (p ≤ h)
      split h p a b e same = ground arith

  pub start_pos-range :
      WellFormed fp f
      → (s : Since) (start : ℕ) → start_pos fp {E = E} f (head fp f) s ≡ ok start
      → (f.pruned_through ≤ start) × (start ≤ (head fp f).head)
  unfolding start_pos
  start_pos-range w s start h = by_since s h
    where
      range : f.pruned_through ≤ (head fp f).head
      range = omega (
        arith,
        Contiguous-le f.pruned_through f.last_seq f.rows w.contiguous,
        head-last_seq fp f w,
      )

      tested :
          (p : ℕ)
          → out_of_range fp (head fp f) p ≡ false
          → p ≡ start
          → (f.pruned_through ≤ start) × (start ≤ (head fp f).head)
      tested p fits same =
          subst (λ n. (f.pruned_through ≤ n) × (n ≤ (head fp f).head)) same (in_range p fits)

      by_since :
          (s : Since)
          → start_pos fp {E = E} f (head fp f) s ≡ ok start
          → (f.pruned_through ≤ start) × (start ≤ (head fp f).head)
      by_since oldest h = rw (sym (ok_injective h), pruned_through-head) (omega arith, range)
      by_since at_head h = rw (sym (ok_injective h)) (range, omega arith)
      by_since (position p) h =
          let (_, fits, same) =
            >>=-eq-ok (refuse_if (out_of_range fp (head fp f) p) cursor_expired) _ h in
          tested p (refuse_if-eq-ok _ _ fits) (ok_injective same)
      by_since (cursor c) h =
          let (_, fits, after) =
            >>=-eq-ok (refuse_if (out_of_range fp (head fp f) c.pos) cursor_expired) _ h in
          let (_, _, same) =
            >>=-eq-ok (refuse_if (not (anchor_holds fp f (head fp f) c.anchor)) cursor_expired) _
              after in
          tested c.pos (refuse_if-eq-ok _ _ fits) (ok_injective same)

  response-Resumes :
      (q : FeedQuery) (start : ℕ) (st : Scan Change)
      → InRange reg fp f q start st
      → (start < st.pos) ⊎ (st.pos ≡ (head fp f).head)
      → Resumes start (response reg fp (λ _. f) st)
  response-Resumes q start st h moves = record {
    anchored = rw (h.newest, h.newest_fp) refl;
    above = h.above;
    below = h.below;
    onward = elim moves [
      | inl further ↦ inl further
      | inr at ↦ inr (rw (h.newest, at) (at_end (head fp f).head))
    ];
  }
    where
      at_end : (n : ℕ) → ltb n n ≡ false
      at_end n = ground arith

  evaluate_from-Resumes :
      WellFormed fp f
      → (req : ChangesRequest) (start : ℕ) (resp : ChangesResponse Change) (scanned : ℕ)
      → 0 < req.limit
      → start_pos fp {E = E} f (changes_head fp f) req.since ≡ ok start
      → evaluate_from reg fp (λ _. f) req (changes_head fp f) ≡ ok (resp, scanned)
      → Resumes start resp
  unfolding evaluate_from changes_head
  evaluate_from-Resumes w req start resp scanned room from done =
      let (q, query, more) =
        >>=-eq-ok (base_query reg fp (λ _. f) req start) _ (rw (evaluate_from, from) at done) in
      let (body, _, after) = >>=-eq-ok (failing (reg.empty_len (changes_head fp f))) _ more in
      let first = first_scan reg fp (λ _. f) (head fp f) start body in
      let expiry = checks_expiry reg fp (λ _. f) req.since in
      let (st, filled, last) =
        >>=-eq-ok (refill reg fp (λ _. f) refill_max_scans 2 q req.limit expiry first) _ after in
      let (_, _, same) = >>=-eq-ok (failing (reg.validate (response reg fp (λ _. f) st))) _ last in
      let begins : InRange reg fp f q start first = record {
        above = omega arith;
        below = (start_pos-range w req.since start from).1;
        newest = refl;
        newest_fp = refl;
      } in
      subst (Resumes start) (ap (λ (p : ChangesResponse Change × ℕ). p.0) (ok_injective same)) (
        response-Resumes q start st
          (refill-InRange reg fp f q w start refill_max_scans 2 req.limit expiry first st begins
            filled)
          (refill-advances reg fp f q w 5 2 req.limit expiry first st room refl begins filled))

  -- On a well-formed feed that stays the same meanwhile, an answer to `GET /changes` with a positive limit
  -- hands out a cursor that is anchored at the head and stands between the request's start and the head;
  -- it has moved on from the start, unless the answer says that there is no more.
  pub evaluate_changes-Resumes :
      WellFormed fp f
      → (req : ChangesRequest) (start : ℕ) (resp : ChangesResponse Change) (scanned : ℕ)
      → 0 < req.limit
      → start_pos fp {E = E} f (changes_head fp f) req.since ≡ ok start
      → evaluate_changes reg fp (λ _. f) req ≡ ok (resp, scanned)
      → Resumes start resp
  unfolding evaluate_changes changes_head start_pos
  evaluate_changes-Resumes w req start resp scanned room from done = by_start req.since refl
    where
      below_head :
          evaluate_from reg fp (λ _. f) req (changes_head fp f) ≡ ok (resp, scanned)
          → Resumes start resp
      below_head h = evaluate_from-Resumes w req start resp scanned room from h

      by_start : (s : Since) → req.since ≡ s → Resumes start resp
      by_start oldest e = below_head (rw (evaluate_changes, e) at done)
      by_start (cursor c) e = below_head (rw (evaluate_changes, e) at done)
      by_start (position p) e = below_head (rw (evaluate_changes, e) at done)
      by_start at_head e =
          let same =
            ap (λ (p : ChangesResponse Change × ℕ). p.0)
              (ok_injective (rw (evaluate_changes, e) at done)) in
          let at_end = ok_injective (rw (e, start_pos) at from) in
          subst (Resumes start) same (record {
            anchored = refl;
            above = rw (sym at_end) (omega arith);
            below = omega arith;
            onward = inr refl;
          })
