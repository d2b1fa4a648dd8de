-- ===== src/Changes/Serve/Answer.antt =====
-- What an answer to `GET /changes` promises the reader.
use acdp_registry_rs.Changes.MemoryFeed.Pruning.{head-last_seq}
use acdp_registry_rs.Changes.MemoryFeed.Paging.{rows_after-end}
use acdp_registry_rs.Changes.Since.{at_head, oldest, position, cursor, Since, start_pos}
use acdp_registry_rs.Changes.Serve.Complete.{seen_after, Collected}
use acdp_registry_rs.Changes.Serve.Refill.{refill-Collected}
use acdp_registry_rs.Changes.Serve.Rounds.{Renders, Sees}
use acdp_registry_rs.Changes.MemoryFeed.Order.{WellFormed}
use acdp_registry_rs.Changes.MemoryFeed.{head, changes_head, Feed}
use acdp_registry_rs.Changes.Feed.{FeedQuery, FeedFingerprint, FeedRow}
use acdp_registry_rs.Changes.Serve.{
  evaluate_changes, first_scan, checks_expiry, refill, base_query, response, evaluate_from,
}
use acdp_registry_rs.Changes.Page.{
  refill_max_scans, failing, ChangesRequest, Scan, ChangesResponse, Registry,
}
use mathlib.Core.Path.{subst}
use acdp_registry_rs.Prelude.{
  sym, ok_injective, ap, inr, refl, inl, >>=-eq-ok, Bool-cases, arith, ◌⊎◌, ok, false, [], true,
  ◌≡◌, ltb, ◌≤◌, List, ℕ, Bool, String, ◌++◌,
}

module _ {V E Change : Type 0} (reg : Registry V E Change) (is_visible : String → Bool)
    (fp : FeedRow V → FeedFingerprint) (f : Feed V) where
  -- `served` are the changes that the answer holds. The cursor resumes after them, and an answer that
  -- says there is no more leaves nothing.
  pub record Complete (q : FeedQuery) (start : ℕ) (resp : ChangesResponse Change) : Type 0 where
    pub served : List (FeedRow V)
    pub rendered : Renders reg is_visible served resp.changes
    pub split :
        seen_after reg is_visible fp f q start
        ≡ served ++ seen_after reg is_visible fp f q resp.next.pos
    pub rest : (resp.has_more ≡ true) ⊎ (seen_after reg is_visible fp f q resp.next.pos ≡ [])

  seen_after-head :
      WellFormed fp f
      → (q : FeedQuery) (pos : ℕ) → (head fp f).head ≤ pos
      → seen_after reg is_visible fp f q pos ≡ []
  seen_after-head w q pos le =
      rw
        (rows_after-end f.pruned_through f.last_seq pos f.rows w.contiguous
          (omega (arith, le, head-last_seq fp f w)))
        refl

  response-Complete :
      WellFormed fp f
      → (q : FeedQuery) (start : ℕ) (st : Scan Change) → Collected reg is_visible fp f q start st
      → Complete q start (response reg fp (λ _. f) st)
  response-Complete w q start st c = record {
    served = c.served;
    rendered = c.rendered;
    split = c.split;
    rest = elim (Bool-cases (ltb st.pos st.head)) [
      | inl more ↦ inl more
      | inr done ↦ inr (seen_after-head w q st.pos (rw c.newest at (not_below st.pos st.head done)))
    ];
  }
    where
      not_below : (a b : ℕ) → ltb a b ≡ false → b ≤ a
      not_below a b h = ground arith

  evaluate_from-Complete :
      Sees reg is_visible
      → WellFormed fp f
      → (req : ChangesRequest) (start : ℕ) (q : FeedQuery) (resp : ChangesResponse Change)
        (scanned : ℕ)
      → start_pos fp {E = E} f (changes_head fp f) req.since ≡ ok start
      → base_query reg fp (λ _. f) req start ≡ ok q
      → evaluate_from reg fp (λ _. f) req (changes_head fp f) ≡ ok (resp, scanned)
      → Complete q start resp
  unfolding evaluate_from changes_head
  evaluate_from-Complete sees w req start q resp scanned from query done =
      let (body, _, after) =
        >>=-eq-ok (failing (reg.empty_len (changes_head fp f))) _
          (rw (evaluate_from, from, query) at done) in
      let (st, filled, last) =
        >>=-eq-ok
          (refill reg fp (λ _. f) refill_max_scans 2 q req.limit
            (checks_expiry reg fp (λ _. f) req.since)
            (first_scan reg fp (λ _. f) (head fp f) start body))
          _ after in
      let (_, _, same) = >>=-eq-ok (failing (reg.validate (response reg fp (λ _. f) st))) _ last in
      subst (Complete q start) (ap (λ (p : ChangesResponse Change × ℕ). p.0) (ok_injective same)) (
        response-Complete w q start st (
          refill-Collected reg is_visible fp f q sees w start refill_max_scans 2 req.limit
            (checks_expiry reg fp (λ _. f) req.since)
            (first_scan reg fp (λ _. f) (head fp f) start body) st
            (record { served = []; rendered = tt; split = refl; newest = refl }) filled))

  -- On a well-formed feed that stays the same meanwhile, and where the store tells which contexts the
  -- requester may see: what `GET /changes` answers with are the first of the changes after the request's
  -- start that the query asks for and the requester may see, in the feed's order, each once; the cursor it
  -- hands out resumes exactly after them; and it says that there is no more only where none is left.
  pub evaluate_changes-Complete :
      Sees reg is_visible
      → WellFormed fp f
      → (req : ChangesRequest) (start : ℕ) (q : FeedQuery) (resp : ChangesResponse Change)
        (scanned : ℕ)
      → start_pos fp {E = E} f (changes_head fp f) req.since ≡ ok start
      → base_query reg fp (λ _. f) req start ≡ ok q
      → evaluate_changes reg fp (λ _. f) req ≡ ok (resp, scanned)
      → Complete q start resp
  unfolding evaluate_changes changes_head start_pos
  evaluate_changes-Complete sees w req start q resp scanned from query done =
      by_start req.since refl
    where
      below :
          evaluate_from reg fp (λ _. f) req (changes_head fp f) ≡ ok (resp, scanned)
          → Complete q start resp
      below h = evaluate_from-Complete sees w req start q resp scanned from query h

      by_start : (s : Since) → req.since ≡ s → Complete q start resp
      by_start oldest e = below (rw (evaluate_changes, e) at done)
      by_start (cursor c) e = below (rw (evaluate_changes, e) at done)
      by_start (position p) e = below (rw (evaluate_changes, e) at done)
      by_start at_head e =
          let same =
            ap (λ (p : ChangesResponse Change × ℕ). p.0)
              (ok_injective (rw (evaluate_changes, e) at done)) in
          let at_end = ok_injective (rw (e, start_pos) at from) in
          subst (Complete q start) same (record {
            served = [];
            rendered = tt;
            split = ap (seen_after reg is_visible fp f q) (sym at_end);
            rest = inr (seen_after-head w q (head fp f).head (omega arith));
          })
