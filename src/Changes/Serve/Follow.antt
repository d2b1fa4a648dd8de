-- ===== src/Changes/Serve/Follow.antt =====
-- A reader that follows the cursors of `GET /changes` until there is no more.
use acdp_registry_rs.Changes.MemoryFeed.Paging.{matches-after}
use acdp_registry_rs.Changes.Serve.Answer.{Complete, evaluate_changes-Complete}
use acdp_registry_rs.Changes.Serve.Complete.{seen_after}
use acdp_registry_rs.Changes.Since.Growth.{start_pos-push}
use acdp_registry_rs.Changes.Serve.Resume.{evaluate_changes-Resumes, start_pos-range, Resumes}
use acdp_registry_rs.Changes.Serve.Total.{evaluate_changes_answers, Total}
use acdp_registry_rs.Changes.MemoryFeed.Order.{WellFormed}
use acdp_registry_rs.Changes.Since.{cursor, start_pos, ServeError, Since}
use acdp_registry_rs.Changes.Serve.Rounds.{is_seen, Sees, Renders}
use acdp_registry_rs.Changes.MemoryFeed.{rows_after, head, changes_head, push, Feed}
use acdp_registry_rs.Changes.Feed.{FeedQuery, FeedFingerprint, FeedRow}
use acdp_registry_rs.Changes.Serve.{evaluate_changes, base_query}
use acdp_registry_rs.Changes.Page.{map_result, failing, ChangesResponse, ChangesRequest, Registry}
use mathlib.Core.Path.{subst}
use mathlib.Core.List.{append-nil}
use acdp_registry_rs.Prelude.{
  ◌⊎◌, filterb, refl, inl, inr, Bool-cases, true, zero, ok_injective, false, arith, ap, ◌+◌, suc,
  >>=-eq-ok, [], ok, Result, Bool, String, ◌>>=◌, ◌++◌, ◌∷◌, ◌≡◌, ◌≤◌, ◌<◌, ℕ, List, sym,
}

module _ {V E Change : Type 0} (reg : Registry V E Change) (fp : FeedRow V → FeedFingerprint)
    (f : Feed V) where
  -- What the reader gets; the first argument bounds the number of its requests.
  unfoldable pub follow : ℕ → ChangesRequest → Result (ServeError E) (List Change)
  follow zero req = ok []
  follow (suc k) req = evaluate_changes reg fp (λ _. f) req >>= λ answer. elim answer.0.has_more [
    | false ↦ ok answer.0.changes
    | true ↦ follow k (record req { since = cursor answer.0.next }) >>= λ rest.
        ok (answer.0.changes ++ rest)
  ]

module _ {V E Change : Type 0} (reg : Registry V E Change) (is_visible : String → Bool)
    (fp : FeedRow V → FeedFingerprint) (f : Feed V) where
  Renders-concat :
      (rs : List (FeedRow V)) (cs : List Change) (rs2 : List (FeedRow V)) (cs2 : List Change)
      → Renders reg is_visible rs cs
      → Renders reg is_visible rs2 cs2
      → Renders reg is_visible (rs ++ rs2) (cs ++ cs2)
  Renders-concat [] [] rs2 cs2 h h2 = h2
  Renders-concat (r ∷ rs) (c ∷ cs) rs2 cs2 h h2 = (h.0, Renders-concat rs cs rs2 cs2 h.1 h2)
  Renders-concat [] (c ∷ cs) rs2 cs2 h h2 = absurd h
  Renders-concat (r ∷ rs) [] rs2 cs2 h h2 = absurd h

  -- The query of a later request differs in its position alone.
  base_query-since :
      (req : ChangesRequest) (s : Since) (start pos : ℕ) (q : FeedQuery)
      → base_query reg fp (λ _. f) req start ≡ ok q
      → base_query reg fp (λ _. f) (record req { since = s }) pos ≡ ok (record q { after = pos })
  unfolding base_query
  base_query-since req s start pos q h =
      let (lineages, parsed, more) =
        >>=-eq-ok (failing (map_result reg.parse_bucket req.filter.lineage_bucket)) _ h in
      let (agents, parsed2, same) =
        >>=-eq-ok (failing (map_result reg.parse_bucket req.filter.agent_bucket)) _ more in
      rw (parsed, parsed2)
        (ap (λ (b : FeedQuery). ok (record b { after = pos })) (ok_injective same))

  -- The feed accepts a cursor of its own.
  own_cursor :
      WellFormed fp f
      → (start : ℕ) (resp : ChangesResponse Change) → f.pruned_through ≤ start
      → Resumes reg fp f start resp
      → start_pos fp {E = E} f (changes_head fp f) (cursor resp.next) ≡ ok resp.next.pos
  unfolding push
  own_cursor w start resp low h =
      let above = h.above in
      subst
        (λ anchor.
          start_pos fp {E = E} f (changes_head fp f)
            (cursor (record { pos = resp.next.pos; anchor = anchor }))
          ≡ ok resp.next.pos)
        (sym h.anchored)
        (start_pos-push fp f w 0 [] resp.next.pos (omega (arith, low, above)) h.below)

  all_served :
      (q : FeedQuery) (start : ℕ) (resp : ChangesResponse Change)
      → resp.has_more ≡ false
      → Complete reg is_visible fp f q start resp
      → Renders reg is_visible (seen_after reg is_visible fp f q start) resp.changes
  all_served q start resp last page =
      rw (page.split, nothing_left page.rest, append-nil page.served) page.rendered
    where
      nothing_left :
          (resp.has_more ≡ true) ⊎ (seen_after reg is_visible fp f q resp.next.pos ≡ [])
          → seen_after reg is_visible fp f q resp.next.pos ≡ []
      nothing_left (inl more) = cc
      nothing_left (inr none_left) = none_left

  seen_after-after :
      (q : FeedQuery) (after pos : ℕ)
      → seen_after reg is_visible fp f (record q { after = after }) pos
        ≡ seen_after reg is_visible fp f q pos
  seen_after-after q after pos =
      ap (λ m. filterb (is_seen reg is_visible) (filterb m (rows_after pos f.rows)))
        (matches-after {V = V} q after)

  -- On a well-formed feed that stays the same, where the feed's rows render, the answers made of it pass the schema check and the store
  -- tells which contexts the requester may see: a reader with a positive limit, whose first position is
  -- accepted and whose buckets parse, comes to an answer without more after at most one request for each
  -- position up to the head, and one; by then it has the entries of exactly the changes after its start that
  -- it asks for and may see, in the feed's order, each once.
  pub follow_complete :
      Sees reg is_visible
      → Total reg fp f
      → WellFormed fp f
      → (k : ℕ) (req : ChangesRequest) (start : ℕ) (q : FeedQuery) → 0 < req.limit
      → start_pos fp {E = E} f (changes_head fp f) req.since ≡ ok start
      → base_query reg fp (λ _. f) req start ≡ ok q
      → (head fp f).head < start + k
      → (changes : List Change) × (follow reg fp f k req ≡ ok changes)
        × Renders reg is_visible (seen_after reg is_visible fp f q start) changes
  unfolding follow changes_head
  follow_complete sees t w zero req start q room from query enough =
      let (low, high) = start_pos-range reg fp f w req.since start from in
      absurd (omega (arith, high, enough))
  follow_complete sees t w (suc k) req start q room from query enough =
      let ((resp, scanned), done) = evaluate_changes_answers reg fp f t w req start q from query in
      let page =
        evaluate_changes-Complete reg is_visible fp f sees w req start q resp scanned from query
          done in
      let next = evaluate_changes-Resumes reg fp f w req start resp scanned room from done in
      elim (Bool-cases resp.has_more) [
        | inr last ↦ (resp.changes, rw (done, ◌>>=◌, last) refl, all_served q start resp last page)
        | inl more ↦
            let pos = resp.next.pos in
            let req2 = record req { since = cursor resp.next } in
            let low = (start_pos-range reg fp f w req.since start from).0 in
            let further = next.onward in
            let (rest, followed, rendered) =
              follow_complete sees t w k req2 pos (record q { after = pos }) room
                (own_cursor w start resp low next)
                (base_query-since req (cursor resp.next) start pos q query)
                (moves_on further more enough) in
            (
              resp.changes ++ rest,
              rw (done, ◌>>=◌, more, followed) refl,
              rw page.split (
                  Renders-concat page.served resp.changes (seen_after reg is_visible fp f q pos)
                    rest page.rendered (rw (seen_after-after q pos pos) at rendered)),
            )
      ]
    where
      moves_on :
          {b : Bool} {a c h : ℕ} → (a < c) ⊎ (b ≡ false) → b ≡ true → h < a + suc k → h < c + k
      moves_on (inl further) more enough = omega (arith, further, enough)
      moves_on (inr last) more enough = cc
