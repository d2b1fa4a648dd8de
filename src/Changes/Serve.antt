-- ===== src/Changes/Serve.antt =====
-- `GET /changes`: `evaluate_changes` of crates/acdp-registry-core/src/handlers/changes.rs over the in-memory
-- feed. `feeds n` is the feed that the n-th call of the store sees. A cursor stands here before
-- `encode_cursor`, and a database that fails is left out.
pub mod Rounds
pub mod Complete
pub mod Refill
pub mod Answer
pub mod Rising
pub mod Range
pub mod Advance
pub mod Resume
pub mod Total
pub mod Follow
pub mod Tests
use acdp_registry_rs.Changes.Page.{
  passed_page, observed, refill_max_scans, map_result, is_shown, failing, serve_rows,
  ChangesResponse, ChangesRequest, is_empty_page, Scan, Registry,
}
use acdp_registry_rs.Changes.Since.{
  at_head, oldest, position, start_pos, cursor, cursor_expired, failed, head_cursor, anchor_at,
  ServeError, DecodedCursor, Since,
}
use acdp_registry_rs.RateLimit.AgentLimiter.{u32_max}
use acdp_registry_rs.Prelude.{
  min, filterb, zero, ◌++◌, ◌&&◌, string_eq, suc, max, leb, length, ◌+◌, not, refuse_if, ◌>>◌,
  ◌>>=◌, ◌-◌, nat_eq, ◌==◌, ◌>>=◌, ◌||◌, if◌then◌else◌, true, ◌∷◌, err, ltb, none, [], false, some,
  ok, Bool, String, Result, Option, List, ℕ,
}
use acdp_registry_rs.Changes.Feed.{
  lifecycle, superseded, key_revocation, feed_origin_fp, FeedPage, ChangeKind, FeedQuery,
  FeedFingerprint, FeedRow, FeedHead,
}
use acdp_registry_rs.Changes.MemoryFeed.{changes_page, Feed, changes_head}

module _ {V E Change : Type 0} (reg : Registry V E Change) (fp : FeedRow V → FeedFingerprint)
    (feeds : ℕ → Feed V) where
  -- The refill loop, from the `n`-th call of the store on.
  unfoldable pub refill :
      ℕ → ℕ → FeedQuery → ℕ → Bool → Scan Change → Result (ServeError E) (Scan Change)
  refill zero n base target check_expiry st = ok st
  refill (suc scans) n base target check_expiry st =
      let page = changes_page fp (record base { after = st.pos }) (feeds n) in
      refuse_if (check_expiry && ltb st.pos page.pruned_through) cursor_expired
      >> serve_rows reg target (is_shown reg page.rows) page.rows (observed reg page st)
      >>= λ served. elim served.0 [
        | true ↦ ok served.1
        | false ↦
            let next = passed_page reg page served.1 in
            elim (page.reached_head || length next.changes == target) [
              | true ↦ ok next
              | false ↦ refill scans (suc n) base target check_expiry next
            ]
      ]

  abbrev pub revocation_agents : List String → List String
  revocation_agents watched =
      let visible = filterb (reg.visible_ctx_ids watched) watched in
      if is_empty_page watched || is_empty_page visible
      then []
      else reg.sorted_dedup (reg.producers_of visible)

  unfoldable pub base_query : ChangesRequest → ℕ → Result (ServeError E) FeedQuery
  base_query req pos = do
    lineage_buckets ← failing (map_result reg.parse_bucket req.filter.lineage_bucket)
    agent_buckets ← failing (map_result reg.parse_bucket req.filter.agent_bucket)
    ok (record {
      after = pos;
      ctx_ids = req.filter.ctx_id;
      lineage_ids = req.filter.lineage_id;
      agent_ids = req.filter.agent_id;
      revocation_agents = revocation_agents req.filter.ctx_id;
      lineage_buckets = lineage_buckets;
      agent_buckets = agent_buckets;
      kinds = req.filter.kind;
      scan_limit = max (min req.limit u32_max) reg.min_scan_rows;
    })

  abbrev pub checks_expiry : Since → Bool
  checks_expiry (cursor c) = true
  checks_expiry (position p) = true
  checks_expiry _ = false

  -- The scan that starts at `pos`, below the head `start`.
  abbrev pub first_scan : FeedHead → ℕ → ℕ → Scan Change
  first_scan start pos body = record {
    pos = pos;
    head = start.head;
    head_fp = start.head_fp;
    body = body;
    changes = [];
    scanned = 0;
    capped = false;
  }

  abbrev pub response : Scan Change → ChangesResponse Change
  response st = record {
    changes = st.changes;
    next = record { pos = st.pos; anchor = anchor_at st.head st.head_fp };
    has_more = ltb st.pos st.head;
  }

  -- Past the early return for `since=head`.
  unfoldable pub evaluate_from :
      ChangesRequest → FeedHead → Result (ServeError E) (ChangesResponse Change × ℕ)
  evaluate_from req start = do
    pos ← start_pos fp (feeds 1) start req.since
    base ← base_query req pos
    body ← failing (reg.empty_len start)
    st ←
        refill refill_max_scans 2 base req.limit (checks_expiry req.since)
          (first_scan start pos body)
    failing (reg.validate (response st))
    ok (response st, st.scanned)

  abbrev pub nothing_after : FeedHead → ChangesResponse Change
  nothing_after start = record { changes = []; next = head_cursor start; has_more = false }

  unfoldable pub evaluate_changes :
      ChangesRequest → Result (ServeError E) (ChangesResponse Change × ℕ)
  evaluate_changes req =
      let start = changes_head fp (feeds 0) in
      elim req.since [
        | oldest ↦ evaluate_from req start
        | at_head ↦ ok (nothing_after start, 0)
        | cursor c ↦ evaluate_from req start
        | position p ↦ evaluate_from req start
      ]
