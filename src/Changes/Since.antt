-- ===== src/Changes/Since.antt =====
-- Where a page of `GET /changes` starts, and what anchors a cursor: `Since`, `anchor_at` and `anchor_holds`
-- of crates/acdp-registry-core/src/handlers/changes.rs, with the cursor of changes_key.rs beside it.
pub mod Accepted
pub mod Growth
use acdp_registry_rs.Prelude.{
  string_eq, not, refuse_if, ◌>>◌, ◌-◌, nat_eq, ◌==◌, ◌||◌, if◌then◌else◌, true, ◌∷◌, ltb, none, [],
  false, some, ok, Bool, Result, Option, List, ℕ,
}
use acdp_registry_rs.Changes.Feed.{
  feed_origin_fp, FeedPage, FeedQuery, FeedFingerprint, FeedRow, FeedHead,
}
use acdp_registry_rs.Changes.MemoryFeed.{changes_page, Feed}

pub record CursorAnchor : Type 0 where
  pub seq : ℕ
  pub fp : FeedFingerprint

pub record DecodedCursor : Type 0 where
  pub pos : ℕ
  pub anchor : CursorAnchor

pub data Since : Type 0 where
  oldest : Since
  at_head : Since
  cursor : DecodedCursor → Since
  position : ℕ → Since

pub data ServeError (E : Type 0) : Type 0 where
  cursor_expired : ServeError E
  failed : E → ServeError E

unfoldable pub anchor_at : ℕ → Option FeedFingerprint → CursorAnchor
anchor_at seq (some fp) = record { seq = seq; fp = fp }
anchor_at seq none = record { seq = 0; fp = feed_origin_fp }

-- `head_cursor`
abbrev pub head_cursor : FeedHead → DecodedCursor
head_cursor h = record { pos = h.head; anchor = anchor_at h.head h.head_fp }

abbrev pub bytes_beq : List ℕ → List ℕ → Bool
bytes_beq [] [] = true
bytes_beq (x ∷ xs) (y ∷ ys) = let rest = bytes_beq xs ys in if x == y then rest else false
bytes_beq _ _ = false

abbrev pub same_fp : Option FeedFingerprint → FeedFingerprint → Bool
same_fp none fp = false
same_fp (some x) fp = bytes_beq x fp

-- `FeedQuery { after, scan_limit: 1, ..default }`
abbrev pub one_row_after : ℕ → FeedQuery
one_row_after after = record {
  after = after;
  ctx_ids = [];
  lineage_ids = [];
  agent_ids = [];
  revocation_agents = [];
  lineage_buckets = [];
  agent_buckets = [];
  kinds = [];
  scan_limit = 1;
}

module _ {V : Type 0} (fp : FeedRow V → FeedFingerprint) where
  abbrev pub row_fp : ℕ → List (FeedRow V) → Option FeedFingerprint
  row_fp seq [] = none
  row_fp seq (r ∷ rows) = if r.seq == seq then some (fp r) else none

  abbrev pub paged_fp : ℕ → FeedPage V → Option FeedFingerprint
  paged_fp seq page =
      if seq == page.pruned_through
      then page.pruned_through_fp
      else if ltb seq page.pruned_through
      then none
      else row_fp seq page.rows

  unfoldable pub stored_fp : Feed V → FeedHead → ℕ → Option FeedFingerprint
  stored_fp f start seq =
      if seq == 0
      then some feed_origin_fp
      else if seq == start.head
      then start.head_fp
      else paged_fp seq (changes_page fp (one_row_after (seq - 1)) f)

  unfoldable pub anchor_holds : Feed V → FeedHead → CursorAnchor → Bool
  unfolding stored_fp
  anchor_holds f start anchor =
      if ltb start.head anchor.seq then false else same_fp (stored_fp f start anchor.seq) anchor.fp

  abbrev pub out_of_range : FeedHead → ℕ → Bool
  out_of_range start p = ltb start.head p || ltb p start.pruned_through

  unfoldable pub start_pos : {E : Type 0} → Feed V → FeedHead → Since → Result (ServeError E) ℕ
  start_pos f start oldest = ok start.pruned_through
  start_pos f start at_head = ok start.head
  start_pos f start (position p) = do refuse_if (out_of_range start p) cursor_expired; ok p
  start_pos f start (cursor c) = do
    refuse_if (out_of_range start c.pos) cursor_expired
    refuse_if (not (anchor_holds f start c.anchor)) cursor_expired
    ok c.pos
