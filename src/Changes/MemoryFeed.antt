-- ===== src/Changes/MemoryFeed.antt =====
-- `Feed` and the feed methods of `MemoryStore` in crates/acdp-registry-server/src/memory_ext.rs. A `u64`
-- position is taken not to overflow. The row's fingerprint (SHA-256) is an argument.
pub mod Order
pub mod Pruning
pub mod Paging
use acdp_registry_rs.Prelude.{
  [], ◌∷◌, drop, if◌then◌else◌, ltb, ◌+◌, take, take_while, leb, some, ◌++◌, last, length, filterb,
  drop_while, none, Option, List,
}
use Prim.Native.Nat.{max, ℕ}
use acdp_registry_rs.Changes.Feed.{
  limit, from_scan, matches, from_snapshot, FeedPage, FeedHead, feed_fingerprint, FeedQuery,
  FeedFingerprint, FeedAppend, FeedRow,
}

module _ {V : Type 0} where
  -- `FeedRow::fingerprint`
  unfoldable pub fingerprint : (List ℕ → List ℕ) → FeedRow V → FeedFingerprint
  fingerprint sha256 r = feed_fingerprint sha256 r.seq r.appended_at_ms r.kind r.ctx_id

pub record Feed (V : Type 0) : Type 0 where
  pub rows : List (FeedRow V)
  pub last_seq : ℕ
  pub pruned_through : ℕ
  pub pruned_through_fp : Option FeedFingerprint

abbrev pub empty_feed : {V : Type 0} → Feed V
empty_feed = record { rows = []; last_seq = 0; pruned_through = 0; pruned_through_fp = none }

module _ {V : Type 0} where
  abbrev pub row_of : FeedAppend V → ℕ → ℕ → FeedRow V
  row_of a seq now_ms = record {
    seq = seq;
    kind = a.kind;
    ctx_id = a.ctx_id;
    lineage_id = a.lineage_id;
    agent_id = a.agent_id;
    superseded_by = a.superseded_by;
    event = a.event;
    receipt = a.receipt;
    appended_at_ms = now_ms;
    lineage_hash = a.lineage_hash;
    agent_hash = a.agent_hash;
  }

  -- One turn of the loop of `push`, and the loop.
  unfoldable pub push_one : ℕ → FeedAppend V → Feed V → Feed V
  push_one now_ms a f = record f {
    rows = f.rows ++ (row_of a (f.last_seq + 1) now_ms ∷ []);
    last_seq = f.last_seq + 1;
  }

  unfoldable pub push : ℕ → List (FeedAppend V) → Feed V → Feed V
  push now_ms [] f = f
  push now_ms (a ∷ appends) f = push now_ms appends (push_one now_ms a f)

  abbrev pub mark :
      (FeedRow V → FeedFingerprint) → Option (FeedRow V) → Option (ℕ × FeedFingerprint)
  mark fp none = none
  mark fp (some r) = some (r.seq, fp r)

  unfoldable pub head : (FeedRow V → FeedFingerprint) → Feed V → FeedHead
  head fp f = from_snapshot (mark fp (last f.rows)) f.pruned_through f.pruned_through_fp

  -- `rows[partition_point(seq <= after)..]`, on rows in seq order
  abbrev pub rows_after : ℕ → List (FeedRow V) → List (FeedRow V)
  rows_after after rows = drop_while (λ r. leb r.seq after) rows

  -- The matching rows that a query has still to read.
  abbrev pub pending : FeedQuery → Feed V → List (FeedRow V)
  pending q f = filterb (matches q) (rows_after q.after f.rows)

  unfoldable pub changes_page : (FeedRow V → FeedFingerprint) → FeedQuery → Feed V → FeedPage V
  changes_page fp q f = from_scan q (take (limit q) (pending q f)) (head fp f)

  unfoldable pub changes_head : (FeedRow V → FeedFingerprint) → Feed V → FeedHead
  unfolding head
  changes_head fp f = head fp f

  -- How many rows `prune_changes` drains.
  abbrev pub drained : ℕ → ℕ → Feed V → ℕ
  drained older_than_ms batch f =
      length (take_while (λ r. ltb r.appended_at_ms older_than_ms) (take (max batch 1) f.rows))

  -- `rows[n - 1]`, the last row that is drained.
  abbrev pub pruned_to : (FeedRow V → FeedFingerprint) → Option (FeedRow V) → Feed V → Feed V
  pruned_to fp none f = f
  pruned_to fp (some r) f =
      if leb f.pruned_through r.seq
      then record f { pruned_through = r.seq; pruned_through_fp = some (fp r) }
      else f

  unfoldable pub prune_changes : (FeedRow V → FeedFingerprint) → ℕ → ℕ → Feed V → ℕ × Feed V
  prune_changes fp older_than_ms batch f =
      let n = drained older_than_ms batch f in
      let marked = pruned_to fp (last (take n f.rows)) f in
      (n, record marked { rows = drop n f.rows })
