-- ===== src/Changes/Tests.antt =====
-- The theorems on the feed, at a feed of three rows that was pruned through the first position.
use acdp_registry_rs.Changes.MemoryFeed.Pruning.{head-prune_changes}
use acdp_registry_rs.Changes.MemoryFeed.Paging.{rows-changes_page, read_all-eq-pending, read_all}
use acdp_registry_rs.Changes.MemoryFeed.Order.{WellFormed}
use acdp_registry_rs.Changes.MemoryFeed.{changes_page, prune_changes, head, pending, Feed}
use acdp_registry_rs.Changes.Feed.{
  superseded, has_id_clause, FeedFingerprint, lifecycle, ChangeKind, matches, FeedQuery, FeedRow,
  FeedAppend,
}
use acdp_registry_rs.Prelude.{arith, ◌++◌, some, ◌*◌, refl, none, ◌≡◌, ◌∷◌, [], ℕ}

abbrev pub row : ℕ → ChangeKind → FeedRow ℕ
row seq kind = record {
  seq = seq;
  kind = kind;
  ctx_id = "acdp://r/c";
  lineage_id = "l";
  agent_id = "did:web:a";
  superseded_by = none;
  event = none;
  receipt = 0;
  appended_at_ms = 10 * seq;
  lineage_hash = [];
  agent_hash = [];
}

abbrev pub append : FeedAppend ℕ
append = record {
  kind = lifecycle;
  ctx_id = "acdp://r/c";
  lineage_id = "l";
  agent_id = "did:web:a";
  superseded_by = none;
  event = none;
  receipt = 0;
  lineage_hash = [];
  agent_hash = [];
}

abbrev pub fp : FeedRow ℕ → FeedFingerprint
fp r = r.seq ∷ []

abbrev pub feed : Feed ℕ
feed = record {
  rows = row 2 lifecycle ∷ row 3 superseded ∷ row 4 lifecycle ∷ [];
  last_seq = 4;
  pruned_through = 1;
  pruned_through_fp = some (1 ∷ []);
}

abbrev query : FeedQuery
query = record {
  after = 1;
  ctx_ids = [];
  lineage_ids = [];
  agent_ids = [];
  revocation_agents = [];
  lineage_buckets = [];
  agent_buckets = [];
  kinds = lifecycle ∷ [];
  scan_limit = 1;
}

pub feed-WellFormed : WellFormed fp feed
feed-WellFormed = record {
  contiguous = (refl, (refl, (refl, refl)));
  fp_recorded = λ h. (1 ∷ [], refl);
}

rows-changes_page_example :
    pending query feed
    ≡ (changes_page fp query feed).rows
      ++ pending (record query { after = (changes_page fp query feed).last_scanned }) feed
rows-changes_page_example = rows-changes_page fp query feed feed-WellFormed

read_all-eq-pending_example : read_all fp 3 query feed ≡ row 2 lifecycle ∷ row 4 lifecycle ∷ []
unfolding matches has_id_clause
read_all-eq-pending_example = read_all-eq-pending fp 3 query feed feed-WellFormed (omega arith)

head-prune_changes_example :
    ((head fp (prune_changes fp 25 10 feed).1).head ≡ (head fp feed).head)
    × ((head fp (prune_changes fp 25 10 feed).1).head_fp ≡ (head fp feed).head_fp)
head-prune_changes_example = head-prune_changes fp 25 10 feed feed-WellFormed
