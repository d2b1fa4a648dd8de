-- ===== src/Changes/Serve/Tests.antt =====
-- The theorems on `GET /changes`, at the feed of Changes.Tests and pages of one change.
use acdp_registry_rs.Changes.Serve.Complete.{seen_after}
use acdp_registry_rs.Changes.Since.Growth.{start_pos-push}
use acdp_registry_rs.Changes.Serve.Follow.{follow_complete, follow}
use acdp_registry_rs.Changes.MemoryFeed.{head, changes_page, push, changes_head}
use acdp_registry_rs.Changes.Serve.Resume.{evaluate_changes-Resumes, Resumes}
use acdp_registry_rs.Changes.Serve.Answer.{evaluate_changes-Complete, Complete}
use acdp_registry_rs.Changes.Since.{anchor_at, cursor, oldest, start_pos}
use acdp_registry_rs.Changes.Feed.{matches, from_scan, from_snapshot, lifecycle, has, FeedQuery}
use acdp_registry_rs.Changes.Serve.Total.{Total}
use acdp_registry_rs.Changes.Serve.Rounds.{Renders, Sees}
use acdp_registry_rs.Changes.Serve.{refill, evaluate_from, evaluate_changes, base_query}
use acdp_registry_rs.Changes.Page.{
  visibility_subject, serve_rows, ChangesResponse, ChangesRequest, Registry,
}
use acdp_registry_rs.Changes.Tests.{append, fp, feed, feed-WellFormed}
use acdp_registry_rs.Prelude.{
  List, ◌≡◌, ◌∷◌, [], ok, refl, ℕ, String, Bool, ◌&&◌, ◌==◌, string_eq, true, arith,
}

abbrev pub is_visible : String → Bool
is_visible id = id == "acdp://r/c"

-- The entry of a row is its position, of two bytes.
abbrev pub registry : Registry ℕ String ℕ
registry = record {
  visible_ctx_ids = λ ids id. has ids id && is_visible id;
  producers_of = λ ids. [];
  sorted_dedup = λ ids. ids;
  parse_bucket = λ b. ok b;
  to_change = λ r. ok r.seq;
  json_len = λ c. ok 2;
  empty_len = λ h. ok 50;
  validate = λ resp. ok tt;
  min_scan_rows = 1;
  max_page_bytes = 1000;
}

pub registry-Sees : Sees registry is_visible
registry-Sees ids id = refl

pub registry-Total : Total registry fp feed
registry-Total = record {
  rendered = (((2, 2), refl), (((3, 2), refl), (((4, 2), refl), tt)));
  measured = (50, refl);
  valid = λ req q start body st from made. refl;
}

abbrev request : ChangesRequest
request = record {
  since = oldest;
  limit = 1;
  filter = record {
    ctx_id = [];
    lineage_id = [];
    agent_id = [];
    kind = lifecycle ∷ [];
    lineage_bucket = [];
    agent_bucket = [];
  };
}

abbrev pub query : FeedQuery
query = record {
  after = 1;
  ctx_ids = [];
  lineage_ids = [];
  agent_ids = [];
  revocation_agents = [];
  lineage_buckets = [];
  agent_buckets = [];
  kinds = lifecycle ∷ [];
  scan_limit = 1;
}

abbrev first_answer : ChangesResponse ℕ
first_answer = record {
  changes = 2 ∷ [];
  next = record { pos = 2; anchor = record { seq = 4; fp = 4 ∷ [] } };
  has_more = true;
}

starts : start_pos fp {E = String} feed (changes_head fp feed) oldest ≡ ok 1
unfolding start_pos changes_head head from_snapshot
starts = refl

asks : base_query registry fp (λ _. feed) request 1 ≡ ok query
unfolding base_query
asks = refl

answers : evaluate_changes registry fp (λ _. feed) request ≡ ok (first_answer, 1)
unfolding evaluate_changes evaluate_from refill serve_rows base_query start_pos changes_head head
    from_snapshot changes_page from_scan matches visibility_subject anchor_at
answers = refl

evaluate_changes-Complete_example : Complete registry is_visible fp feed query 1 first_answer
evaluate_changes-Complete_example =
    evaluate_changes-Complete registry is_visible fp feed registry-Sees feed-WellFormed request 1
      query first_answer 1 starts asks answers

evaluate_changes-Resumes_example : Resumes registry fp feed 1 first_answer
evaluate_changes-Resumes_example =
    evaluate_changes-Resumes registry fp feed feed-WellFormed request 1 first_answer 1 (omega arith)
      starts answers

start_pos-push_example :
    start_pos fp {E = String}
      (push 50 (append ∷ append ∷ []) feed)
      (changes_head fp (push 50 (append ∷ append ∷ []) feed))
      (cursor (record { pos = 2; anchor = anchor_at (head fp feed).head (head fp feed).head_fp }))
    ≡ ok 2
unfolding head from_snapshot
start_pos-push_example =
    start_pos-push fp feed feed-WellFormed 50 (append ∷ append ∷ []) 2 {E = String} (omega arith)
      (omega arith)

follow_complete_example :
    (changes : List ℕ) × (follow registry fp feed 4 request ≡ ok changes)
    × Renders registry is_visible (seen_after registry is_visible fp feed query 1) changes
unfolding head from_snapshot
follow_complete_example =
    follow_complete registry is_visible fp feed registry-Sees registry-Total feed-WellFormed 4
      request 1 query (omega arith) starts asks (omega arith)
