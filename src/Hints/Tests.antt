-- ===== src/Hints/Tests.antt =====
-- The theorems on hints, for one subscription of the feed of Changes.Tests.
use acdp_registry_rs.Changes.Since.{anchor_at, start_pos}
use acdp_registry_rs.Changes.MemoryFeed.{head, changes_page, changes_head}
use acdp_registry_rs.Changes.Feed.{matches, from_scan, lifecycle, from_snapshot}
use acdp_registry_rs.Hints.Turns.{hint_one-Explains, request_of}
use acdp_registry_rs.Hints.Outcomes.{Explains}
use acdp_registry_rs.Hints.Backoff.{retry_or_disable-Postponed, Postponed}
use acdp_registry_rs.Changes.Serve.{refill, evaluate_from, evaluate_changes, base_query}
use acdp_registry_rs.Changes.Page.{visibility_subject, serve_rows, WatchFilter}
use acdp_registry_rs.Subscriptions.{
  SubscriptionProgress, healthy, active, finish_subscription_attempt, advanced, SubscriptionRecord,
}
use acdp_registry_rs.Hints.{
  evaluate_hint, deliver, after_delivery, send_hint, hint_turn, lease_lost, hint_delivered, opened,
  retry_or_disable, finish, hint_one, Readings, Worker,
}
use acdp_registry_rs.Prelude.{
  string_eq, insert, lookup, false, ◌≡◌, ◌∷◌, [], ok, some, none, true, refl, arith, String,
  HashMap, ◌⊎◌,
}
use acdp_registry_rs.Changes.Tests.{fp, feed, feed-WellFormed}
use acdp_registry_rs.Changes.Serve.Tests.{
  registry, is_visible, query, registry-Sees, registry-Total,
}

abbrev worker : Worker String
worker = record {
  parse_did = λ did. true;
  require_tenant = false;
  open_secret = λ id key sealed. opened sealed;
  hint_body = λ id c. ok (c.pos ∷ []);
  sign_hint = λ secret t body. "t=1";
  check_url = λ url. true;
  host_port = λ url. some (url, 443);
  resolve_allowed = λ host port. true;
  hint_client = true;
  send = λ url body signature. some 204;
}

abbrev subscription : SubscriptionRecord WatchFilter
subscription = record {
  subscription_id = "s";
  owner_did = "did:web:a";
  tenant_id = none;
  filter = record {
    ctx_id = [];
    lineage_id = [];
    agent_id = [];
    kind = lifecycle ∷ [];
    lineage_bucket = [];
    agent_bucket = [];
  };
  callback_url = "https://a.example";
  secret_ct = [];
  secret_key_id = 0;
  status = active;
  created_at_ms = 5;
  last_hinted_seq = 2;
  next_attempt_at_ms = 5;
  failing_since_ms = none;
  attempts = 0;
  lease_until_ms = some 90000;
}

abbrev clock : Readings
clock = record { started_ms = 100; signed_ms = 110; delivered_ms = 120 }

abbrev store : HashMap String (SubscriptionRecord WatchFilter)
store = ("s", subscription) ∷ []

abbrev store_after : HashMap String (SubscriptionRecord WatchFilter)
store_after = ("s", advanced (healthy 4 1120) subscription) ∷ []

later_query :
    base_query registry fp
      (λ _. feed)
      (request_of worker registry is_visible fp feed subscription)
      2
    ≡ ok (record query { after = 2 })
unfolding base_query
later_query = refl

turns :
    hint_one worker registry fp
      (λ _. feed)
      (λ _. feed)
      (changes_head fp feed)
      clock
      subscription
      store
    ≡ ok (hint_delivered, store_after)
unfolding hint_one finish finish_subscription_attempt lookup insert hint_turn send_hint
    after_delivery deliver evaluate_hint healthy evaluate_changes evaluate_from refill serve_rows
    base_query start_pos changes_head head from_snapshot changes_page from_scan matches
    visibility_subject anchor_at
turns = refl

hint_one-Explains_example :
    ((hint_delivered ≡ lease_lost) × (store_after ≡ store))
    ⊎ ((s : SubscriptionRecord WatchFilter) × (p : SubscriptionProgress) × (lookup "s" store
          ≡ some s)
        × (store_after ≡ insert "s" (advanced p s) store)
        × Explains worker registry is_visible fp feed
            (record query { after = 2 })
            (changes_head fp feed)
            clock
            subscription
            hint_delivered
            p)
unfolding head from_snapshot
hint_one-Explains_example =
    hint_one-Explains worker registry is_visible fp feed registry-Sees registry-Total
      feed-WellFormed subscription clock (record query { after = 2 }) store hint_delivered
      store_after (omega arith, omega arith) later_query turns

retry_or_disable-Postponed_example : Postponed subscription 100 (retry_or_disable subscription 100)
retry_or_disable-Postponed_example = retry_or_disable-Postponed subscription 100
