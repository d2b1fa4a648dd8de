-- ===== src/Changes/Append/Tests.antt =====
-- The appends of a publication at concrete data, and the witness of their theorem.
use acdp_registry_rs.Changes.MemoryFeed.{push, empty_feed}
use acdp_registry_rs.Changes.Feed.{key_revocation, superseded, FeedAppend}
use acdp_registry_rs.Changes.Append.Served.{push-feed_appends_for_publish, Gains, Entry, Published}
use acdp_registry_rs.Changes.Append.Told.{Uniform}
use acdp_registry_rs.Changes.Append.{
  bucket_hash, revoked_key_controller, derive, to_change, check_servable, feed_appends_for_publish,
  Predecessor, Body, Sdk,
}
use acdp_registry_rs.Prelude.{
  ◌≡◌, [], false, ok, ◌∷◌, some, codes, refl, none, take, true, String, List,
}

-- A change is its lineage and its agent; a receipt is its lineage.
abbrev sdk : Sdk String (Unit {0}) String String String String (String × String)
sdk = record {
  registry_internal = λ e. e;
  schema_violation = λ e. e;
  display = λ e. e;
  bucket = λ value n. take n (codes value);
  parse_agent = λ s. ok s;
  parse_lineage = λ s. ok s;
  parse_ctx = λ s. ok s;
  event_to_value = λ e. ok e;
  event_from_value = λ v. ok v;
  event_receipt_from_value = λ v. ok v;
  registry_receipt_from_value = λ v. ok v;
  lifecycle_change = λ seq lineage agent event receipt. ok (lineage, agent);
  superseded_change = λ seq ctx agent receipt. ok (receipt, agent);
  key_revocation_change = λ seq agent receipt. ok (receipt, agent);
  lineage_of = λ c. c.0;
  agent_of = λ c. c.1;
  get = λ name m. some "did:web:c";
  is_null = λ v. false;
  as_str = λ v. some v;
}

sdk-Uniform : Uniform sdk
sdk-Uniform = record {
  lifecycle_at = λ s t lineage agent event receipt c h. record {
    change = c;
    succeeds = h;
    same_lineage = refl;
    same_agent = refl;
  };
  superseded_at = λ s t ctx agent receipt c h. record {
    change = c;
    succeeds = h;
    same_lineage = refl;
    same_agent = refl;
  };
  key_revocation_at = λ s t agent receipt c h. record {
    change = c;
    succeeds = h;
    same_lineage = refl;
    same_agent = refl;
  };
}

abbrev body : Body (Unit {0})
body = record {
  ctx_id = "acdp://r.example/2";
  lineage_id = "lin-1";
  agent_id = "did:web:a";
  is_key_revocation = true;
  metadata = some tt;
}

abbrev prev : Predecessor
prev = record { ctx_id = "acdp://r.example/1"; agent_id = "did:web:b" }

abbrev appends : List (FeedAppend String)
appends =
    record {
      kind = superseded;
      ctx_id = "acdp://r.example/1";
      lineage_id = "lin-1";
      agent_id = "did:web:b";
      superseded_by = some "acdp://r.example/2";
      event = none;
      receipt = "lin-1";
      lineage_hash = codes "lin-1";
      agent_hash = codes "did:web:b";
    }
    ∷ record {
      kind = key_revocation;
      ctx_id = "acdp://r.example/2";
      lineage_id = "lin-1";
      agent_id = "did:web:c";
      superseded_by = none;
      event = none;
      receipt = "lin-1";
      lineage_hash = codes "lin-1";
      agent_hash = codes "did:web:c";
    }
    ∷ []

published : feed_appends_for_publish sdk body (some "lin-1") (some prev) ≡ ok appends
unfolding feed_appends_for_publish check_servable to_change derive revoked_key_controller
    bucket_hash
published = refl

push-feed_appends_for_publish_example :
    (entries : List (Entry String)) × Published sdk body (some "lin-1") (some prev) entries
    × Gains sdk empty_feed (push 7 appends empty_feed) entries
push-feed_appends_for_publish_example =
    push-feed_appends_for_publish sdk body (some "lin-1") (some prev) 7 empty_feed sdk-Uniform
      published
