-- ===== src/Changes/Feed.antt =====
-- The rows, queries, heads and pages of the feed: crates/acdp-registry-store/src/changes.rs. JSON values are
-- a type parameter, and SHA-256 an argument. `appended_at_ms` and the clock are counted from the Unix epoch.
use acdp_registry_rs.Prelude.{
  last, length, [], ◌∷◌, String, List, zero, ◌%◌, ◌*◌, ◌^◌, none, nat_eq, string_eq, ◌/◌, ◌++◌, ltb,
  ◌||◌, ◌&&◌, ◌==◌, false, take, some, if◌then◌else◌, not, any, codes, true, Option, replicate,
  List, Bool,
}
use Prim.Native.Nat.{suc, max, ℕ}
use acdp_registry_rs.Changes.ChangeBucket.{contains}

pub data ChangeKind : Type 0 where
  lifecycle superseded key_revocation : ChangeKind

abbrev pub kind_beq : ChangeKind → ChangeKind → Bool
kind_beq lifecycle lifecycle = true
kind_beq superseded superseded = true
kind_beq key_revocation key_revocation = true
kind_beq _ _ = false

abbrev pub as_str : ChangeKind → List ℕ
as_str lifecycle = codes "lifecycle"
as_str superseded = codes "superseded"
as_str key_revocation = codes "key_revocation"

abbrev pub FeedFingerprint : Type 0
FeedFingerprint = List ℕ

abbrev pub feed_origin_fp : FeedFingerprint
feed_origin_fp = replicate 8 0

module _ (V : Type 0) where
  pub record FeedAppend : Type 0 where
    pub kind : ChangeKind
    pub ctx_id : String
    pub lineage_id : String
    pub agent_id : String
    pub superseded_by : Option String
    pub event : Option V
    pub receipt : V
    pub lineage_hash : List ℕ
    pub agent_hash : List ℕ

  pub record FeedRow : Type 0 where
    pub seq : ℕ
    pub kind : ChangeKind
    pub ctx_id : String
    pub lineage_id : String
    pub agent_id : String
    pub superseded_by : Option String
    pub event : Option V
    pub receipt : V
    pub appended_at_ms : ℕ
    pub lineage_hash : List ℕ
    pub agent_hash : List ℕ

pub record FeedQuery : Type 0 where
  pub after : ℕ
  pub ctx_ids : List String
  pub lineage_ids : List String
  pub agent_ids : List String
  pub revocation_agents : List String
  pub lineage_buckets : List (List ℕ)
  pub agent_buckets : List (List ℕ)
  pub kinds : List ChangeKind
  pub scan_limit : ℕ

abbrev pub limit : FeedQuery → ℕ
limit q = max q.scan_limit 1

abbrev is_empty {ℓ} : {A : Type ℓ} → List A → Bool
is_empty [] = true
is_empty (x ∷ xs) = false

abbrev pub has : List String → String → Bool
has list v = any (λ x. x == v) list

unfoldable pub has_id_clause : FeedQuery → Bool
has_id_clause q = not (
    is_empty q.ctx_ids
    && is_empty q.lineage_ids
    && is_empty q.agent_ids
    && is_empty q.revocation_agents
    && is_empty q.lineage_buckets
    && is_empty q.agent_buckets)

module _ {V : Type 0} where
  unfoldable pub matches : FeedQuery → FeedRow V → Bool
  unfolding has_id_clause
  matches q row =
      (not (has_id_clause q)
        || has q.ctx_ids row.ctx_id
        || has q.lineage_ids row.lineage_id
        || has q.agent_ids row.agent_id
        || (kind_beq row.kind key_revocation && has q.revocation_agents row.agent_id)
        || any (λ b. contains b row.lineage_hash) q.lineage_buckets
        || any (λ b. contains b row.agent_hash) q.agent_buckets)
      && (is_empty q.kinds || any (λ k. kind_beq k row.kind) q.kinds)

pub record FeedHead : Type 0 where
  pub head : ℕ
  pub head_fp : Option FeedFingerprint
  pub pruned_through : ℕ
  pub pruned_through_fp : Option FeedFingerprint

abbrev without_top : ℕ → Option FeedFingerprint → ℕ × Option FeedFingerprint
without_top pruned_through pruned_through_fp =
    if pruned_through == 0 then (0, some feed_origin_fp) else (pruned_through, pruned_through_fp)

abbrev head_of :
    Option (ℕ × FeedFingerprint) → ℕ → Option FeedFingerprint → ℕ × Option FeedFingerprint
head_of none p pfp = without_top p pfp
head_of (some (seq, fp)) p pfp = if ltb p seq then (seq, some fp) else without_top p pfp

unfoldable pub from_snapshot : Option (ℕ × FeedFingerprint) → ℕ → Option FeedFingerprint → FeedHead
from_snapshot top pruned_through pruned_through_fp =
    let (head, head_fp) = head_of top pruned_through pruned_through_fp in
    record {
      head = head;
      head_fp = head_fp;
      pruned_through = pruned_through;
      pruned_through_fp = pruned_through_fp;
    }

-- `to_be_bytes` of a `u64` or a non-negative `i64`, by the number of bytes
abbrev pub be_bytes : ℕ → ℕ → List ℕ
be_bytes zero n = []
be_bytes (suc w) n = (n / 2 ^ (8 * w)) % 256 ∷ be_bytes w n

-- The bytes that are hashed. A text is given by its bytes: identifiers are ASCII.
unfoldable pub fingerprint_preimage : ℕ → ℕ → ChangeKind → String → List ℕ
fingerprint_preimage seq appended_at_ms kind ctx_id =
    codes "acdp-registry/changes-fp/v1"
    ++ (0 ∷ (be_bytes 8 seq ++ (be_bytes 8 appended_at_ms ++ (as_str kind ++ (0 ∷ codes ctx_id)))))

module _ (sha256 : List ℕ → List ℕ) where
  unfoldable pub feed_fingerprint : ℕ → ℕ → ChangeKind → String → FeedFingerprint
  feed_fingerprint seq appended_at_ms kind ctx_id =
      take 8 (sha256 (fingerprint_preimage seq appended_at_ms kind ctx_id))

pub record FeedPage (V : Type 0) : Type 0 where
  pub rows : List (FeedRow V)
  pub last_scanned : ℕ
  pub reached_head : Bool
  pub head : ℕ
  pub head_fp : Option FeedFingerprint
  pub pruned_through : ℕ
  pub pruned_through_fp : Option FeedFingerprint

-- `FeedPage::from_scan`: the last row's seq where the cap was hit, else the head.
abbrev scanned : {V : Type 0} → Bool → Option (FeedRow V) → ℕ → ℕ
scanned false (some row) through = row.seq
scanned _ _ through = through

module _ {V : Type 0} where
  unfoldable pub from_scan : FeedQuery → List (FeedRow V) → FeedHead → FeedPage V
  from_scan q rows h =
      let reached_head = ltb (length rows) (limit q) in
      record {
        rows = rows;
        last_scanned = scanned reached_head (last rows) (max h.head q.after);
        reached_head = reached_head;
        head = h.head;
        head_fp = h.head_fp;
        pruned_through = h.pruned_through;
        pruned_through_fp = h.pruned_through_fp;
      }
