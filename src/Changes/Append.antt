-- ===== src/Changes/Append.antt =====
-- The rows that an event or a publication appends, and what they are served as: `FeedAppend::derive`,
-- `FeedRow::to_change`, `lifecycle_append`, `feed_appends_for_publish` and `check_servable` of
-- crates/acdp-registry-store/src/changes.rs. The SDK's types and parsers, its change constructors and its bucket
-- digest are the record `Sdk`; JSON values, maps and the SDK's types are type parameters.
pub mod Told
pub mod Served
pub mod Rendered
pub mod Tests
use acdp_registry_rs.Changes.Since.{bytes_beq}
use acdp_registry_rs.Changes.MemoryFeed.{row_of}
use acdp_registry_rs.Time.{show_ℕ}
use acdp_registry_rs.Changes.Feed.{
  key_revocation, superseded, lifecycle, FeedAppend, FeedRow, ChangeKind,
}
use Prim.Native.String.{◌++◌ as ◌<>◌}
use acdp_registry_rs.Prelude.{
  string_eq, ◌||◌, ◌==◌, none, ◌++◌, ◌∷◌, not, err, if◌then◌else◌, [], some, refuse_if, ok_or, ok,
  Bool, List, Option, Result, String, ◌>>◌, ◌>>=◌, ℕ,
}

-- `V` are JSON values and `M` maps, `E` errors, `L` lifecycle events, `R` event receipts, `G` registry receipts
-- and `C` changes. A parser of an identifier answers its text.
pub record Sdk (V M E L R G C : Type 0) : Type 0 where
  pub registry_internal : String → E
  pub schema_violation : String → E
  pub display : E → String
  pub bucket : String → ℕ → List ℕ
  pub parse_agent : String → Result E String
  pub parse_lineage : String → Result E String
  pub parse_ctx : String → Result E String
  pub event_to_value : L → Result E V
  pub event_from_value : V → Result E L
  pub event_receipt_from_value : V → Result E R
  pub registry_receipt_from_value : V → Result E G
  pub lifecycle_change : ℕ → String → String → V → R → Result E C
  pub superseded_change : ℕ → String → String → G → Result E C
  pub key_revocation_change : ℕ → String → G → Result E C
  pub lineage_of : C → String
  pub agent_of : C → String
  pub get : String → M → Option V
  pub is_null : V → Bool
  pub as_str : V → Option String

pub record Predecessor : Type 0 where
  pub ctx_id : String
  pub agent_id : String

-- What is read of a body.
pub record Body (M : Type 0) : Type 0 where
  pub ctx_id : String
  pub lineage_id : String
  pub agent_id : String
  pub is_key_revocation : Bool
  pub metadata : Option M

abbrev pub bucket_hash_len : ℕ
bucket_hash_len = 64

-- `map_err`
abbrev pub map_err {ℓ} : {E : Type 0} {A : Type ℓ} → (E → E) → Result E A → Result E A
map_err f (ok a) = ok a
map_err f (err e) = err (f e)

module _ {V M E L R G C : Type 0} (sdk : Sdk V M E L R G C) where
  unfoldable pub bucket_hash : String → List ℕ
  bucket_hash value = sdk.bucket value bucket_hash_len

  unfoldable pub derive :
      ChangeKind → String → String → String → Option String → Option V → V → FeedAppend V
  derive kind ctx_id lineage_id agent_id superseded_by event receipt = record {
    kind = kind;
    ctx_id = ctx_id;
    lineage_id = lineage_id;
    agent_id = agent_id;
    superseded_by = superseded_by;
    event = event;
    receipt = receipt;
    lineage_hash = bucket_hash lineage_id;
    agent_hash = bucket_hash agent_id;
  }

  abbrev pub corrupt : ℕ → E → E
  corrupt seq e =
      sdk.registry_internal
        ("stored change " <> (show_ℕ seq <> (" is malformed: " <> sdk.display e)))

  -- The change of a row, by its kind, once the agent is parsed.
  abbrev pub change_of : ChangeKind → FeedRow V → String → Result E C
  change_of lifecycle row agent = do
    raw ←
        ok_or row.event (corrupt row.seq (sdk.registry_internal "lifecycle entry without an event"))
    parsed ← map_err (corrupt row.seq) (sdk.event_from_value raw)
    event ←
        map_err (λ e. corrupt row.seq (sdk.registry_internal (sdk.display e)))
          (sdk.event_to_value parsed)
    receipt ← map_err (corrupt row.seq) (sdk.event_receipt_from_value row.receipt)
    lineage ← map_err (corrupt row.seq) (sdk.parse_lineage row.lineage_id)
    map_err (corrupt row.seq) (sdk.lifecycle_change row.seq lineage agent event receipt)
  change_of superseded row agent = do
    ctx ← map_err (corrupt row.seq) (sdk.parse_ctx row.ctx_id)
    receipt ← map_err (corrupt row.seq) (sdk.registry_receipt_from_value row.receipt)
    map_err (corrupt row.seq) (sdk.superseded_change row.seq ctx agent receipt)
  change_of key_revocation row agent = do
    receipt ← map_err (corrupt row.seq) (sdk.registry_receipt_from_value row.receipt)
    map_err (corrupt row.seq) (sdk.key_revocation_change row.seq agent receipt)

  unfoldable pub to_change : FeedRow V → Result E C
  to_change row = map_err (corrupt row.seq) (sdk.parse_agent row.agent_id) >>= λ agent.
      change_of row.kind row agent

  -- A served member that differs from its column, or whose hash is another's; the text is only an error's.
  abbrev pub bucketed : String → String → List ℕ → Result E (Unit {0})
  bucketed served column hash =
      refuse_if (not (served == column) || not (bytes_beq hash (bucket_hash served)))
        (sdk.registry_internal "row would serve another id than it buckets")

  unfoldable pub check_servable : FeedAppend V → Result E (Unit {0})
  check_servable a = do
    change ← to_change (row_of a 1 0)
    bucketed (sdk.lineage_of change) a.lineage_id a.lineage_hash
    bucketed (sdk.agent_of change) a.agent_id a.agent_hash

  unfoldable pub lifecycle_append : L → Body M → Option V → Result E (Option (FeedAppend V))
  unfolding derive
  lifecycle_append event body none = ok none
  lifecycle_append event body (some receipt) = do
    value ←
        map_err (λ e. sdk.registry_internal ("encode lifecycle event: " <> sdk.display e))
          (sdk.event_to_value event)
    let a = derive lifecycle body.ctx_id body.lineage_id body.agent_id none (some value) receipt
    check_servable a
    ok (some a)

  -- The declared controller: none or null, a text, or another value, whose text the error leaves out.
  abbrev pub controller_of : Body M → Option V → Result E String
  controller_of body none = ok body.agent_id
  controller_of body (some v) =
      if sdk.is_null v
      then ok body.agent_id
      else ok_or (sdk.as_str v)
          (sdk.schema_violation "metadata.revoked_key_controller must be a DID string")
        >>= λ s. sdk.parse_agent s

  abbrev pub member : String → Option M → Option V
  member name none = none
  member name (some m) = sdk.get name m

  unfoldable pub revoked_key_controller : Body M → Result E String
  revoked_key_controller body = controller_of body (member "revoked_key_controller" body.metadata)

  abbrev pub superseded_appends : Body M → V → Option Predecessor → List (FeedAppend V)
  superseded_appends body receipt none = []
  superseded_appends body receipt (some prev) =
      derive superseded prev.ctx_id body.lineage_id prev.agent_id (some body.ctx_id) none receipt
      ∷ []

  abbrev pub revocation_appends : Body M → V → Result E (List (FeedAppend V))
  revocation_appends body receipt =
      if body.is_key_revocation
      then (revoked_key_controller body >>= λ controller.
          ok (derive key_revocation body.ctx_id body.lineage_id controller none none receipt ∷ []))
      else ok []

  abbrev pub check_all : List (FeedAppend V) → Result E (Unit {0})
  check_all [] = ok tt
  check_all (a ∷ rest) = check_servable a >> check_all rest

  unfoldable pub feed_appends_for_publish :
      Body M → Option V → Option Predecessor → Result E (List (FeedAppend V))
  unfolding derive revoked_key_controller check_servable
  feed_appends_for_publish body none predecessor = ok []
  feed_appends_for_publish body (some receipt) predecessor = do
    revoked ← revocation_appends body receipt
    let out = superseded_appends body receipt predecessor ++ revoked
    check_all out
    ok out
