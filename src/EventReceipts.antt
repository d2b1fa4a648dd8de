-- ===== src/EventReceipts.antt =====
-- crates/acdp-registry-store/src/event_receipts.rs: when an event receipt is minted, at what time, and when
-- a context shows its receipts. Events, receipts and JSON values of the ACDP SDK are type parameters and
-- the operations on them the record `Sdk`. The `tracing` calls and metrics are left out.
use acdp_registry_rs.Prelude.{
  not, suc, err, [], ◌||◌, ◌>>=◌, ok, length, true, ◌∷◌, max, ◌+◌, ◌&&◌, some, false, none, Result,
  if◌then◌else◌, ℕ, List, Bool, Option, String, nat_eq, string_eq, ◌==◌,
}
use acdp_registry_rs.Prelude
use acdp_registry_rs.Time.{DateTime}
pub mod Filling
pub mod Plans
pub mod Tests

-- What the module takes from the SDK and from serde_json.
pub record Sdk (Event Receipt V E : Type 0) : Type 0 where
  pub event_id : Event → String
  pub event_ctx_id : Event → String
  pub receipt_event_id : Receipt → String
  pub receipt_index : Receipt → ℕ
  pub receipt_ctx_id : Receipt → String
  pub accepted_at : Receipt → DateTime
  pub from_value : V → Result E Receipt
  pub event_value : Event → Result E V
  pub trunc_ms : DateTime → DateTime
  pub mint : String → V → ℕ → DateTime → Result E Receipt

pub data StoredReceipt (Receipt : Type 0) : Type 0 where
  null : StoredReceipt Receipt
  valid : Receipt → StoredReceipt Receipt
  corrupt : StoredReceipt Receipt

module _ {Receipt : Type 0} where
  abbrev pub into_option : StoredReceipt Receipt → Option Receipt
  into_option null = none
  into_option (valid r) = some r
  into_option corrupt = none

  -- The loop of `has_hole`, by whether a null was seen.
  abbrev pub hole_after : Bool → List (StoredReceipt Receipt) → Bool
  hole_after seen_null [] = false
  hole_after seen_null (corrupt ∷ prior) = true
  hole_after seen_null (null ∷ prior) = hole_after true prior
  hole_after true (valid r ∷ prior) = true
  hole_after false (valid r ∷ prior) = hole_after false prior

  unfoldable pub has_hole : List (StoredReceipt Receipt) → Bool
  has_hole prior = hole_after false prior

module _ {Event Receipt : Type 0} where
  abbrev pub slots : List (Event × StoredReceipt Receipt) → List (StoredReceipt Receipt)
  slots [] = []
  slots ((event, slot) ∷ prior) = slot ∷ slots prior

  unfoldable pub slots_have_hole : List (Event × StoredReceipt Receipt) → Bool
  slots_have_hole prior = has_hole (slots prior)

pub record ReceiptPlan (Receipt : Type 0) : Type 0 where
  pub fills : List (ℕ × Receipt)
  pub new : Receipt
  pub hole : Bool

pub data BackfillPlan (Receipt : Type 0) : Type 0 where
  complete : BackfillPlan Receipt
  fill : List (ℕ × Receipt) → BackfillPlan Receipt
  hole : BackfillPlan Receipt

abbrev pub millisecond : ℕ
millisecond = 1000000

-- `Option::map_or(t, |p| t.max(p))`
abbrev pub raise : DateTime → Option DateTime → DateTime
raise t none = t
raise t (some p) = max t p

module _ {Event Receipt V E : Type 0} (sdk : Sdk Event Receipt V E) where
  abbrev bound_to : Event → ℕ → Receipt → Bool
  bound_to event index r =
      sdk.receipt_event_id r == sdk.event_id event
      && sdk.receipt_index r == index
      && sdk.receipt_ctx_id r == sdk.event_ctx_id event

  abbrev decoded : Event → ℕ → Result E Receipt → StoredReceipt Receipt
  decoded event index (ok r) = if bound_to event index r then valid r else corrupt
  decoded event index (err e) = corrupt

  -- `StoredReceipt::decode`
  unfoldable pub decode : Option V → Event → ℕ → StoredReceipt Receipt
  decode none event index = null
  decode (some value) event index = decoded event index (sdk.from_value value)

  unfoldable pub ceil_ms : DateTime → DateTime
  ceil_ms dt = let t = sdk.trunc_ms dt in if t == dt then t else t + millisecond

  unfoldable pub clamp_accepted_at : DateTime → DateTime → Option DateTime → DateTime
  clamp_accepted_at now created_at prev = raise (max (sdk.trunc_ms now) (ceil_ms created_at)) prev

  -- The fold of `latest_accepted_at`, from the latest so far.
  abbrev pub latest_from : Option DateTime → List (Event × StoredReceipt Receipt) → Option DateTime
  latest_from at [] = at
  latest_from at ((event, valid r) ∷ prior) =
      latest_from (some (raise (sdk.accepted_at r) at)) prior
  latest_from at ((event, null) ∷ prior) = latest_from at prior
  latest_from at ((event, corrupt) ∷ prior) = latest_from at prior

  unfoldable pub latest_accepted_at : List (Event × StoredReceipt Receipt) → Option DateTime
  latest_accepted_at prior = latest_from none prior

  module _ (ctx_id : String) (created_at : DateTime) (now : DateTime) where
    -- The receipt minted for `event` at `index`, after a receipt accepted at `prev`.
    unfoldable pub mint_after : Option DateTime → ℕ → Event → Result E Receipt
    mint_after prev index event = sdk.event_value event >>= λ value.
        sdk.mint ctx_id value index (clamp_accepted_at now created_at prev)

    -- `fill_nulls` from position `i` on, with `prev` as it leaves it.
    unfoldable pub fill_nulls :
        ℕ
        → Option DateTime
        → List (Event × StoredReceipt Receipt)
        → Result E (List (ℕ × Receipt) × Option DateTime)
    fill_nulls i prev [] = ok ([], prev)
    fill_nulls i prev ((event, null) ∷ prior) = mint_after prev i event >>= λ r.
        fill_nulls (suc i) (some (sdk.accepted_at r)) prior >>= λ rest. ok ((i, r) ∷ rest.0, rest.1)
    fill_nulls i prev ((event, valid r) ∷ prior) = fill_nulls (suc i) prev prior
    fill_nulls i prev ((event, corrupt) ∷ prior) = fill_nulls (suc i) prev prior

    -- The fills, and the time of the receipt before the new one.
    unfoldable pub plan_fills :
        Bool
        → List (Event × StoredReceipt Receipt)
        → Result E (List (ℕ × Receipt) × Option DateTime)
    plan_fills true prior = ok ([], latest_accepted_at prior)
    plan_fills false prior = fill_nulls 0 (latest_accepted_at prior) prior

    unfoldable pub plan_event_receipts :
        List (Event × StoredReceipt Receipt) → Event → Result E (ReceiptPlan Receipt)
    plan_event_receipts prior new_event =
        let holed = slots_have_hole prior in
        plan_fills holed prior >>= λ filled. mint_after filled.1 (length prior) new_event >>= λ new.
        ok (record { fills = filled.0; new = new; hole = holed })

    abbrev pub backfill : List (ℕ × Receipt) → BackfillPlan Receipt
    backfill [] = complete
    backfill (x ∷ fills) = fill (x ∷ fills)

    unfoldable pub plan_backfill :
        List (Event × StoredReceipt Receipt) → Result E (BackfillPlan Receipt)
    plan_backfill prior = elim (slots_have_hole prior) [
      | true ↦ ok hole
      | false ↦ fill_nulls 0 (latest_accepted_at prior) prior >>= λ filled. ok (backfill filled.0)
    ]

-- The members of `RegistryState` that `attach_event_receipts` reads and writes.
pub record RegistryState (Event Receipt : Type 0) : Type 0 where
  pub lifecycle_events : Option (List Event)
  pub event_receipts : Option (List Receipt)

abbrev events : {Event : Type 0} → Option (List Event) → ℕ
events none = 0
events (some es) = length es

module _ {Receipt : Type 0} where
  -- `Iterator::flatten`, on options that are all present
  abbrev pub all_some : List (Option Receipt) → Bool
  all_some [] = true
  all_some (none ∷ rs) = false
  all_some (some r ∷ rs) = all_some rs

  abbrev pub flatten : List (Option Receipt) → List Receipt
  flatten [] = []
  flatten (none ∷ rs) = flatten rs
  flatten (some r ∷ rs) = r ∷ flatten rs

module _ {Event Receipt : Type 0} where
  unfoldable pub attach_event_receipts :
      RegistryState Event Receipt → List (Option Receipt) → Bool → RegistryState Event Receipt
  attach_event_receipts state receipts false = state
  attach_event_receipts state receipts true =
      let n = events state.lifecycle_events in
      let whole = length receipts == n && all_some receipts in
      record state {
        event_receipts = if n == 0 || not whole then none else some (flatten receipts);
      }
