-- ===== src/EventReceipts/Tests.antt =====
-- The theorems on event receipts, with an SDK whose receipt is its time of acceptance.
use acdp_registry_rs.EventReceipts.Plans.{plan_event_receipts-settled}
use acdp_registry_rs.EventReceipts.Filling.{Ascending, settled, Truncates, Mints}
use acdp_registry_rs.EventReceipts.{
  slots, ceil_ms, clamp_accepted_at, latest_accepted_at, mint_after, null, fill_nulls, plan_fills,
  valid, plan_event_receipts, StoredReceipt, has_hole, slots_have_hole, ReceiptPlan, Sdk,
}
use acdp_registry_rs.Prelude.{
  ◌≤◌, All, refl, ◌++◌, ◌≡◌, none, false, some, [], ok_injective, ok, ◌*◌, ◌∷◌, sym, String, ◌/◌,
  List, ℕ,
}

abbrev trunc : ℕ → ℕ
trunc t = (t / 1000000) * 1000000

abbrev sdk : Sdk String ℕ ℕ String
sdk = record {
  event_id = λ e. e;
  event_ctx_id = λ e. "c";
  receipt_event_id = λ r. "e";
  receipt_index = λ r. 0;
  receipt_ctx_id = λ r. "c";
  accepted_at = λ r. r;
  from_value = λ v. ok v;
  event_value = λ e. ok 0;
  trunc_ms = trunc;
  mint = λ ctx_id value index at. ok (trunc at);
}

sdk-Mints : Mints sdk
sdk-Mints ctx_id value index at r h = sym (ok_injective h)

sdk-Truncates : Truncates sdk
sdk-Truncates t = refl

abbrev prior : List (String × StoredReceipt ℕ)
prior = ("e", valid 3000000) ∷ ("f", null) ∷ []

abbrev planned : ReceiptPlan ℕ
planned = record { fills = (1, 5000000) ∷ []; new = 5000000; hole = false }

plan_event_receipts-settled_example :
    (rs : List ℕ) × (settled sdk 0 (slots prior) planned.fills ≡ some rs)
    × Ascending sdk none (rs ++ (planned.new ∷ []))
    × All (λ (x : ℕ × ℕ). 2000500 ≤ x.1) planned.fills
    × (2000500 ≤ planned.new)
unfolding slots_have_hole has_hole plan_event_receipts plan_fills fill_nulls mint_after
    clamp_accepted_at ceil_ms latest_accepted_at
plan_event_receipts-settled_example =
    plan_event_receipts-settled sdk "c" 2000500 5000400 sdk-Truncates sdk-Mints prior "g" planned
      refl (refl, tt) (tt, tt) refl
