-- ===== src/EventReceipts/Plans.antt =====
-- `plan_event_receipts`, `plan_backfill` and `attach_event_receipts`, as a whole.
use mathlib.Core.Path.{subst}
use acdp_registry_rs.EventReceipts.Filling.{
  minted-le, minted-Whole, Whole, latest_from-Whole, Truncates, Ascending, AtLeast, settled,
  receipts, Mints, map_cons, only_nulls, raise-eq, minted-AtLeast,
}
use acdp_registry_rs.Time.{DateTime}
use acdp_registry_rs.Prelude.{
  some_injective, ◌&&◌, arith, not, ◌||◌, nat_eq, if◌then◌else◌, ◌==◌, ◌<◌, map, length, none, ◌≤◌,
  All, refl, ◌∙◌, ==_refl, sym, ok_injective, true, ap, suc, >>=-eq-ok, [], ◌∷◌, ok, ◌++◌, false,
  some, ◌≡◌, Bool, List, Option, ℕ, String,
}
use acdp_registry_rs.EventReceipts.{
  flatten, RegistryState, attach_event_receipts, all_some, ReceiptPlan, latest_accepted_at,
  has_hole, slots_have_hole, plan_fills, plan_event_receipts, corrupt, null, valid, mint_after,
  latest_from, slots, hole_after, StoredReceipt, fill_nulls, Sdk,
}

module _ {Event Receipt V E : Type 0} (sdk : Sdk Event Receipt V E) (ctx_id : String)
    (created_at : DateTime) (now : DateTime) where
  -- What `fill_nulls` gives: the slots it settles, up to the time it hands on.
  pub record Filled (i : ℕ) (p : Option DateTime) (prior : List (Event × StoredReceipt Receipt))
      (filled : List (ℕ × Receipt) × Option DateTime) : Type 0 where
    pub rs : List Receipt
    pub settles : settled sdk i (slots prior) filled.0 ≡ some rs
    pub ascending :
        (x : Receipt) → AtLeast sdk filled.1 (sdk.accepted_at x) → Ascending sdk p (rs ++ (x ∷ []))

  module _ (truncates : Truncates sdk) (mints : Mints sdk) where
    pub fill_nulls-Filled :
        (b : Bool) (i : ℕ) (p prev : Option DateTime) (prior : List (Event × StoredReceipt Receipt))
        (filled : List (ℕ × Receipt) × Option DateTime)
        → Whole sdk prev
        → hole_after b (slots prior) ≡ false
        → Ascending sdk p (receipts sdk (slots prior))
        → prev ≡ latest_from sdk p prior
        → fill_nulls sdk ctx_id created_at now i prev prior ≡ ok filled
        → Filled i p prior filled
    unfolding fill_nulls
    fill_nulls-Filled b i p prev [] filled whole h asc l e =
        subst (λ (y : List (ℕ × Receipt) × Option DateTime). Filled i p [] y) (ok_injective e)
          (record {
            rs = [];
            settles = refl;
            ascending = λ x at.
                (subst (λ (y : Option DateTime). AtLeast sdk y (sdk.accepted_at x)) l at, tt);
          })
    fill_nulls-Filled b i p prev ((event, null) ∷ prior) filled whole h asc l e =
        let (r, minted, e1) = >>=-eq-ok (mint_after sdk ctx_id created_at now prev i event) _ e in
        let at = some (sdk.accepted_at r) in
        let (rest, more, e2) =
          >>=-eq-ok (fill_nulls sdk ctx_id created_at now (suc i) at prior) _ e1 in
        let tail =
          fill_nulls-Filled true (suc i) at at prior rest
            (minted-Whole sdk ctx_id created_at now truncates mints prev i event r whole minted) h
            (rw ((only_nulls sdk at prior h).0) tt) (sym (only_nulls sdk at prior h).1) more in
        let first =
          minted-AtLeast sdk ctx_id created_at now truncates mints prev i event r whole minted in
        subst (λ (y : List (ℕ × Receipt) × Option DateTime). Filled i p ((event, null) ∷ prior) y)
          (ok_injective e2)
          (record {
            rs = r ∷ tail.rs;
            settles = rw (==_refl i) (ap (map_cons sdk r) tail.settles);
            ascending = λ x last_at. (
              subst (λ (y : Option DateTime). AtLeast sdk y (sdk.accepted_at r))
                  (l ∙ (only_nulls sdk p prior h).1) first,
              tail.ascending x last_at,
            );
          })
    fill_nulls-Filled true i p prev ((event, valid r) ∷ prior) filled whole h asc l e = cc
    fill_nulls-Filled false i p prev ((event, valid r) ∷ prior) filled whole h asc l e =
        let rest =
          fill_nulls-Filled false (suc i) (some (sdk.accepted_at r)) prev prior filled whole h asc.1
            (rw (sym (ap some (raise-eq sdk p (sdk.accepted_at r) asc.0))) l) e in
        record {
          rs = r ∷ rest.rs;
          settles = ap (map_cons sdk r) rest.settles;
          ascending = λ x at. (asc.0, rest.ascending x at);
        }
    fill_nulls-Filled b i p prev ((event, corrupt) ∷ prior) filled whole h asc l e = cc

    -- Every receipt that is filled is for the context's time or later.
    pub fill_nulls-le :
        (i : ℕ) (prev : Option DateTime) (prior : List (Event × StoredReceipt Receipt))
        (filled : List (ℕ × Receipt) × Option DateTime)
        → Whole sdk prev
        → fill_nulls sdk ctx_id created_at now i prev prior ≡ ok filled
        → All (λ (x : ℕ × Receipt). created_at ≤ sdk.accepted_at x.1) filled.0
    unfolding fill_nulls
    fill_nulls-le i prev [] filled whole e =
        subst
          (λ (y : List (ℕ × Receipt) × Option DateTime).
            All (λ (x : ℕ × Receipt). created_at ≤ sdk.accepted_at x.1) y.0)
          (ok_injective e) tt
    fill_nulls-le i prev ((event, null) ∷ prior) filled whole e =
        let (r, minted, e1) = >>=-eq-ok (mint_after sdk ctx_id created_at now prev i event) _ e in
        let at = some (sdk.accepted_at r) in
        let (rest, more, e2) =
          >>=-eq-ok (fill_nulls sdk ctx_id created_at now (suc i) at prior) _ e1 in
        subst
          (λ (y : List (ℕ × Receipt) × Option DateTime).
            All (λ (x : ℕ × Receipt). created_at ≤ sdk.accepted_at x.1) y.0)
          (ok_injective e2)
          (
            minted-le sdk ctx_id created_at now truncates mints prev i event r whole minted,
            fill_nulls-le (suc i) at prior rest
                (minted-Whole sdk ctx_id created_at now truncates mints prev i event r whole minted)
                more,
          )
    fill_nulls-le i prev ((event, valid r) ∷ prior) filled whole e =
        fill_nulls-le (suc i) prev prior filled whole e
    fill_nulls-le i prev ((event, corrupt) ∷ prior) filled whole e =
        fill_nulls-le (suc i) prev prior filled whole e

    -- The time that is handed on has no part below a millisecond.
    fill_nulls-Whole :
        (i : ℕ) (prev : Option DateTime) (prior : List (Event × StoredReceipt Receipt))
        (filled : List (ℕ × Receipt) × Option DateTime)
        → Whole sdk prev
        → fill_nulls sdk ctx_id created_at now i prev prior ≡ ok filled
        → Whole sdk filled.1
    unfolding fill_nulls
    fill_nulls-Whole i prev [] filled whole e =
        subst (λ (y : List (ℕ × Receipt) × Option DateTime). Whole sdk y.1) (ok_injective e) whole
    fill_nulls-Whole i prev ((event, null) ∷ prior) filled whole e =
        let (r, minted, e1) = >>=-eq-ok (mint_after sdk ctx_id created_at now prev i event) _ e in
        let at = some (sdk.accepted_at r) in
        let (rest, more, e2) =
          >>=-eq-ok (fill_nulls sdk ctx_id created_at now (suc i) at prior) _ e1 in
        subst (λ (y : List (ℕ × Receipt) × Option DateTime). Whole sdk y.1) (ok_injective e2)
          (fill_nulls-Whole (suc i) at prior rest
            (minted-Whole sdk ctx_id created_at now truncates mints prev i event r whole minted)
            more)
    fill_nulls-Whole i prev ((event, valid r) ∷ prior) filled whole e =
        fill_nulls-Whole (suc i) prev prior filled whole e
    fill_nulls-Whole i prev ((event, corrupt) ∷ prior) filled whole e =
        fill_nulls-Whole (suc i) prev prior filled whole e

    -- Where minting truncates the time it is given to its millisecond: of slots without a hole whose receipts
    -- are in order of time, each dated to a whole millisecond, a plan that succeeds fills every null slot,
    -- in order, and with the new receipt at the end the receipts are still in order of time; none that is
    -- minted is before the context's `created_at`.
    pub plan_event_receipts-settled :
        (prior : List (Event × StoredReceipt Receipt)) (new_event : Event)
        (plan : ReceiptPlan Receipt)
        → slots_have_hole prior ≡ false
        → All (λ (r : Receipt). Whole sdk (some (sdk.accepted_at r))) (receipts sdk (slots prior))
        → Ascending sdk none (receipts sdk (slots prior))
        → plan_event_receipts sdk ctx_id created_at now prior new_event ≡ ok plan
        → (rs : List Receipt) × (settled sdk 0 (slots prior) plan.fills ≡ some rs)
          × Ascending sdk none (rs ++ (plan.new ∷ []))
          × All (λ (x : ℕ × Receipt). created_at ≤ sdk.accepted_at x.1) plan.fills
          × (created_at ≤ sdk.accepted_at plan.new)
    unfolding plan_event_receipts plan_fills slots_have_hole has_hole latest_accepted_at
    plan_event_receipts-settled prior new_event plan h whole_ms asc e =
        let whole =
          latest_from-Whole sdk ctx_id created_at now truncates mints none prior tt whole_ms in
        let (filled, fills, e1) =
          >>=-eq-ok (fill_nulls sdk ctx_id created_at now 0 (latest_from sdk none prior) prior) _
            (rw h at e) in
        let (new, minted, e2) =
          >>=-eq-ok (mint_after sdk ctx_id created_at now filled.1 (length prior) new_event) _ e1 in
        let done =
          fill_nulls-Filled false 0 none (latest_from sdk none prior) prior filled whole h asc refl
            fills in
        let last = fill_nulls-Whole 0 (latest_from sdk none prior) prior filled whole fills in
        subst
          (λ (y : ReceiptPlan Receipt).
            (rs : List Receipt) × (settled sdk 0 (slots prior) y.fills ≡ some rs)
            × Ascending sdk none (rs ++ (y.new ∷ []))
            × All (λ (x : ℕ × Receipt). created_at ≤ sdk.accepted_at x.1) y.fills
            × (created_at ≤ sdk.accepted_at y.new))
          (ok_injective e2)
          (
            done.rs,
            done.settles,
            done.ascending new (
                minted-AtLeast sdk ctx_id created_at now truncates mints filled.1 (length prior)
                  new_event new last minted),
            fill_nulls-le 0 (latest_from sdk none prior) prior filled whole fills,
            minted-le sdk ctx_id created_at now truncates mints filled.1 (length prior) new_event
                new last minted,
          )

module _ {Receipt : Type 0} where
  map-flatten : (rs : List (Option Receipt)) → all_some rs ≡ true → map some (flatten rs) ≡ rs
  map-flatten [] h = refl
  map-flatten (none ∷ rs) h = cc
  map-flatten (some r ∷ rs) h = ap (λ t. some r ∷ t) (map-flatten rs h)

  length-flatten :
      (rs : List (Option Receipt)) → all_some rs ≡ true → length (flatten rs) ≡ length rs
  length-flatten [] h = refl
  length-flatten (none ∷ rs) h = cc
  length-flatten (some r ∷ rs) h = ap suc (length-flatten rs h)

  shown_when :
      (a b c : Bool) (rs out : List Receipt)
      → (if a || not (b && c) then none else some rs) ≡ some out
      → (a ≡ false) × (b ≡ true) × (c ≡ true) × (rs ≡ out)
  shown_when false true true rs out h = (refl, refl, refl, some_injective h)
  shown_when false true false rs out h = cc
  shown_when false false c rs out h = cc
  shown_when true b c rs out h = cc

module _ {Event Receipt : Type 0} where
  -- A registry that mints shows all receipts or none: where it shows a list, there are events, the list has
  -- as many members, and it is the receipts it was given, of which none is missing.
  pub attach_event_receipts_shown :
      (state : RegistryState Event Receipt) (es : List Event) (rs : List (Option Receipt))
      (out : List Receipt)
      → state.lifecycle_events ≡ some es
      → (attach_event_receipts state rs true).event_receipts ≡ some out
      → (0 < length es) × (length out ≡ length es) × (map some out ≡ rs)
  unfolding attach_event_receipts
  attach_event_receipts_shown state es rs out h e =
      let (nonzero, same, all, flat) =
        shown_when (length es == 0) (length rs == length es) (all_some rs) (flatten rs) out
          (rw h at e) in
      let n = (nat_eq.beq_iff (length rs) (length es)).0 same in
      (
        ground (arith, nonzero),
        sym (ap length flat) ∙ length-flatten rs all ∙ n,
        sym (ap (map some) flat) ∙ map-flatten rs all,
      )
