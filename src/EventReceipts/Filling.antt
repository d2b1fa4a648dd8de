-- ===== src/EventReceipts/Filling.antt =====
-- What a plan leaves: a receipt for every event, in an order of time that does not go back.
use acdp_registry_rs.Time.{DateTime}
use acdp_registry_rs.EventReceipts.{
  latest_from, slots, raise, hole_after, mint_after, ceil_ms, clamp_accepted_at, corrupt,
  millisecond, null, valid, StoredReceipt, Sdk,
}
use acdp_registry_rs.Prelude.{
  false, refl, true, >>=-eq-ok, arith, nat_eq, ◌==◌, if◌then◌else◌, ◌+◌, suc, [], none, ok, ◌≤◌,
  ◌≡◌, ◌∷◌, some, String, List, ℕ, Option, ◌/◌, ◌*◌, max, All, ◌∙◌, Bool-cases, inl, inr,
}

module _ {Event Receipt V E : Type 0} (sdk : Sdk Event Receipt V E) where
  abbrev pub AtLeast : Option DateTime → DateTime → Type 0
  AtLeast none t = Unit
  AtLeast (some p) t = p ≤ t

  -- The receipts were accepted in this order, none before `p`.
  abbrev pub Ascending : Option DateTime → List Receipt → Type 0
  Ascending p [] = Unit
  Ascending p (r ∷ rs) = AtLeast p (sdk.accepted_at r) × Ascending (some (sdk.accepted_at r)) rs

  abbrev pub map_cons : Receipt → Option (List Receipt) → Option (List Receipt)
  map_cons r none = none
  map_cons r (some rs) = some (r ∷ rs)

  -- The receipts of the slots once each fill is stored at its position; `none` where a slot has no
  -- receipt then, or a fill is not for the next null slot.
  abbrev pub settled : ℕ → List (StoredReceipt Receipt) → List (ℕ × Receipt) → Option (List Receipt)
  settled i [] [] = some []
  settled i [] (x ∷ fills) = none
  settled i (valid r ∷ prior) fills = map_cons r (settled (suc i) prior fills)
  settled i (null ∷ prior) [] = none
  settled i (null ∷ prior) ((j, r) ∷ fills) =
      let rest = map_cons r (settled (suc i) prior fills) in if i == j then rest else none
  settled i (corrupt ∷ prior) fills = none

  -- The receipts that are stored.
  abbrev pub receipts : List (StoredReceipt Receipt) → List Receipt
  receipts [] = []
  receipts (null ∷ prior) = receipts prior
  receipts (valid r ∷ prior) = r ∷ receipts prior
  receipts (corrupt ∷ prior) = receipts prior

  -- Minting truncates the time that it is given to its millisecond.
  abbrev pub Mints : Type 0
  Mints =
      (ctx_id : String) (value : V) (index : ℕ) (at : DateTime) (r : Receipt)
      → sdk.mint ctx_id value index at ≡ ok r
      → sdk.accepted_at r ≡ sdk.trunc_ms at

  abbrev pub Truncates : Type 0
  Truncates = (t : DateTime) → sdk.trunc_ms t ≡ (t / 1000000) * 1000000

  -- A time that there is has no part below a millisecond.
  abbrev pub Whole : Option DateTime → Type 0
  Whole none = Unit
  Whole (some p) = sdk.trunc_ms p ≡ p

  module _ (ctx_id : String) (created_at : DateTime) (now : DateTime) (truncates : Truncates)
      (mints : Mints) where
    clamp-AtLeast :
        (prev : Option DateTime) → AtLeast prev (clamp_accepted_at sdk now created_at prev)
    unfolding clamp_accepted_at
    clamp-AtLeast none = tt
    clamp-AtLeast (some p) = omega arith

    le-ceil_ms : created_at ≤ ceil_ms sdk created_at
    unfolding ceil_ms
    le-ceil_ms = ground (arith, truncates created_at)

    le-clamp : (prev : Option DateTime) → created_at ≤ clamp_accepted_at sdk now created_at prev
    unfolding clamp_accepted_at
    le-clamp none = omega (arith, le-ceil_ms)
    le-clamp (some p) = omega (arith, le-ceil_ms)

    pub trunc_ms-Whole : (t : DateTime) → Whole (some (sdk.trunc_ms t))
    trunc_ms-Whole t = omega (arith, truncates t, truncates (sdk.trunc_ms t))

    ceil_ms-Whole : Whole (some (ceil_ms sdk created_at))
    unfolding ceil_ms
    ceil_ms-Whole = elim (Bool-cases (sdk.trunc_ms created_at == created_at)) [
      | inl same ↦ rw same (trunc_ms-Whole created_at)
      | inr part ↦
          rw part
            (omega (arith, truncates created_at, truncates (sdk.trunc_ms created_at + millisecond)))
    ]

    max-Whole : (a b : DateTime) → Whole (some a) → Whole (some b) → Whole (some (max a b))
    max-Whole a b ha hb = omega (arith, ha, hb, truncates a, truncates b, truncates (max a b))

    -- The time that is given has nothing to truncate.
    clamp-Whole :
        (prev : Option DateTime)
        → Whole prev
        → Whole (some (clamp_accepted_at sdk now created_at prev))
    unfolding clamp_accepted_at
    clamp-Whole none h =
        max-Whole (sdk.trunc_ms now) (ceil_ms sdk created_at) (trunc_ms-Whole now) ceil_ms-Whole
    clamp-Whole (some p) h =
        max-Whole (max (sdk.trunc_ms now) (ceil_ms sdk created_at)) p
          (max-Whole (sdk.trunc_ms now) (ceil_ms sdk created_at) (trunc_ms-Whole now) ceil_ms-Whole)
          h

    accepted_at-mint_after :
        (prev : Option DateTime) (i : ℕ) (event : Event) (r : Receipt)
        → Whole prev
        → mint_after sdk ctx_id created_at now prev i event ≡ ok r
        → sdk.accepted_at r ≡ clamp_accepted_at sdk now created_at prev
    unfolding mint_after
    accepted_at-mint_after prev i event r whole h =
        let (value, e, minted) = >>=-eq-ok (sdk.event_value event) _ h in
        mints ctx_id value i (clamp_accepted_at sdk now created_at prev) r minted
        ∙ clamp-Whole prev whole

    pub minted-Whole :
        (prev : Option DateTime) (i : ℕ) (event : Event) (r : Receipt)
        → Whole prev
        → mint_after sdk ctx_id created_at now prev i event ≡ ok r
        → Whole (some (sdk.accepted_at r))
    minted-Whole prev i event r whole h =
        rw (accepted_at-mint_after prev i event r whole h) (clamp-Whole prev whole)

    -- A minted receipt is not before the one it follows, nor before the context.
    pub minted-AtLeast :
        (prev : Option DateTime) (i : ℕ) (event : Event) (r : Receipt)
        → Whole prev
        → mint_after sdk ctx_id created_at now prev i event ≡ ok r
        → AtLeast prev (sdk.accepted_at r)
    minted-AtLeast prev i event r whole h =
        rw (accepted_at-mint_after prev i event r whole h) (clamp-AtLeast prev)

    pub minted-le :
        (prev : Option DateTime) (i : ℕ) (event : Event) (r : Receipt)
        → Whole prev
        → mint_after sdk ctx_id created_at now prev i event ≡ ok r
        → created_at ≤ sdk.accepted_at r
    minted-le prev i event r whole h =
        rw (accepted_at-mint_after prev i event r whole h) (le-clamp prev)

    pub latest_from-Whole :
        (p : Option DateTime) (prior : List (Event × StoredReceipt Receipt))
        → Whole p
        → All (λ (r : Receipt). Whole (some (sdk.accepted_at r))) (receipts (slots prior))
        → Whole (latest_from sdk p prior)
    latest_from-Whole p [] h all = h
    latest_from-Whole p ((e, null) ∷ prior) h all = latest_from-Whole p prior h all
    latest_from-Whole p ((e, corrupt) ∷ prior) h all = latest_from-Whole p prior h all
    latest_from-Whole none ((e, valid r) ∷ prior) h all =
        latest_from-Whole (some (sdk.accepted_at r)) prior all.0 all.1
    latest_from-Whole (some p) ((e, valid r) ∷ prior) h all =
        latest_from-Whole (some (max (sdk.accepted_at r) p)) prior
          (max-Whole (sdk.accepted_at r) p all.0 h) all.1

  -- After a null slot that is no hole there are null slots only.
  pub only_nulls :
      (p : Option DateTime) (prior : List (Event × StoredReceipt Receipt))
      → hole_after true (slots prior) ≡ false
      → (receipts (slots prior) ≡ []) × (latest_from sdk p prior ≡ p)
  only_nulls p [] h = (refl, refl)
  only_nulls p ((e, null) ∷ prior) h = only_nulls p prior h
  only_nulls p ((e, valid r) ∷ prior) h = cc
  only_nulls p ((e, corrupt) ∷ prior) h = cc

  pub raise-eq : (p : Option DateTime) (t : DateTime) → AtLeast p t → raise t p ≡ t
  raise-eq none t h = refl
  raise-eq (some p) t h = omega (arith, h)
