-- ===== src/Changes/Since/Accepted.antt =====
-- Cursors stay good while the feed grows: `anchor_holds` on a position that the feed still has.
use acdp_registry_rs.Changes.MemoryFeed.Pruning.{head-last_seq}
use acdp_registry_rs.Changes.MemoryFeed.{changes_page, head, Feed, rows_after}
use acdp_registry_rs.Changes.MemoryFeed.Order.{seq-last, WellFormed, Contiguous-le, Contiguous}
use acdp_registry_rs.Changes.Since.{anchor_holds, stored_fp, one_row_after, bytes_beq}
use acdp_registry_rs.Changes.Feed.{
  FeedQuery, from_scan, from_snapshot, feed_origin_fp, FeedFingerprint, FeedRow, matches,
}
use acdp_registry_rs.Prelude.{
  ltb→lt, some_injective, Option-cases, nat_eq, inr, ◌∙◌, nat_beq_iff, inl, Bool-cases, ltb, ◌==◌,
  sym, lt→ltb, false, leb, arith, suc, [], ◌-◌, some, refl, ==_refl, last, ap, true, filterb, ◌++◌,
  ◌∷◌, ◌≡◌, ◌≤◌, ◌<◌, ℕ, List,
}

pub bytes_beq_refl : (xs : List ℕ) → bytes_beq xs xs ≡ true
bytes_beq_refl [] = refl
bytes_beq_refl (x ∷ xs) = rw (==_refl x) (bytes_beq_refl xs)

module _ {V : Type 0} where
  matches-one_row_after : (after : ℕ) (r : FeedRow V) → matches (one_row_after after) r ≡ true
  unfolding matches
  matches-one_row_after after r = refl

  filterb-all :
      (after : ℕ) (rows : List (FeedRow V)) → filterb (matches (one_row_after after)) rows ≡ rows
  filterb-all after [] = refl
  filterb-all after (r ∷ rows) =
      rw (matches-one_row_after after r) (ap (λ t. r ∷ t) (filterb-all after rows))

  -- In a run of positions the row of a position stands right behind the rows before it.
  rows_after-pred :
      (p top : ℕ) (before : List (FeedRow V)) (r : FeedRow V) (behind : List (FeedRow V))
      → Contiguous p top (before ++ (r ∷ behind))
      → (rows_after (r.seq - 1) (before ++ (r ∷ behind)) ≡ r ∷ behind) × (p < r.seq) × (r.seq ≤ top)
  rows_after-pred p top [] r behind h =
      (rw (above r.seq p h.0) refl, omega (arith, h.0), Contiguous-le r.seq top behind h.1)
    where
      above : (n p : ℕ) → n ≡ suc p → leb n (n - 1) ≡ false
      above n p e = ground arith
  rows_after-pred p top (x ∷ before) r behind h =
      let (found, low, high) = rows_after-pred x.seq top before r behind h.1 in
      (rw (passed x.seq r.seq low) found, omega (arith, h.0, low), high)
    where
      passed : (a b : ℕ) → a < b → leb a (b - 1) ≡ true
      passed a b lt = ground arith

  -- The row at the end of the run is the last one.
  last-top :
      (p top : ℕ) (before : List (FeedRow V)) (r : FeedRow V) (behind : List (FeedRow V))
      → Contiguous p top (before ++ (r ∷ behind))
      → r.seq ≡ top
      → last (before ++ (r ∷ behind)) ≡ some r
  last-top p top [] r [] h e = refl
  last-top p top [] r (y ∷ behind) h e =
      absurd (omega (arith, e, h.1.0, Contiguous-le y.seq top behind h.1.1))
  last-top p top (x ∷ []) r behind h e = last-top x.seq top [] r behind h.1 e
  last-top p top (x ∷ y ∷ before) r behind h e = last-top x.seq top (y ∷ before) r behind h.1 e

module _ {V : Type 0} (fp : FeedRow V → FeedFingerprint) (f : Feed V) where
  -- The feed still knows the fingerprint `x` at the position: its origin, the end of what was pruned, or
  -- a row.
  pub data Recorded (seq : ℕ) (x : FeedFingerprint) : Type 0 where
    at_origin : seq ≡ 0 → x ≡ feed_origin_fp → Recorded seq x
    at_pruned : 0 < seq → seq ≡ f.pruned_through → f.pruned_through_fp ≡ some x → Recorded seq x
    at_row :
        (before : List (FeedRow V)) (r : FeedRow V) (behind : List (FeedRow V))
        → f.rows ≡ before ++ (r ∷ behind)
        → seq ≡ r.seq
        → fp r ≡ x
        → Recorded seq x

  head_fp-last :
      (r : FeedRow V)
      → last f.rows ≡ some r
      → f.pruned_through < r.seq
      → (head fp f).head_fp ≡ some (fp r)
  unfolding head from_snapshot
  head_fp-last r e above = rw (e, lt→ltb f.pruned_through r.seq above) refl

  rows-one_row :
      (before : List (FeedRow V)) (r : FeedRow V) (behind : List (FeedRow V))
      → f.rows ≡ before ++ (r ∷ behind)
      → rows_after (r.seq - 1) (before ++ (r ∷ behind)) ≡ r ∷ behind
      → (changes_page fp (one_row_after (r.seq - 1)) f).rows ≡ r ∷ []
  unfolding changes_page from_scan
  rows-one_row before r behind e found = rw (e, found, filterb-all (r.seq - 1) (r ∷ behind)) refl

  pub page-pruned_through :
      (q : FeedQuery)
      → ((changes_page fp q f).pruned_through ≡ f.pruned_through)
        × ((changes_page fp q f).pruned_through_fp ≡ f.pruned_through_fp)
  unfolding changes_page from_scan head from_snapshot
  page-pruned_through q = (refl, refl)

  stored_fp-row :
      WellFormed fp f
      → (before : List (FeedRow V)) (r : FeedRow V) (behind : List (FeedRow V))
      → f.rows ≡ before ++ (r ∷ behind)
      → stored_fp fp f (head fp f) r.seq ≡ some (fp r)
  unfolding stored_fp
  stored_fp-row w before r behind e =
      let run = rw e at w.contiguous in
      let (found, low, high) = rows_after-pred f.pruned_through f.last_seq before r behind run in
      elim (Bool-cases (r.seq == (head fp f).head)) [
        | inl top ↦
            let at = nat_beq_iff r.seq (head fp f).head in
            let ends =
              last-top f.pruned_through f.last_seq before r behind run
                (at.0 top ∙ head-last_seq fp f w) in
            rw (not_beq r.seq 0 (omega (arith, low)), top) (head_fp-last r (rw e ends) low)
        | inr inside ↦
            rw
              (
                not_beq r.seq 0 (omega (arith, low)),
                inside,
                (page-pruned_through (one_row_after (r.seq - 1))).0,
                not_beq r.seq f.pruned_through low,
                not_ltb r.seq f.pruned_through low,
                rows-one_row before r behind e found,
                ==_refl r.seq,
              )
              refl
      ]
    where
      not_beq : (a b : ℕ) → b < a → (a == b) ≡ false
      not_beq a b h = ground arith

      not_ltb : (a b : ℕ) → b < a → ltb a b ≡ false
      not_ltb a b h = ground arith

  head_fp-pruned :
      0 < f.pruned_through
      → f.pruned_through ≡ (head fp f).head
      → (head fp f).head_fp ≡ f.pruned_through_fp
  unfolding head from_snapshot
  head_fp-pruned positive at = elim (Option-cases (last f.rows)) [
    | inl empty ↦ rw (empty, not_zero f.pruned_through positive) refl
    | inr (r, e) ↦ elim (Bool-cases (ltb f.pruned_through r.seq)) [
      | inl above ↦
          let same : f.pruned_through ≡ r.seq = rw (e, above) at at in
          absurd (omega (arith, same, ltb→lt f.pruned_through r.seq above))
      | inr low ↦ rw (e, low, not_zero f.pruned_through positive) refl
    ]
  ]
    where
      not_zero : (a : ℕ) → 0 < a → (a == 0) ≡ false
      not_zero a h = ground arith

  stored_fp-pruned :
      (seq : ℕ)
      → 0 < seq
      → seq ≡ f.pruned_through
      → stored_fp fp f (head fp f) seq ≡ f.pruned_through_fp
  unfolding stored_fp
  stored_fp-pruned seq positive at = elim (Bool-cases (seq == (head fp f).head)) [
    | inl top ↦
        rw (not_zero seq positive, top)
          (head_fp-pruned (rw at at positive) (sym at ∙ (nat_beq_iff seq (head fp f).head).0 top))
    | inr inside ↦
        rw
          (
            not_zero seq positive,
            inside,
            (page-pruned_through (one_row_after (seq - 1))).0,
            (nat_beq_iff seq f.pruned_through).1 at,
          )
          (page-pruned_through (one_row_after (seq - 1))).1
  ]
    where
      not_zero : (a : ℕ) → 0 < a → (a == 0) ≡ false
      not_zero a h = ground arith

  stored_fp-Recorded :
      WellFormed fp f
      → (seq : ℕ) (x : FeedFingerprint) → Recorded seq x
      → stored_fp fp f (head fp f) seq ≡ some x
  unfolding stored_fp
  stored_fp-Recorded w seq x (at_origin zero_seq same) = rw (zero_seq, same) refl
  stored_fp-Recorded w seq x (at_row before r behind e at same) =
      rw (at, sym same) (stored_fp-row w before r behind e)
  stored_fp-Recorded w seq x (at_pruned positive at same) = stored_fp-pruned seq positive at ∙ same

  -- The fingerprint that the feed reports for its head is recorded.
  pub head-Recorded :
      WellFormed fp f
      → (x : FeedFingerprint) → (head fp f).head_fp ≡ some x
      → Recorded (head fp f).head x
  unfolding head from_snapshot
  head-Recorded w x h = elim (Option-cases (last f.rows)) [
    | inl empty ↦ elim (Bool-cases (f.pruned_through == 0)) [
      | inl fresh ↦
          let known = rw (empty, fresh) at h in
          rw (empty, fresh) (at_origin refl (sym (some_injective known)))
      | inr pruned ↦
          let known = rw (empty, pruned) at h in
          rw (empty, pruned) (at_pruned (positive f.pruned_through pruned) refl known)
    ]
    | inr (r, e) ↦
        let above =
          lt→ltb f.pruned_through r.seq
            (seq-last f.pruned_through f.last_seq f.rows r w.contiguous e).1 in
        let known = rw (e, above) at h in
        let (before, split) = last-split f.rows r e in
        rw (e, above) (at_row before r [] split refl (some_injective known))
  ]
    where
      positive : (a : ℕ) → (a == 0) ≡ false → 0 < a
      positive a h = ground arith

      last-split :
          (rows : List (FeedRow V)) (r : FeedRow V)
          → last rows ≡ some r
          → (before : List (FeedRow V)) × (rows ≡ before ++ (r ∷ []))
      last-split [] r e = cc
      last-split (x ∷ []) r e = ([], ap (λ y. y ∷ []) (some_injective e))
      last-split (x ∷ y ∷ rows) r e =
          let (before, split) = last-split (y ∷ rows) r e in (x ∷ before, ap (λ t. x ∷ t) split)

  pub anchor_holds-Recorded :
      WellFormed fp f
      → (seq : ℕ) (x : FeedFingerprint) → seq ≤ (head fp f).head
      → Recorded seq x
      → anchor_holds fp f (head fp f) (record { seq = seq; fp = x }) ≡ true
  unfolding anchor_holds
  anchor_holds-Recorded w seq x le known =
      rw (not_above seq (head fp f).head le, stored_fp-Recorded w seq x known) (bytes_beq_refl x)
    where
      not_above : (a b : ℕ) → a ≤ b → ltb b a ≡ false
      not_above a b h = ground arith
