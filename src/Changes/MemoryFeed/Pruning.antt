-- ===== src/Changes/MemoryFeed/Pruning.antt =====
-- Retention: what `prune_changes` removes, and that it moves neither the head nor its fingerprint.
use acdp_registry_rs.Changes.Feed.{FeedHead, from_snapshot, FeedFingerprint, FeedRow}
use acdp_registry_rs.Prelude.{
  Option, ◌<◌, drop, none, take, some, last, ◌∙◌, refl, sym, inr, inl, Option-cases, arith, ◌≡◌,
  ◌≤◌, ℕ,
}
use acdp_registry_rs.Changes.MemoryFeed.{drained, pruned_to, prune_changes, Feed, head}
use acdp_registry_rs.Changes.MemoryFeed.Order.{
  last-drop, seq-last, no_rows, last-take_all, Contiguous-drop, lt-seq-take, drop-whole, WellFormed,
}

module _ {V : Type 0} (fp : FeedRow V → FeedFingerprint) where
  -- On a well-formed feed the head is the last position assigned.
  pub head-last_seq : (f : Feed V) → WellFormed fp f → (head fp f).head ≡ f.last_seq
  unfolding head from_snapshot
  head-last_seq f w = elim (Option-cases (last f.rows)) [
    | inl empty ↦
        rw empty (ground (arith, no_rows f.pruned_through f.last_seq f.rows w.contiguous empty))
    | inr (r, e) ↦
        rw e (ground (arith, seq-last f.pruned_through f.last_seq f.rows r w.contiguous e))
  ]

  -- The feed after a prune whose last drained row is `r`.
  marked_at :
      (f : Feed V) (r : FeedRow V)
      → f.pruned_through ≤ r.seq
      → pruned_to fp (some r) f
        ≡ record f { pruned_through = r.seq; pruned_through_fp = some (fp r) }
  marked_at f r h = ground arith

  pruned_rows :
      (n : ℕ) (f : Feed V)
      → WellFormed fp f
      → WellFormed fp (record (pruned_to fp (last (take n f.rows)) f) { rows = drop n f.rows })
  pruned_rows n f w = elim (Option-cases (last (take n f.rows))) [
    | inl nothing ↦ rw (nothing, drop-whole n f.rows nothing) w
    | inr (r, e) ↦
        let above = lt-seq-take n f.pruned_through f.last_seq f.rows r w.contiguous e in
        rw e (
          rw (marked_at f r (omega arith)) (record {
            contiguous = Contiguous-drop n f.pruned_through f.last_seq f.rows r w.contiguous e;
            fp_recorded = λ _. (fp r, refl);
          }))
  ]

  -- A prune keeps the feed well formed: the rows are still the positions after `pruned_through` up to the
  -- last one assigned, and where rows were pruned the fingerprint is recorded.
  pub prune_changes-WellFormed :
      (older_than_ms batch : ℕ) (f : Feed V)
      → WellFormed fp f
      → WellFormed fp (prune_changes fp older_than_ms batch f).1
  unfolding prune_changes
  prune_changes-WellFormed older_than_ms batch f w = pruned_rows (drained older_than_ms batch f) f w

  abbrev SameHead : FeedHead → FeedHead → Type 0
  SameHead a b = (a.head ≡ b.head) × (a.head_fp ≡ b.head_fp)

  -- The head markers of a feed whose last row is `s`, or that has no row and was pruned through `r`.
  head_of_last :
      (f : Feed V) (s : FeedRow V)
      → last f.rows ≡ some s
      → f.pruned_through < s.seq
      → ((head fp f).head ≡ s.seq) × ((head fp f).head_fp ≡ some (fp s))
  unfolding head from_snapshot
  head_of_last f s e lt = rw e (ground arith)

  head_of_pruned :
      (f : Feed V) (r : FeedRow V)
      → last f.rows ≡ none
      → 0 < f.pruned_through
      → f.pruned_through ≡ r.seq
      → f.pruned_through_fp ≡ some (fp r)
      → ((head fp f).head ≡ r.seq) × ((head fp f).head_fp ≡ some (fp r))
  unfolding head from_snapshot
  head_of_pruned f r e pos p q = rw e (ground arith)

  -- The feed after a prune of `n` rows of which `r` is the last.
  abbrev pruned_at : Feed V → ℕ → FeedRow V → Feed V
  pruned_at f n r = record f {
    rows = drop n f.rows;
    pruned_through = r.seq;
    pruned_through_fp = some (fp r);
  }

  same_marks :
      {h h' n : ℕ} {x y z : Option FeedFingerprint}
      → (h ≡ n) × (x ≡ z)
      → (h' ≡ n) × (y ≡ z)
      → (h ≡ h') × (x ≡ y)
  same_marks p q = (p.0 ∙ sym q.0, p.1 ∙ sym q.1)

  same_head :
      (n : ℕ) (f : Feed V)
      → WellFormed fp f
      → SameHead
          (head fp (record (pruned_to fp (last (take n f.rows)) f) { rows = drop n f.rows }))
          (head fp f)
  same_head n f w = elim (Option-cases (last (take n f.rows))) [
    | inl nothing ↦ rw (nothing, drop-whole n f.rows nothing) (refl, refl)
    | inr (r, e) ↦
        let above = lt-seq-take n f.pruned_through f.last_seq f.rows r w.contiguous e in
        let left = Contiguous-drop n f.pruned_through f.last_seq f.rows r w.contiguous e in
        rw e (
          rw (marked_at f r (omega arith)) (elim (Option-cases (last (drop n f.rows))) [
            | inl empty ↦
                let whole : last f.rows ≡ some r = sym (last-take_all n f.rows empty) ∙ e in
                same_marks
                  (head_of_pruned (pruned_at f n r) r empty (omega (arith, above)) refl refl)
                  (head_of_last f r whole above)
            | inr (s, rest) ↦
                let below = seq-last r.seq f.last_seq (drop n f.rows) s left rest in
                let whole = last-drop n f.rows s rest in
                same_marks (head_of_last (pruned_at f n r) s rest below.1)
                  (head_of_last f s whole (omega (arith, above, below)))
          ]))
  ]

  -- A prune of a well-formed feed moves neither the head nor the fingerprint that cursors at the head are
  -- anchored on.
  pub head-prune_changes :
      (older_than_ms batch : ℕ) (f : Feed V)
      → WellFormed fp f
      → ((head fp (prune_changes fp older_than_ms batch f).1).head ≡ (head fp f).head)
        × ((head fp (prune_changes fp older_than_ms batch f).1).head_fp ≡ (head fp f).head_fp)
  unfolding prune_changes
  head-prune_changes older_than_ms batch f w = same_head (drained older_than_ms batch f) f w
