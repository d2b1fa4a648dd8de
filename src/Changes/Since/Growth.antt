-- ===== src/Changes/Since/Growth.antt =====
-- A cursor that was handed out stays good while the feed grows.
use acdp_registry_rs.Changes.MemoryFeed.Pruning.{head-last_seq}
use acdp_registry_rs.Changes.MemoryFeed.Order.{push-WellFormed, WellFormed}
use acdp_registry_rs.Changes.Since.Accepted.{
  head-Recorded, anchor_holds-Recorded, at_row, at_pruned, at_origin, Recorded,
}
use acdp_registry_rs.Changes.Since.{anchor_at, cursor, anchor_holds, CursorAnchor, start_pos}
use acdp_registry_rs.Changes.MemoryFeed.{row_of, head, Feed, changes_head, push, push_one}
use acdp_registry_rs.Changes.Feed.{
  feed_origin_fp, from_snapshot, FeedAppend, FeedFingerprint, FeedRow,
}
use acdp_registry_rs.Prelude.{
  inr, inl, Option-cases, false, ◌||◌, ◌∙◌, ap, ok, ◌+◌, true, refl, [], arith, ◌++◌, ◌∷◌, ◌≡◌, ltb,
  ◌≤◌, ℕ, List,
}
use mathlib.Core.List.{append_assoc}

module _ {V : Type 0} (fp : FeedRow V → FeedFingerprint) where
  push_one-Recorded :
      (now_ms : ℕ) (a : FeedAppend V) (f : Feed V) (seq : ℕ) (x : FeedFingerprint)
      → Recorded fp f seq x
      → Recorded fp (push_one now_ms a f) seq x
  unfolding push_one
  push_one-Recorded now_ms a f seq x (at_origin e same) = at_origin e same
  push_one-Recorded now_ms a f seq x (at_pruned positive at same) = at_pruned positive at same
  push_one-Recorded now_ms a f seq x (at_row before r behind e at same) =
      let new = row_of a (f.last_seq + 1) now_ms ∷ [] in
      at_row before r (behind ++ new) (ap (λ t. t ++ new) e ∙ append_assoc before (r ∷ behind) new)
        at same

  push-Recorded :
      (now_ms : ℕ) (appends : List (FeedAppend V)) (f : Feed V) (seq : ℕ) (x : FeedFingerprint)
      → Recorded fp f seq x
      → Recorded fp (push now_ms appends f) seq x
  unfolding push
  push-Recorded now_ms [] f seq x known = known
  push-Recorded now_ms (a ∷ appends) f seq x known =
      push-Recorded now_ms appends (push_one now_ms a f) seq x
        (push_one-Recorded now_ms a f seq x known)

  last_seq-push :
      (now_ms : ℕ) (appends : List (FeedAppend V)) (f : Feed V)
      → (f.last_seq ≤ (push now_ms appends f).last_seq)
        × ((push now_ms appends f).pruned_through ≡ f.pruned_through)
  unfolding push push_one
  last_seq-push now_ms [] f = (omega arith, refl)
  last_seq-push now_ms (a ∷ appends) f =
      let (later, same) = last_seq-push now_ms appends (push_one now_ms a f) in
      (omega (arith, later), same)

  pruned_through-head : (g : Feed V) → (head fp g).pruned_through ≡ g.pruned_through
  unfolding head from_snapshot
  pruned_through-head g = refl

  cursor-accepted :
      (g : Feed V) (pos : ℕ) (anchor : CursorAnchor) {E : Type 0}
      → g.pruned_through ≤ pos
      → pos ≤ (head fp g).head
      → anchor_holds fp g (head fp g) anchor ≡ true
      → start_pos fp {E = E} g (changes_head fp g) (cursor (record { pos = pos; anchor = anchor }))
        ≡ ok pos
  unfolding start_pos changes_head
  cursor-accepted g pos anchor low high holds =
      rw
        (
          inside (head fp g).head pos g.pruned_through (head fp g).pruned_through low high
              (pruned_through-head g),
          holds,
        )
        refl
    where
      inside : (h p a b : ℕ) → a ≤ p → p ≤ h → b ≡ a → (ltb h p || ltb p b) ≡ false
      inside h p a b low high same = ground arith

  anchor_at-held :
      (f g : Feed V)
      → WellFormed fp f
      → WellFormed fp g
      → (head fp f).head ≤ (head fp g).head
      → ((seq : ℕ) (x : FeedFingerprint) → Recorded fp f seq x → Recorded fp g seq x)
      → anchor_holds fp g (head fp g) (anchor_at (head fp f).head (head fp f).head_fp) ≡ true
  unfolding anchor_at
  anchor_at-held f g w wg later keeps = elim (Option-cases (head fp f).head_fp) [
    | inl unknown ↦
        rw unknown
          (anchor_holds-Recorded fp g wg 0 feed_origin_fp (omega arith) (at_origin refl refl))
    | inr (x, e) ↦ rw e (
        anchor_holds-Recorded fp g wg (head fp f).head x later
          (keeps (head fp f).head x (head-Recorded fp f w x e)))
  ]

  -- A cursor between the bounds of a well-formed feed, anchored at its head, is accepted by the feed after
  -- any number of appends, and resumes at the same position.
  pub start_pos-push :
      (f : Feed V)
      → WellFormed fp f
      → (now_ms : ℕ) (appends : List (FeedAppend V)) (pos : ℕ) {E : Type 0} → f.pruned_through ≤ pos
      → pos ≤ (head fp f).head
      → start_pos fp {E = E}
          (push now_ms appends f)
          (changes_head fp (push now_ms appends f))
          (cursor (record { pos = pos; anchor = anchor_at (head fp f).head (head fp f).head_fp }))
        ≡ ok pos
  start_pos-push f w now_ms appends pos low high =
      let g = push now_ms appends f in
      let wg = push-WellFormed fp now_ms appends f w in
      let (later, same) = last_seq-push now_ms appends f in
      let grown : (head fp f).head ≤ (head fp g).head =
        omega (arith, later, head-last_seq fp f w, head-last_seq fp g wg) in
      cursor-accepted g pos (anchor_at (head fp f).head (head fp f).head_fp)
        (omega (arith, same, low)) (omega (arith, grown, high))
        (anchor_at-held f g w wg grown (push-Recorded now_ms appends f))
