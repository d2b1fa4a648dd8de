-- ===== src/Keyless/Jwks/Answers.antt =====
-- What each operation of the cache hands out, and what it leaves.
use mathlib.Core.Path.{subst}
use acdp_registry_rs.Keyless.Jwks.Copies.{
  Backed-store, Held-counts, Held-put_state, Backed, Current, Slotted, Held,
}
use acdp_registry_rs.Keyless.Jwks.{
  unknown_kid_refetch_ms, failure_backoff_ms, within, counted_fetch, force_slot, after_forced,
  lookup_slot, refetch, after_fetch, Fetched, stale_answer, saturating_add, stale_held, stale,
  store, SlotState, Entry, Slot, JwksCache, IssuerUnreachable, Target,
}
use acdp_registry_rs.Keyless.Types.{KeySource, KeySet, source_eq}
use acdp_registry_rs.Prelude.{
  refl, ltb, some_injective, inr, inl, arith, ◌+◌, Bool-cases, ◌<◌, lookup, none, err, some, ◌≡◌,
  ok, HashMap, Option, Result, ℕ,
}

-- The keys that a call hands out.
abbrev pub looked_up : Result IssuerUnreachable KeySet → Option KeySet
looked_up (ok ks) = some ks
looked_up (err e) = none

abbrev pub refetched : Result IssuerUnreachable (Option KeySet) → Option KeySet
refetched (ok ks) = ks
refetched (err e) = none

-- `Serves target t ks`: the target serves the keys `ks` at the instant `t`.
module _ (Serves : Target → ℕ → KeySet → Type 0) where
  module _ (init : HashMap KeySource Slot) (stale_ms : ℕ) where
    -- What a call on a source leaves, and the keys that it hands out.
    pub record Answered (source : KeySource) (now : ℕ) (keys_out : Option KeySet) (c : JwksCache)
        : Type 0 where
      pub held : Held Serves init stale_ms c
      pub current : (ks : KeySet) → keys_out ≡ some ks → Current Serves init stale_ms source now ks

    module _ (source : KeySource) (now : ℕ) (slot : Slot) where
      Current-served :
          (t : ℕ) (ks : KeySet)
          → Slotted Serves init stale_ms source slot
          → Serves slot.target t ks
          → now < t + 3600000 + stale_ms
          → Current Serves init stale_ms source now ks
      Current-served t ks sl serves recent = record {
        slot = sl.first;
        configured = sl.configured;
        served_at = t;
        served = rw sl.same_target serves;
        recent = recent;
      }

      nothing-Answered : (c : JwksCache) → Held Serves init stale_ms c → Answered source now none c
      nothing-Answered c h = record { held = h; current = λ ks e. cc }

      served-Answered :
          (t : ℕ) (ks : KeySet) (c : JwksCache)
          → Held Serves init stale_ms c
          → Slotted Serves init stale_ms source slot
          → Serves slot.target t ks
          → now < t + 3600000 + stale_ms
          → Answered source now (some ks) c
      served-Answered t ks c h sl serves recent = record {
        held = h;
        current = λ other e.
            subst (Current Serves init stale_ms source now) (some_injective e)
              (Current-served t ks sl serves recent);
      }

      stale_held-Answered :
          (o : Option Entry) (c : JwksCache)
          → Held Serves init stale_ms c
          → Slotted Serves init stale_ms source slot
          → Backed Serves init stale_ms slot.target o
          → Answered source now (looked_up (stale_held o now c).0) (stale_held o now c).1
      unfolding stale
      stale_held-Answered none c h sl backed = nothing-Answered c h
      stale_held-Answered (some e) c h sl backed =
          elim (Bool-cases
            (ltb now (saturating_add (saturating_add e.fetched_at_ms e.ttl_ms) c.max_stale_ms))) [
              | inl usable ↦
                  rw (usable, stale_answer, looked_up)
                    (served-Answered e.fetched_at_ms e.keys _
                      (Held-counts Serves init stale_ms c _ refl refl refl h) sl backed.0
                      (ground (arith, usable, backed.1, h.same_stale)))
              | inr gone ↦ rw (gone, stale_answer, looked_up) (nothing-Answered c h)
            ]

      module _ (c : JwksCache) (h : Held Serves init stale_ms c)
          (found : lookup source c.slots ≡ some slot) (web : Target → Fetched)
          (honest : (target : Target) (ks : KeySet) (max_age : Option ℕ)
            → web target ≡ ok (ks, max_age)
            → Serves target now ks) where
        after_fetch-Answered :
            (got : Fetched)
            → web slot.target ≡ got
            → Answered source now
                (looked_up (after_fetch source slot now (counted_fetch source got c) got).0)
                (after_fetch source slot now (counted_fetch source got c) got).1
        unfolding after_fetch counted_fetch
        after_fetch-Answered (ok (ks, max_age)) e =
            let serves = honest slot.target ks max_age e in
            let counted = counted_fetch source (ok (ks, max_age)) c in
            served-Answered now ks _
              (Held-put_state Serves init stale_ms source slot
                (store counted (ks, max_age) now slot.state) counted
                (Held-counts Serves init stale_ms c counted refl refl refl h) found
                (Backed-store Serves init stale_ms counted (ks, max_age) now slot.state slot.target
                  h.short serves))
              (h.slotted source slot found) serves (omega arith)
        after_fetch-Answered (err problem) e =
            let sl = h.slotted source slot found in
            let counted = counted_fetch source (err problem) c in
            stale_held-Answered slot.state.entry _
              (Held-put_state Serves init stale_ms source slot
                (record slot.state { failed_at_ms = some now }) counted
                (Held-counts Serves init stale_ms c counted refl refl refl h) found sl.backed)
              sl sl.backed

        refetch-Answered :
            Answered source now
              (looked_up (refetch web source slot now c).0)
              (refetch web source slot now c).1
        refetch-Answered = after_fetch-Answered (web slot.target) refl

        pub lookup_slot-Answered :
            (o : Option Entry)
            → Backed Serves init stale_ms slot.target o
            → Answered source now
                (looked_up (lookup_slot web source slot now c o).0)
                (lookup_slot web source slot now c o).1
        unfolding lookup_slot
        lookup_slot-Answered none backed =
            elim (Bool-cases (within failure_backoff_ms now slot.state.failed_at_ms)) [
              | inl backing ↦ rw (backing, looked_up) (nothing-Answered c h)
              | inr due ↦ rw due refetch-Answered
            ]
        lookup_slot-Answered (some e) backed =
            elim (Bool-cases (ltb now (saturating_add e.fetched_at_ms e.ttl_ms))) [
              | inl fresh ↦
                  rw (fresh, looked_up)
                    (served-Answered e.fetched_at_ms e.keys _
                      (Held-counts Serves init stale_ms c _ refl refl refl h)
                      (h.slotted source slot found) backed.0 (ground (arith, fresh, backed.1)))
              | inr old ↦
                  elim (Bool-cases (within failure_backoff_ms now slot.state.failed_at_ms)) [
                    | inl backing ↦
                        rw (old, backing)
                          (stale_held-Answered (some e) c h (h.slotted source slot found) backed)
                    | inr due ↦ rw (old, due) refetch-Answered
                  ]
            ]

        after_forced-Answered :
            (got : Fetched)
            → web slot.target ≡ got
            → let st : SlotState = record slot.state { last_forced_ms = some now } in
              Answered source now
                (refetched (after_forced source slot st now (counted_fetch source got c) got).0)
                (after_forced source slot st now (counted_fetch source got c) got).1
        unfolding after_forced counted_fetch
        after_forced-Answered (ok (ks, max_age)) e =
            let st : SlotState = record slot.state { last_forced_ms = some now } in
            let serves = honest slot.target ks max_age e in
            let counted = counted_fetch source (ok (ks, max_age)) c in
            served-Answered now ks _
              (Held-put_state Serves init stale_ms source slot (store counted (ks, max_age) now st)
                counted (Held-counts Serves init stale_ms c counted refl refl refl h) found
                (Backed-store Serves init stale_ms counted (ks, max_age) now st slot.target h.short
                  serves))
              (h.slotted source slot found) serves (omega arith)
        after_forced-Answered (err problem) e =
            let st : SlotState = record slot.state { last_forced_ms = some now } in
            let counted = counted_fetch source (err problem) c in
            nothing-Answered _ (
              Held-put_state Serves init stale_ms source slot
                (record st { failed_at_ms = some now }) counted
                (Held-counts Serves init stale_ms c counted refl refl refl h) found
                (h.slotted source slot found).backed)

        pub force_slot-Answered :
            Answered source now
              (refetched (force_slot web source slot now c).0)
              (force_slot web source slot now c).1
        unfolding force_slot
        force_slot-Answered =
            elim (Bool-cases (within unknown_kid_refetch_ms now slot.state.last_forced_ms)) [
              | inl recent ↦ rw (recent, refetched) (nothing-Answered c h)
              | inr due ↦ rw due (after_forced-Answered (web slot.target) refl)
            ]
