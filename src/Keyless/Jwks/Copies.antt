-- ===== src/Keyless/Jwks/Copies.antt =====
-- What the entries of the cache are, relative to what the targets serve.
use mathlib.Core.Path.{subst}
use acdp_registry_rs.Keyless.Jwks.{
  max_ttl_seconds, secs_to_ms, put_state, store, SlotState, Entry, Slot, JwksCache, Target,
}
use acdp_registry_rs.Keyless.Types.{KeySource, KeySet, source_eq}
use acdp_registry_rs.Prelude.{
  ◌∙◌, some_injective, lookup-insert, inr, inl, arith, ◌==◌, ◌+◌, Bool-cases, ◌≤◌, ◌<◌, lookup,
  none, some, ◌≡◌, HashMap, Option, ℕ,
}

-- `Serves target t ks`: the target serves the keys `ks` at the instant `t`.
module _ (Serves : Target → ℕ → KeySet → Type 0) where
  module _ (init : HashMap KeySource Slot) (stale_ms : ℕ) where
    -- The keys were served by the target of the source's first slot, within an hour and the time allowed for a
    -- stale copy.
    pub record Current (source : KeySource) (now : ℕ) (ks : KeySet) : Type 0 where
      pub slot : Slot
      pub configured : lookup source init ≡ some slot
      pub served_at : ℕ
      pub served : Serves slot.target served_at ks
      pub recent : now < served_at + 3600000 + stale_ms

    abbrev pub Backed : Target → Option Entry → Type 0
    Backed target none = Unit
    Backed target (some e) = Serves target e.fetched_at_ms e.keys × (e.ttl_ms ≤ 3600000)

    pub record Slotted (source : KeySource) (slot : Slot) : Type 0 where
      pub first : Slot
      pub configured : lookup source init ≡ some first
      pub same_target : first.target ≡ slot.target
      pub backed : Backed slot.target slot.state.entry

    pub record Held (c : JwksCache) : Type 0 where
      pub slotted :
          (source : KeySource) (slot : Slot)
          → lookup source c.slots ≡ some slot
          → Slotted source slot
      pub short : c.ttl_seconds ≤ max_ttl_seconds
      pub same_stale : c.max_stale_ms ≡ stale_ms

    Slotted-state :
        (source : KeySource) (slot : Slot) (st : SlotState)
        → Slotted source slot
        → Backed slot.target st.entry
        → Slotted source (record slot { state = st })
    Slotted-state source slot st h backed = record {
      first = h.first;
      configured = h.configured;
      same_target = h.same_target;
      backed = backed;
    }

    pub Held-put_state :
        (source : KeySource) (slot : Slot) (st : SlotState) (c : JwksCache)
        → Held c
        → lookup source c.slots ≡ some slot
        → Backed slot.target st.entry
        → Held (put_state source slot st c)
    Held-put_state source slot st c h found backed = record {
      slotted = slotted;
      short = h.short;
      same_stale = h.same_stale;
    }
      where
        slotted :
            (s : KeySource) (x : Slot)
            → lookup s (put_state source slot st c).slots ≡ some x
            → Slotted s x
        slotted s x at =
            let put = lookup-insert source s (record slot { state = st }) c.slots in
            elim (Bool-cases (source == s)) [
              | inl same ↦
                  let here : some (record slot { state = st }) ≡ some x = rw (put, same) at at in
                  subst (λ y. Slotted y x) ((source_eq.beq_iff source s).0 same)
                    (subst (Slotted source) (some_injective here)
                      (Slotted-state source slot st (h.slotted source slot found) backed))
              | inr other ↦ h.slotted s x (rw (put, other) at at)
            ]

    pub Backed-store :
        (c : JwksCache) (fresh : KeySet × Option ℕ) (now : ℕ) (st : SlotState) (target : Target)
        → c.ttl_seconds ≤ max_ttl_seconds
        → Serves target now fresh.0
        → Backed target (store c fresh now st).entry
    unfolding store secs_to_ms
    Backed-store c (ks, none) now st target short serves = (serves, omega (arith, short))
    Backed-store c (ks, some m) now st target short serves = (serves, omega (arith, short))

    -- A cache that differs only in its counts and its log.
    pub Held-counts :
        (c d : JwksCache)
        → d.slots ≡ c.slots
        → d.ttl_seconds ≡ c.ttl_seconds
        → d.max_stale_ms ≡ c.max_stale_ms
        → Held c
        → Held d
    Held-counts c d slots ttl st h = record {
      slotted = λ source slot at. h.slotted source slot (rw slots at at);
      short = omega (arith, h.short, ttl);
      same_stale = st ∙ h.same_stale;
    }
