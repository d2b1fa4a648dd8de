-- ===== src/Keyless/Jwks/Freshness.antt =====
-- Where the keys that the cache hands out come from, and how old they are.
use acdp_registry_rs.Keyless.Jwks.Calls.{run, call, Call}
use acdp_registry_rs.Keyless.Jwks.Copies.{Current, Held}
use acdp_registry_rs.Keyless.Jwks.Answers.{
  lookup_slot-Answered, force_slot-Answered, Answered, looked_up, refetched,
}
use acdp_registry_rs.Keyless.Jwks.Slots.{
  Listed, max_stale_ms-new_cache, ttl_seconds-new_cache, new_cache-Configured,
}
use acdp_registry_rs.Keyless.Jwks.{
  in_slot, new_cache, keys, Slot, refresh_for_unknown_kid, JwksCache, Target,
}
use acdp_registry_rs.Keyless.Types.{KeylessConfig, KeySource, KeySet, source_eq}
use acdp_registry_rs.Prelude.{
  ◌*◌, true, [], ◌∷◌, All, List, Option-cases, refl, inr, inl, arith, ◌+◌, Bool-cases, ◌<◌, lookup,
  none, some, if◌then◌else◌, ◌≡◌, ok, HashMap, Option, ℕ,
}

unfoldable pub handed_out : Call → JwksCache → Option KeySet
handed_out k c =
    if k.unknown_kid
    then refetched (refresh_for_unknown_kid k.web k.source k.now c).0
    else looked_up (keys k.web k.source k.now c).0

-- `Serves target t ks`: the target serves the keys `ks` at the instant `t`.
module _ (Serves : Target → ℕ → KeySet → Type 0) where
  -- What a call's fetches answer is what the targets serve then.
  abbrev pub Honest : Call → Type 0
  Honest k =
      (target : Target) (ks : KeySet) (max_age : Option ℕ)
      → k.web target ≡ ok (ks, max_age)
      → Serves target k.now ks

  module _ (init : HashMap KeySource Slot) (stale_ms : ℕ) where
    call-Answered :
        (k : Call) (c : JwksCache)
        → Held Serves init stale_ms c
        → Honest k
        → Answered Serves init stale_ms k.source k.now (handed_out k c) (call k c)
    unfolding call handed_out keys refresh_for_unknown_kid
    call-Answered k c h honest = elim (Option-cases (lookup k.source c.slots)) [
      | inl missing ↦ elim (Bool-cases k.unknown_kid) [
        | inl forced ↦ rw (forced, missing, in_slot, refetched) nothing
        | inr looked ↦ rw (looked, missing, in_slot, looked_up) nothing
      ]
      | inr (slot, found) ↦ elim (Bool-cases k.unknown_kid) [
        | inl forced ↦
            rw (forced, found, in_slot)
              (force_slot-Answered Serves init stale_ms k.source k.now slot c h found k.web honest)
        | inr looked ↦
            rw (looked, found, in_slot)
              (lookup_slot-Answered Serves init stale_ms k.source k.now slot c h found k.web honest
                slot.state.entry (h.slotted k.source slot found).backed)
      ]
    ]
      where
        nothing : Answered Serves init stale_ms k.source k.now none c
        nothing = record { held = h; current = λ ks e. cc }

    run-Held :
        (calls : List Call) (c : JwksCache)
        → Held Serves init stale_ms c
        → All Honest calls
        → Held Serves init stale_ms (run calls c)
    unfolding run
    run-Held [] c h honest = h
    run-Held (k ∷ calls) c h honest =
        run-Held calls (call k c) (call-Answered k c h honest.0).held honest.1

  new_cache-Held :
      (cfg : KeylessConfig)
      → Held Serves (new_cache cfg).slots (new_cache cfg).max_stale_ms (new_cache cfg)
  new_cache-Held cfg = record {
    slotted = λ source slot at. record {
      first = slot;
      configured = at;
      same_target = refl;
      backed = rw (new_cache-Configured cfg source slot at).empty tt;
    };
    short = ttl_seconds-new_cache cfg;
    same_stale = refl;
  }

  -- The keys were served by a target that an enabled configuration lists for the source, less than an hour and
  -- the configured stale time ago.
  pub record FromIssuer (cfg : KeylessConfig) (source : KeySource) (now : ℕ) (ks : KeySet)
      : Type 0 where
    pub target : Target
    pub enabled : cfg.enabled ≡ true
    pub listed : Listed cfg source target
    pub served_at : ℕ
    pub served : Serves target served_at ks
    pub recent : now < served_at + 3600000 + cfg.jwks_max_stale_seconds * 1000

  Current-FromIssuer :
      (cfg : KeylessConfig) (source : KeySource) (now : ℕ) (ks : KeySet)
      → Current Serves (new_cache cfg).slots (new_cache cfg).max_stale_ms source now ks
      → FromIssuer cfg source now ks
  Current-FromIssuer cfg source now ks h =
      let slot = new_cache-Configured cfg source h.slot h.configured in
      record {
        target = h.slot.target;
        enabled = slot.enabled;
        listed = slot.listed;
        served_at = h.served_at;
        served = h.served;
        recent = omega (arith, h.recent, max_stale_ms-new_cache cfg);
      }

  -- Where every fetch answers what its target serves at the time: the keys that a cache hands out, on a lookup or
  -- for an unknown `kid`, after any calls, were served by a target that the enabled configuration lists for the
  -- source, less than an hour and the configured stale time before.
  pub handed_out-FromIssuer :
      (cfg : KeylessConfig) (calls : List Call) (k : Call) {ks : KeySet}
      → All Honest calls
      → Honest k
      → handed_out k (run calls (new_cache cfg)) ≡ some ks
      → FromIssuer cfg k.source k.now ks
  handed_out-FromIssuer cfg calls k {ks} honest last out =
      let init = (new_cache cfg).slots in
      let stale_ms = (new_cache cfg).max_stale_ms in
      Current-FromIssuer cfg k.source k.now ks (
        (call-Answered init stale_ms k (run calls (new_cache cfg))
            (run-Held init stale_ms calls (new_cache cfg) (new_cache-Held cfg) honest) last).current
          ks out)
