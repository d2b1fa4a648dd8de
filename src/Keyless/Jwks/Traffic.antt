-- ===== src/Keyless/Jwks/Traffic.antt =====
-- How often the cache fetches a source, whatever tokens name.
use acdp_registry_rs.Keyless.Jwks.Spent.{
  lookup_slot-Paid, force_slot-Paid, fetches_of, load, Paid, InWindow, left_in,
}
use acdp_registry_rs.Keyless.Jwks.Calls.{Call, run, call}
use acdp_registry_rs.Keyless.Types.{source_eq}
use acdp_registry_rs.Keyless.Jwks.{
  in_slot, min_ttl_seconds, keys, Slot, refresh_for_unknown_kid, JwksCache,
}
use acdp_registry_rs.Keyless.Types.{KeySource}
use acdp_registry_rs.Prelude.{
  All, Option-cases, refl, inr, inl, [], arith, Bool-cases, none, lookup, ◌+◌, some, ◌∷◌, ◌≤◌,
  Option, List, ℕ,
}

call-Paid :
    (a b : ℕ) (s : KeySource) (k : Call) (c : JwksCache)
    → InWindow a b k.now
    → min_ttl_seconds ≤ c.ttl_seconds
    → Paid b s c (call k c)
unfolding call keys refresh_for_unknown_kid
call-Paid a b s k c w long = elim (Option-cases (lookup k.source c.slots)) [
  | inl missing ↦ elim (Bool-cases k.unknown_kid) [
    | inl forced ↦ rw (forced, missing, in_slot) same
    | inr looked ↦ rw (looked, missing, in_slot) same
  ]
  | inr (slot, found) ↦ elim (Bool-cases k.unknown_kid) [
    | inl forced ↦
        rw (forced, found, in_slot) (force_slot-Paid a b k.now w s k.source slot c found long k.web)
    | inr looked ↦
        rw (looked, found, in_slot)
          (lookup_slot-Paid a b k.now w s k.source slot c found long k.web slot.state.entry refl)
  ]
]
  where
    same : Paid b s c c
    same = record { paid = omega arith; same_ttl = refl }

run-Paid :
    (a b : ℕ) (s : KeySource) (calls : List Call) (c : JwksCache)
    → All (λ (k : Call). InWindow a b k.now) calls
    → min_ttl_seconds ≤ c.ttl_seconds
    → load b s (run calls c) ≤ load b s c
unfolding run
run-Paid a b s [] c w long = omega arith
run-Paid a b s (k ∷ calls) c w long =
    let step = call-Paid a b s k c w.0 long in
    omega
      (arith, step.paid, run-Paid a b s calls (call k c) w.1 (omega (arith, long, step.same_ttl)))

left-le : (b : ℕ) (o : Option Slot) → left_in b o ≤ 2
left-le b none = omega arith
left-le b (some slot) = ground arith

-- In a cache whose configured lifetime is at least a minute, as the configuration asks: whatever tokens name,
-- however the fetches answer, and in whatever order the calls are made, a source is fetched at most twice
-- within 30 seconds, as long as the clock stays below its largest value.
pub fetches_of-run :
    (a b : ℕ) (s : KeySource) (calls : List Call) (c : JwksCache)
    → All (λ (k : Call). InWindow a b k.now) calls
    → min_ttl_seconds ≤ c.ttl_seconds
    → fetches_of s (run calls c).log ≤ fetches_of s c.log + 2
fetches_of-run a b s calls c w long =
    omega (arith, run-Paid a b s calls c w long, left-le b (lookup s c.slots))
