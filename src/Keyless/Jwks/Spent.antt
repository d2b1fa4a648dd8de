-- ===== src/Keyless/Jwks/Spent.antt =====
-- What a slot may still fetch before an instant, and that each operation pays for its fetch.
use mathlib.Core.Path.{subst}
-- How often the cache fetches a source, whatever tokens name.
use acdp_registry_rs.Keyless.Types.{source_eq}
use acdp_registry_rs.Keyless.Jwks.{
  after_forced, put_state, force_slot, lookup_slot, after_fetch, counted_fetch, min_ttl_seconds,
  Fetched, i64_max, stale_held, failure_backoff_ms, saturating_add, Target, secs_to_ms, within,
  Slot, unknown_kid_refetch_ms, Entry, store, stale, SlotState, JwksCache,
}
use acdp_registry_rs.Keyless.Types.{KeySet, KeySource}
use acdp_registry_rs.Prelude.{
  sym, true, lookup-insert, err, ok, refl, inr, inl, ltb, [], arith, Bool-cases, false, none, ◌≡◌,
  lookup, ◌==◌, ◌+◌, ◌<◌, leb, max, some, ◌∷◌, ◌≤◌, if◌then◌else◌, Option, List, ℕ,
}

-- How many of the fetches are of a source.
abbrev pub fetches_of : KeySource → List KeySource → ℕ
fetches_of source [] = 0
fetches_of source (s ∷ log) = (if s == source then 1 else 0) + fetches_of source log

-- The instants until which the slot does not fetch on a lookup, and on an unknown `kid`.
abbrev pub until_of : Option ℕ → ℕ → ℕ
until_of none window = 0
until_of (some t) window = saturating_add t window

abbrev pub fresh_until : Option Entry → ℕ
fresh_until none = 0
fresh_until (some e) = saturating_add e.fetched_at_ms e.ttl_ms

abbrev pub quiet_until : SlotState → ℕ
quiet_until st = max (fresh_until st.entry) (until_of st.failed_at_ms failure_backoff_ms)

abbrev pub forced_until : SlotState → ℕ
forced_until st = until_of st.last_forced_ms unknown_kid_refetch_ms

-- What a slot may still fetch before `b`.
abbrev pub cost : ℕ → ℕ → ℕ
cost b until = if leb b until then 0 else 1

abbrev pub left : ℕ → SlotState → ℕ
left b st = cost b (quiet_until st) + cost b (forced_until st)

abbrev pub left_in : ℕ → Option Slot → ℕ
left_in b none = 0
left_in b (some slot) = left b slot.state

-- What is fetched and what may still be.
abbrev pub load : ℕ → KeySource → JwksCache → ℕ
load b source c = fetches_of source c.log + left_in b (lookup source c.slots)

within-until :
    (window now : ℕ) (o : Option ℕ) → within window now o ≡ false → until_of o window ≤ now
within-until window now none h = omega arith
within-until window now (some t) h = ground (arith, h)

stale_held-log :
    (o : Option Entry) (now : ℕ) (c : JwksCache)
    → ((stale_held o now c).1.log ≡ c.log)
      × ((stale_held o now c).1.slots ≡ c.slots)
      × ((stale_held o now c).1.ttl_seconds ≡ c.ttl_seconds)
unfolding stale
stale_held-log none now c = (refl, refl, refl)
stale_held-log (some e) now c =
    elim (Bool-cases
      (ltb now (saturating_add (saturating_add e.fetched_at_ms e.ttl_ms) c.max_stale_ms))) [
        | inl usable ↦ rw usable (refl, refl, refl)
        | inr gone ↦ rw gone (refl, refl, refl)
      ]

-- The window: no longer than a back-off, and before the end of time.
pub record InWindow (a b now : ℕ) : Type 0 where
  pub starts : a ≤ now
  pub ends : now < b
  pub narrow : b ≤ a + 30000
  pub early : b ≤ i64_max

left-store :
    (a b now : ℕ) (c : JwksCache) (fresh : KeySet × Option ℕ) (st : SlotState)
    → InWindow a b now
    → min_ttl_seconds ≤ c.ttl_seconds
    → left b (store c fresh now st) ≡ cost b (forced_until st)
unfolding store secs_to_ms
left-store a b now c (ks, none) st w long = ground (arith, w, long)
left-store a b now c (ks, some m) st w long = ground (arith, w, long)

left-failed :
    (a b now : ℕ) (st : SlotState)
    → InWindow a b now
    → left b (record st { failed_at_ms = some now }) ≡ cost b (forced_until st)
left-failed a b now st w = ground (arith, w)

-- A fetch of a source that leaves less to fetch is paid for.
load-put_state :
    (b : ℕ) (s source : KeySource) (slot : Slot) (st : SlotState) (got : Fetched) (c : JwksCache)
    → lookup source c.slots ≡ some slot
    → left b st + 1 ≤ left b slot.state
    → load b s (put_state source slot st (counted_fetch source got c)) ≤ load b s c
unfolding counted_fetch
load-put_state b s source slot st got c found less = elim (Bool-cases (source == s)) [
  | inl same ↦
      let here : lookup s c.slots ≡ some slot =
        subst (λ x. lookup x c.slots ≡ some slot) ((source_eq.beq_iff source s).0 same) found in
      rw (lookup-insert source s (record slot { state = st }) c.slots, same, here)
        (omega (arith, less))
  | inr other ↦
      rw (lookup-insert source s (record slot { state = st }) c.slots, other) (omega arith)
]

load-same :
    (b : ℕ) (s : KeySource) (c d : JwksCache)
    → d.log ≡ c.log
    → d.slots ≡ c.slots
    → load b s d ≡ load b s c
load-same b s c d logs slots = rw (logs, slots) refl

-- A call keeps what may still be fetched within its bound, and the configured lifetime.
pub record Paid (b : ℕ) (s : KeySource) (c d : JwksCache) : Type 0 where
  pub paid : load b s d ≤ load b s c
  pub same_ttl : d.ttl_seconds ≡ c.ttl_seconds

module _ (a b now : ℕ) (w : InWindow a b now) (s source : KeySource) (slot : Slot) (c : JwksCache)
    (found : lookup source c.slots ≡ some slot) (long : min_ttl_seconds ≤ c.ttl_seconds) where
  counted-left :
      (st : SlotState)
      → quiet_until slot.state ≤ now
      → left b st ≡ cost b (forced_until slot.state)
      → left b st + 1 ≤ left b slot.state
  counted-left st due e =
      let spent : cost b (quiet_until slot.state) ≡ 1 = ground (arith, w, due) in
      omega (arith, spent, e)

  after_fetch-Paid :
      (got : Fetched)
      → quiet_until slot.state ≤ now
      → Paid b s c (after_fetch source slot now (counted_fetch source got c) got).1
  unfolding after_fetch counted_fetch
  after_fetch-Paid (ok fresh) due =
      let st = store (counted_fetch source (ok fresh) c) fresh now slot.state in
      record {
        paid = load-put_state b s source slot st (ok fresh) c found (
            counted-left st due
              (left-store a b now (counted_fetch source (ok fresh) c) fresh slot.state w long));
        same_ttl = refl;
      }
  after_fetch-Paid (err e) due =
      let st : SlotState = record slot.state { failed_at_ms = some now } in
      let put = put_state source slot st (counted_fetch source (err e) c) in
      let (logs, slots, ttl) = stale_held-log slot.state.entry now put in
      let same = load-same b s put (stale_held slot.state.entry now put).1 logs slots in
      record {
        paid = rw same (
            load-put_state b s source slot st (err e) c found
              (counted-left st due (left-failed a b now slot.state w)));
        same_ttl = ttl;
      }

  unchanged-Paid :
      (d : JwksCache)
      → d.log ≡ c.log
      → d.slots ≡ c.slots
      → d.ttl_seconds ≡ c.ttl_seconds
      → Paid b s c d
  unchanged-Paid d logs slots ttl = record {
    paid = rw (load-same b s c d logs slots) (omega arith);
    same_ttl = ttl;
  }

  pub lookup_slot-Paid :
      (web : Target → Fetched) (o : Option Entry)
      → o ≡ slot.state.entry
      → Paid b s c (lookup_slot web source slot now c o).1
  unfolding lookup_slot
  lookup_slot-Paid web o same =
      elim (Bool-cases (within failure_backoff_ms now slot.state.failed_at_ms)) [
        | inl backing ↦ waits o backing
        | inr due ↦
            fetches o same due (within-until failure_backoff_ms now slot.state.failed_at_ms due)
      ]
    where
      waits :
          (o : Option Entry)
          → within failure_backoff_ms now slot.state.failed_at_ms ≡ true
          → Paid b s c (lookup_slot web source slot now c o).1
      waits none backing = rw backing (unchanged-Paid c refl refl refl)
      waits (some held) backing =
          elim (Bool-cases (ltb now (saturating_add held.fetched_at_ms held.ttl_ms))) [
            | inl fresh ↦ rw fresh (unchanged-Paid _ refl refl refl)
            | inr old ↦
                let (logs, slots, ttl) = stale_held-log (some held) now c in
                rw (old, backing) (unchanged-Paid _ logs slots ttl)
          ]

      fetches :
          (o : Option Entry)
          → o ≡ slot.state.entry
          → within failure_backoff_ms now slot.state.failed_at_ms ≡ false
          → until_of slot.state.failed_at_ms failure_backoff_ms ≤ now
          → Paid b s c (lookup_slot web source slot now c o).1
      fetches none same due ended =
          rw due (after_fetch-Paid (web slot.target) (rw (sym same) (omega (arith, ended))))
      fetches (some held) same due ended =
          elim (Bool-cases (ltb now (saturating_add held.fetched_at_ms held.ttl_ms))) [
            | inl fresh ↦ rw fresh (unchanged-Paid _ refl refl refl)
            | inr old ↦
                rw (old, due)
                  (after_fetch-Paid (web slot.target) (rw (sym same) (ground (arith, old, ended))))
          ]

  forced-left :
      (st : SlotState)
      → forced_until slot.state ≤ now
      → left b st ≡ cost b (forced_until (record slot.state { last_forced_ms = some now }))
      → left b st + 1 ≤ left b slot.state
  forced-left st due e =
      let spent : cost b (forced_until slot.state) ≡ 1 = ground (arith, w, due) in
      let kept : cost b (forced_until (record slot.state { last_forced_ms = some now })) ≡ 0 =
        ground (arith, w) in
      omega (arith, spent, e, kept)

  after_forced-Paid :
      (got : Fetched)
      → forced_until slot.state ≤ now
      → Paid b s c
          (after_forced source slot
            (record slot.state { last_forced_ms = some now })
            now
            (counted_fetch source got c)
            got).1
  unfolding after_forced counted_fetch
  after_forced-Paid (ok fresh) due =
      let st : SlotState = record slot.state { last_forced_ms = some now } in
      let counted = counted_fetch source (ok fresh) c in
      record {
        paid = load-put_state b s source slot (store counted fresh now st) (ok fresh) c found (
            forced-left (store counted fresh now st) due
              (left-store a b now counted fresh st w long));
        same_ttl = refl;
      }
  after_forced-Paid (err e) due =
      let st : SlotState = record slot.state { last_forced_ms = some now } in
      let failed : SlotState = record st { failed_at_ms = some now } in
      record {
        paid =
            load-put_state b s source slot failed (err e) c found
              (forced-left failed due (left-failed a b now st w));
        same_ttl = refl;
      }

  pub force_slot-Paid : (web : Target → Fetched) → Paid b s c (force_slot web source slot now c).1
  unfolding force_slot
  force_slot-Paid web =
      elim (Bool-cases (within unknown_kid_refetch_ms now slot.state.last_forced_ms)) [
        | inl recent ↦ rw recent (unchanged-Paid c refl refl refl)
        | inr due ↦ rw due (
            after_forced-Paid (web slot.target)
              (within-until unknown_kid_refetch_ms now slot.state.last_forced_ms due))
      ]
