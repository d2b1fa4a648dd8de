-- ===== src/Keyless/Jwks.antt =====
-- The cache of the issuers' keys: `JwksCache` of crates/acdp-registry-core/src/keyless/jwks.rs. What a fetch
-- of a target answers is an argument, and so is the clock. `log` lists the fetches made, newest first: what
-- the network sees of the cache. Logging, metrics and the fetch client's bounds are left out.
pub mod Calls
pub mod Spent
pub mod Traffic
pub mod Slots
pub mod Copies
pub mod Answers
pub mod Freshness
use acdp_registry_rs.Keyless.Types.{source_eq}
use acdp_registry_rs.Keyless.Types.{
  spiffe_source, oidc_source, SpiffeDomain, KeySource, KeylessConfig, OidcIssuer, KeySet,
}
use acdp_registry_rs.Prelude.{
  true, max, ltb, [], lookup, false, err, insert, ok, if◌then◌else◌, ◌∷◌, some, ◌*◌, ◌+◌, Bool,
  List, min, HashMap, none, Option, Result, String, ℕ,
}

abbrev pub unknown_kid_refetch_ms : ℕ
unknown_kid_refetch_ms = 30000

abbrev pub failure_backoff_ms : ℕ
failure_backoff_ms = 30000

abbrev pub min_ttl_seconds : ℕ
min_ttl_seconds = 60

abbrev pub max_ttl_seconds : ℕ
max_ttl_seconds = 3600

pub data IssuerUnreachable : Type 0 where
  unreachable : IssuerUnreachable

pub data Target : Type 0 where
  jwks : String → Target
  discovery : String → Target

pub data FetchError : Type 0 where
  policy : FetchError
  transport : FetchError
  status : ℕ → FetchError
  too_large : FetchError
  bad_document : FetchError
  bad_discovery : FetchError

-- The keys, and the lifetime that the response allows.
abbrev pub Fetched : Type 0
Fetched = Result FetchError (KeySet × Option ℕ)

pub record Counters : Type 0 where
  pub fetches : ℕ
  pub fetch_failures : ℕ
  pub hits : ℕ
  pub stale_served : ℕ

pub record Entry : Type 0 where
  pub keys : KeySet
  pub fetched_at_ms : ℕ
  pub ttl_ms : ℕ

pub record SlotState : Type 0 where
  pub entry : Option Entry
  pub last_forced_ms : Option ℕ
  pub failed_at_ms : Option ℕ

abbrev pub default_state : SlotState
default_state = record { entry = none; last_forced_ms = none; failed_at_ms = none }

pub record Slot : Type 0 where
  pub target : Target
  pub state : SlotState

pub record JwksCache : Type 0 where
  pub slots : HashMap KeySource Slot
  pub ttl_seconds : ℕ
  pub max_stale_ms : ℕ
  pub counters : Counters
  pub log : List KeySource

abbrev pub i64_max : ℕ
i64_max = 9223372036854775807

abbrev pub u64_max : ℕ
u64_max = 18446744073709551615

-- `i64::saturating_add`, of numbers that are not negative
abbrev pub saturating_add : ℕ → ℕ → ℕ
saturating_add a b = min (a + b) i64_max

unfoldable pub secs_to_ms : ℕ → ℕ
secs_to_ms s = min (min (s * 1000) u64_max) i64_max

abbrev pub oidc_target : OidcIssuer → Option String → Target
oidc_target o (some uri) = jwks uri
oidc_target o none = discovery o.issuer

abbrev pub new_slot : Target → Slot
new_slot target = record { target = target; state = default_state }

abbrev pub add_oidc : List OidcIssuer → HashMap KeySource Slot → HashMap KeySource Slot
add_oidc [] slots = slots
add_oidc (o ∷ rest) slots =
    add_oidc rest (insert (oidc_source o.issuer) (new_slot (oidc_target o o.jwks_uri)) slots)

abbrev pub add_spiffe : List SpiffeDomain → HashMap KeySource Slot → HashMap KeySource Slot
add_spiffe [] slots = slots
add_spiffe (d ∷ rest) slots =
    add_spiffe rest
      (insert (spiffe_source d.trust_domain) (new_slot (jwks d.bundle_endpoint)) slots)

unfoldable pub new_cache : KeylessConfig → JwksCache
new_cache cfg = record {
  slots =
      if cfg.enabled
      then add_spiffe cfg.spiffe_trust_domains (add_oidc cfg.oidc_issuers [])
      else [];
  ttl_seconds = min cfg.jwks_cache_ttl_seconds max_ttl_seconds;
  max_stale_ms = secs_to_ms cfg.jwks_max_stale_seconds;
  counters = record { fetches = 0; fetch_failures = 0; hits = 0; stale_served = 0 };
  log = [];
}

-- A copy that is still usable in an outage, and the count of those.
unfoldable pub stale : Entry → ℕ → JwksCache → Option KeySet × JwksCache
stale e now c =
    let until = saturating_add (saturating_add e.fetched_at_ms e.ttl_ms) c.max_stale_ms in
    if ltb now until
    then (
      some e.keys,
      record c { counters = record c.counters { stale_served = c.counters.stale_served + 1 } },
    )
    else (none, c)

-- `m.clamp(MIN_TTL_SECONDS, MAX_TTL_SECONDS)`, and the configured bound
abbrev pub ttl_of : ℕ → Option ℕ → ℕ
ttl_of ttl_seconds none = ttl_seconds
ttl_of ttl_seconds (some m) = min ttl_seconds (min (max m min_ttl_seconds) max_ttl_seconds)

unfoldable pub store : JwksCache → KeySet × Option ℕ → ℕ → SlotState → SlotState
unfolding secs_to_ms
store c fresh now st = record st {
  entry = some (record {
    keys = fresh.0;
    fetched_at_ms = now;
    ttl_ms = secs_to_ms (ttl_of c.ttl_seconds fresh.1);
  });
  failed_at_ms = none;
}

abbrev pub is_failure : Fetched → Bool
is_failure (ok fresh) = false
is_failure (err e) = true

-- `fetch`, counted.
unfoldable pub counted_fetch : KeySource → Fetched → JwksCache → JwksCache
counted_fetch source got c = record c {
  counters = record c.counters {
    fetches = c.counters.fetches + 1;
    fetch_failures =
        if is_failure got then c.counters.fetch_failures + 1 else c.counters.fetch_failures;
  };
  log = source ∷ c.log;
}

abbrev pub put_state : KeySource → Slot → SlotState → JwksCache → JwksCache
put_state source slot st c = record c { slots = insert source (record slot { state = st }) c.slots }

abbrev pub Answer : Type 0 → Type 0
Answer A = Result IssuerUnreachable A × JwksCache

-- A usable stale copy, or none.
abbrev pub stale_answer : Option KeySet × JwksCache → Answer KeySet
stale_answer (some keys, c) = (ok keys, c)
stale_answer (none, c) = (err unreachable, c)

abbrev pub stale_held : Option Entry → ℕ → JwksCache → Answer KeySet
stale_held none now c = (err unreachable, c)
stale_held (some e) now c = stale_answer (stale e now c)

-- What a lookup does with the answer of its fetch.
unfoldable pub after_fetch : KeySource → Slot → ℕ → JwksCache → Fetched → Answer KeySet
after_fetch source slot now c (ok fresh) =
    (ok fresh.0, put_state source slot (store c fresh now slot.state) c)
after_fetch source slot now c (err e) =
    stale_held slot.state.entry now
      (put_state source slot (record slot.state { failed_at_ms = some now }) c)

abbrev pub refetch : (Target → Fetched) → KeySource → Slot → ℕ → JwksCache → Answer KeySet
refetch web source slot now c =
    let got = web slot.target in after_fetch source slot now (counted_fetch source got c) got

-- Whether an instant is less than a window after the one that is kept.
abbrev pub within : ℕ → ℕ → Option ℕ → Bool
within window now none = false
within window now (some t) = ltb now (saturating_add t window)

-- The lookup in a slot, by the copy that it holds.
unfoldable pub lookup_slot :
    (Target → Fetched) → KeySource → Slot → ℕ → JwksCache → Option Entry → Answer KeySet
lookup_slot web source slot now c none =
    if within failure_backoff_ms now slot.state.failed_at_ms
    then (err unreachable, c)
    else refetch web source slot now c
lookup_slot web source slot now c (some e) =
    if ltb now (saturating_add e.fetched_at_ms e.ttl_ms)
    then (ok e.keys, record c { counters = record c.counters { hits = c.counters.hits + 1 } })
    else if within failure_backoff_ms now slot.state.failed_at_ms
    then stale_answer (stale e now c)
    else refetch web source slot now c

abbrev pub in_slot {ℓ} : {A : Type ℓ} → Option Slot → A → (Slot → A) → A
in_slot none missing found = missing
in_slot (some slot) missing found = found slot

unfoldable pub keys : (Target → Fetched) → KeySource → ℕ → JwksCache → Answer KeySet
keys web source now c =
    in_slot (lookup source c.slots) (err unreachable, c)
      (λ slot. lookup_slot web source slot now c slot.state.entry)

-- What a forced refetch does with its answer.
unfoldable pub after_forced :
    KeySource → Slot → SlotState → ℕ → JwksCache → Fetched → Answer (Option KeySet)
after_forced source slot st now c (ok fresh) =
    (ok (some fresh.0), put_state source slot (store c fresh now st) c)
after_forced source slot st now c (err e) =
    (err unreachable, put_state source slot (record st { failed_at_ms = some now }) c)

unfoldable pub force_slot :
    (Target → Fetched) → KeySource → Slot → ℕ → JwksCache → Answer (Option KeySet)
force_slot web source slot now c =
    if within unknown_kid_refetch_ms now slot.state.last_forced_ms
    then (ok none, c)
    else let got = web slot.target in
      after_forced source slot (record slot.state { last_forced_ms = some now }) now
        (counted_fetch source got c) got

unfoldable pub refresh_for_unknown_kid :
    (Target → Fetched) → KeySource → ℕ → JwksCache → Answer (Option KeySet)
refresh_for_unknown_kid web source now c =
    in_slot (lookup source c.slots) (err unreachable, c) (λ slot. force_slot web source slot now c)
