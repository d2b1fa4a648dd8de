-- ===== src/RateLimit/AgentLimiter.antt =====
-- `AgentRateLimiter` and `PublishCharge` of crates/acdp-registry-core/src/rate_limit.rs. An `Instant` and a
-- `Duration` count nanoseconds; `duration_since` and `saturating_sub` stop at 0, as `-` does. The two
-- mutexes are the fields `buckets` and `global`.
pub mod Laws
pub mod Budget
pub mod Spent
use acdp_registry_rs.Prelude.{
  not, ℕ, ◌+◌, ◌-◌, ◌*◌, ◌/◌, min, max, String, Bool, true, false, Option, none, some, HashMap,
  lookup, insert, retain, Result, ok, err, ltb, leb, ◌==◌, nat_eq, string_eq, if◌then◌else◌, length,
  [],
}
use acdp_registry_rs.Time.{nanos_per_second}

abbrev pub Instant : Type 0
Instant = ℕ

abbrev pub window : ℕ
window = 60 * nanos_per_second

abbrev pub prune_at : ℕ
prune_at = 4096

abbrev pub u32_max : ℕ
u32_max = 4294967295

unfoldable pub retry_after_secs : ℕ → ℕ
retry_after_secs elapsed = max ((window - elapsed) / nanos_per_second) 1

pub record Bucket : Type 0 where
  pub window_start : Instant
  pub count : ℕ

pub record AgentRateLimiter : Type 0 where
  pub limit : ℕ
  pub buckets : HashMap String Bucket
  pub prune_threshold : ℕ
  pub global_limit : ℕ
  pub global : Bucket

unfoldable pub with_global_ceiling : ℕ → ℕ → Instant → AgentRateLimiter
with_global_ceiling limit_per_minute global_limit_per_minute now = record {
  limit = limit_per_minute;
  buckets = [];
  prune_threshold = prune_at;
  global_limit = global_limit_per_minute;
  global = record { window_start = now; count = 0 };
}

unfoldable pub new : ℕ → Instant → AgentRateLimiter
unfolding with_global_ceiling
new limit_per_minute now = with_global_ceiling limit_per_minute u32_max now

abbrev pub is_expired : Instant → Bucket → Bool
is_expired now b = leb window (now - b.window_start)

-- The bucket with its window rolled over where that has passed.
abbrev pub rolled : Instant → Bucket → Bucket
rolled now b = if is_expired now b then record { window_start = now; count = 0 } else b

-- What a charge under `limit` answers for a rolled bucket, and the bucket it leaves.
abbrev pub charge : ℕ → Instant → Bucket → Result ℕ (Unit {0}) × Bucket
charge limit now b =
    if leb limit b.count
    then (err (retry_after_secs (now - b.window_start)), b)
    else (ok tt, record b { count = b.count + 1 })

unfoldable pub check_global_at : Instant → AgentRateLimiter → Result ℕ (Unit {0}) × AgentRateLimiter
check_global_at now l =
    if l.global_limit == u32_max
    then (ok tt, l)
    else let (answer, b) = charge l.global_limit now (rolled now l.global) in
      (answer, record l { global = b })

abbrev peek_bucket : ℕ → Instant → Option Bucket → Result ℕ (Unit {0})
peek_bucket limit now none = ok tt
peek_bucket limit now (some b) =
    if is_expired now b
    then ok tt
    else if leb limit b.count
    then err (retry_after_secs (now - b.window_start))
    else ok tt

-- Reads only: no window rolls over and no bucket appears.
unfoldable pub peek_at : String → Instant → AgentRateLimiter → Result ℕ (Unit {0})
peek_at agent_id now l = peek_bucket l.limit now (lookup agent_id l.buckets)

abbrev pub is_current : Instant → Bucket → Bool
is_current now b = ltb (now - b.window_start) window

-- `usize` arithmetic on the size of a map in memory does not saturate.
unfoldable pub prune_if_due : Instant → AgentRateLimiter → AgentRateLimiter
prune_if_due now l =
    if ltb (length l.buckets) l.prune_threshold
    then l
    else let kept = retain (is_current now) l.buckets in
      record l { buckets = kept; prune_threshold = max (length kept * 2) prune_at }

-- `entry(..).or_insert(..)`
abbrev pub or_fresh : Instant → Option Bucket → Bucket
or_fresh now none = record { window_start = now; count = 0 }
or_fresh now (some b) = b

-- The caller's bucket, rolled over, in the limiter as `prune_if_due` leaves it.
abbrev pub bucket_of : String → Instant → AgentRateLimiter → Bucket
bucket_of agent_id now l = rolled now (or_fresh now (lookup agent_id l.buckets))

abbrev pub set_bucket : String → Bucket → AgentRateLimiter → AgentRateLimiter
set_bucket agent_id b l = record l { buckets = insert agent_id b l.buckets }

unfoldable pub record_at : String → Instant → AgentRateLimiter → AgentRateLimiter
record_at agent_id now l =
    let pruned = prune_if_due now l in
    let b = bucket_of agent_id now pruned in
    set_bucket agent_id (record b { count = min (b.count + 1) u32_max }) pruned

unfoldable pub check_at :
    String → Instant → AgentRateLimiter → Result ℕ (Unit {0}) × AgentRateLimiter
check_at agent_id now l =
    let pruned = prune_if_due now l in
    let (answer, b) = charge pruned.limit now (bucket_of agent_id now pruned) in
    (answer, set_bucket agent_id b pruned)

-- The two scopes of `SharedRateLimitBackend`, and its answers.
pub data SharedLimitScope : Type 0 where
  per_ip global_scope : SharedLimitScope

pub data LimitDecision : Type 0 where
  allow : LimitDecision
  deny : ℕ → LimitDecision
  unavailable : LimitDecision

abbrev pub decided : Result ℕ (Unit {0}) → LimitDecision
decided (ok _) = allow
decided (err retry_after_seconds) = deny retry_after_seconds

abbrev pub decide : Result ℕ (Unit {0}) × AgentRateLimiter → LimitDecision × AgentRateLimiter
decide (answer, l) = (decided answer, l)

unfoldable pub check :
    SharedLimitScope → String → Instant → AgentRateLimiter → LimitDecision × AgentRateLimiter
check global_scope key now l = decide (check_global_at now l)
check per_ip key now l = decide (check_at key now l)

-- The drop guard. The limiter is shared, so it is passed to `drop`.
pub record PublishCharge : Type 0 where
  pub has_limiter : Bool
  pub agent_id : String
  pub armed : Bool

unfoldable pub new_charge : Bool → String → PublishCharge
new_charge has_limiter agent_id = record {
  has_limiter = has_limiter;
  agent_id = agent_id;
  armed = false;
}

unfoldable pub arm : PublishCharge → PublishCharge
arm c = record c { armed = true }

unfoldable pub drop_charge : PublishCharge → Instant → AgentRateLimiter → AgentRateLimiter
drop_charge c now l =
    if not c.armed then l else if c.has_limiter then record_at c.agent_id now l else l
