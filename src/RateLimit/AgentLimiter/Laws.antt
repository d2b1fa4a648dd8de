-- ===== src/RateLimit/AgentLimiter/Laws.antt =====
-- What one call does to every key's budget, with the pruning of the map out of sight, and the
-- well-formedness of the limiter.
use acdp_registry_rs.Prelude.{
  ℕ, ◌+◌, ◌≤◌, ◌<◌, ◌≡◌, refl, String, Option, none, some, lookup, ltb, ◌==◌, string_eq,
  if◌then◌else◌, Distinct, insert-Distinct, retain-Distinct, lookup-insert, lookup-retain, length,
  length-insert-le, length-retain-le, keep, arith, eq_iff, inl, inr, Bool-cases, min,
}
use acdp_registry_rs.RateLimit.AgentLimiter.{
  peek_bucket, Instant, prune_at, u32_max, Bucket, AgentRateLimiter, is_current, rolled, charge,
  or_fresh, bucket_of, prune_if_due, check_at, record_at, peek_at, set_bucket, retry_after_secs,
}

-- One bucket for each key; the map is within the size at which it is next pruned.
pub record WellFormed (l : AgentRateLimiter) : Type 0 where
  pub distinct : Distinct l.buckets
  pub within : length l.buckets ≤ l.prune_threshold
  pub floor : prune_at ≤ l.prune_threshold

-- A bucket that is dropped at `now` reads as a fresh one at any later instant.
dropped_reads_fresh :
    (now later : Instant) (o : Option Bucket)
    → now ≤ later
    → rolled later (or_fresh later (keep (is_current now) o)) ≡ rolled later (or_fresh later o)
dropped_reads_fresh now later none h = refl
dropped_reads_fresh now later (some b) h = ground arith

bucket_of-prune_if_due :
    (k : String) (now later : Instant) (l : AgentRateLimiter)
    → Distinct l.buckets
    → now ≤ later
    → bucket_of k later (prune_if_due now l) ≡ bucket_of k later l
unfolding prune_if_due
bucket_of-prune_if_due k now later l d h =
    elim (Bool-cases (ltb (length l.buckets) l.prune_threshold)) [
      | inl roomy ↦ rw roomy refl
      | inr due ↦ rw due (
          rw (lookup-retain (is_current now) k l.buckets d)
            (dropped_reads_fresh now later (lookup k l.buckets) h))
    ]

limit-prune_if_due : (now : Instant) (l : AgentRateLimiter) → (prune_if_due now l).limit ≡ l.limit
unfolding prune_if_due
limit-prune_if_due now l = ground arith

prune_if_due-Distinct :
    (now : Instant) (l : AgentRateLimiter)
    → Distinct l.buckets
    → Distinct (prune_if_due now l).buckets
unfolding prune_if_due
prune_if_due-Distinct now l d = elim (Bool-cases (ltb (length l.buckets) l.prune_threshold)) [
  | inl roomy ↦ rw roomy d
  | inr due ↦ rw due (retain-Distinct (is_current now) l.buckets d)
]

bucket_of-set_bucket :
    (k j : String) (b : Bucket) (later : Instant) (l : AgentRateLimiter)
    → bucket_of j later (set_bucket k b l)
      ≡ (if k == j then rolled later b else bucket_of j later l)
bucket_of-set_bucket k j b later l = rw (lookup-insert k j b l.buckets) (ground (arith, eq_iff k j))

-- The bucket that `check_at` leaves for the caller.
abbrev pub charged : String → Instant → AgentRateLimiter → Bucket
charged k now l = (charge l.limit now (bucket_of k now l)).1

-- With one bucket for each key, `check_at` answers by the caller's bucket in its current window, and at
-- every later instant it shows only in that bucket: no other key's budget moves, whether or not the map
-- was pruned.
pub check_at_lem :
    (k j : String) (now later : Instant) (l : AgentRateLimiter)
    → Distinct l.buckets
    → now ≤ later
    → ((check_at k now l).0 ≡ (charge l.limit now (bucket_of k now l)).0)
      × (bucket_of j later (check_at k now l).1
          ≡ (if k == j then rolled later (charged k now l) else bucket_of j later l))
unfolding check_at
check_at_lem k j now later l d h =
    rw (limit-prune_if_due now l, bucket_of-prune_if_due k now now l d (omega arith))
      (
        refl,
        rw
            (
              bucket_of-set_bucket k j (charged k now l) later (prune_if_due now l),
              bucket_of-prune_if_due j now later l d h,
            )
            refl,
      )

abbrev pub counted : Bucket → Bucket
counted b = record b { count = min (b.count + 1) u32_max }

-- `record_at` adds one to the caller's count in its current window, up to the largest `u32`, and moves no
-- other key's budget.
pub record_at_lem :
    (k j : String) (now later : Instant) (l : AgentRateLimiter)
    → Distinct l.buckets
    → now ≤ later
    → bucket_of j later (record_at k now l)
      ≡ (if k == j then rolled later (counted (bucket_of k now l)) else bucket_of j later l)
unfolding record_at
record_at_lem k j now later l d h = rw (bucket_of-prune_if_due k now now l d (omega arith)) (
    rw
      (
        bucket_of-set_bucket k j (counted (bucket_of k now l)) later (prune_if_due now l),
        bucket_of-prune_if_due j now later l d h,
      )
      refl)

prune_if_due-room :
    (now : Instant) (l : AgentRateLimiter)
    → WellFormed l
    → (length (prune_if_due now l).buckets < (prune_if_due now l).prune_threshold)
      × (prune_at ≤ (prune_if_due now l).prune_threshold)
unfolding prune_if_due
prune_if_due-room now l w = ground (arith, length-retain-le (is_current now) l.buckets)

set_bucket-WellFormed :
    (k : String) (b : Bucket) (now : Instant) (l : AgentRateLimiter)
    → WellFormed l
    → WellFormed (set_bucket k b (prune_if_due now l))
set_bucket-WellFormed k b now l w =
    let (room, floor) = prune_if_due-room now l w in
    record {
      distinct = insert-Distinct k b _ (prune_if_due-Distinct now l w.distinct);
      within = omega (arith, length-insert-le {0, 0} k b (prune_if_due now l).buckets);
      floor = floor;
    }

-- `check_at` keeps one bucket for each key, and the map within its prune threshold.
pub check_at-WellFormed :
    (k : String) (now : Instant) (l : AgentRateLimiter)
    → WellFormed l
    → WellFormed (check_at k now l).1
unfolding check_at
check_at-WellFormed k now l w = set_bucket-WellFormed k _ now l w

pub record_at-WellFormed :
    (k : String) (now : Instant) (l : AgentRateLimiter)
    → WellFormed l
    → WellFormed (record_at k now l)
unfolding record_at
record_at-WellFormed k now l w = set_bucket-WellFormed k _ now l w

pub limit-check_at :
    (k : String) (now : Instant) (l : AgentRateLimiter) → (check_at k now l).1.limit ≡ l.limit
unfolding check_at
limit-check_at k now l = limit-prune_if_due now l

pub limit-record_at :
    (k : String) (now : Instant) (l : AgentRateLimiter) → (record_at k now l).limit ≡ l.limit
unfolding record_at
limit-record_at k now l = limit-prune_if_due now l

-- With one bucket for each key and a limit of at least one, `peek_at` foretells the answer of `check_at`
-- at the same instant.
pub peek_at-eq-check_at :
    (k : String) (now : Instant) (l : AgentRateLimiter)
    → Distinct l.buckets
    → 0 < l.limit
    → peek_at k now l ≡ (check_at k now l).0
unfolding peek_at
peek_at-eq-check_at k now l d pos =
    rw (check_at_lem k k now now l d (omega arith)).0 (foretells (lookup k l.buckets))
  where
    foretells :
        (o : Option Bucket)
        → peek_bucket l.limit now o ≡ (charge l.limit now (rolled now (or_fresh now o))).0
    foretells o = ground arith

-- A refusal tells the client to wait between one second and one minute.
pub retry_after_secs_bounds :
    (elapsed : ℕ) → (1 ≤ retry_after_secs elapsed) × (retry_after_secs elapsed ≤ 60)
unfolding retry_after_secs
retry_after_secs_bounds elapsed = omega arith
