-- ===== src/RateLimit/AgentLimiter/Budget.antt =====
-- How many calls a key gets through: the burst bound of a fixed window, and the spent budget.
use acdp_registry_rs.RateLimit.AgentLimiter.Laws.{
  charged, record_at_lem, limit-check_at, counted, check_at-WellFormed, WellFormed, check_at_lem,
}
use acdp_registry_rs.Prelude.{
  inr, eq_iff, ==_refl, inl, Bool-cases, lookup, none, ◌*◌, some, ◌≡◌, Distinct, Option, ℕ, ◌+◌,
  ◌-◌, ◌≤◌, ◌<◌, String, List, [], ◌∷◌, Result, ok, err, leb, ◌==◌, string_eq, if◌then◌else◌, arith,
}
use acdp_registry_rs.RateLimit.AgentLimiter.{
  u32_max, or_fresh, bucket_of, record_at, Instant, window, Bucket, AgentRateLimiter, rolled,
  charge, check_at,
}

-- Calls of `check`, of any keys, at instants that do not go back and lie within one window of `start`.
abbrev pub Within : Instant → Instant → List (String × Instant) → Type 0
Within start t [] = Unit
Within start t ((j, u) ∷ calls) = (t ≤ u) × (u < start + window) × Within start u calls

abbrev pub is_ok : Result ℕ (Unit {0}) → ℕ
is_ok (ok _) = 1
is_ok (err _) = 0

-- How many of the calls for `k` are admitted.
unfoldable pub admitted : String → List (String × Instant) → AgentRateLimiter → ℕ
admitted k [] l = 0
admitted k ((j, u) ∷ calls) l =
    (if j == k then is_ok (check_at j u l).0 else 0) + admitted k calls (check_at j u l).1

-- What a bucket still allows before `start + window`: the rest of its window, and a whole new window where
-- its own began before `start`.
potential : ℕ → Instant → Bucket → ℕ
potential limit start b = (limit - b.count) + (if leb start b.window_start then 0 else limit)

potential-rolled :
    (limit start t u : ℕ) (b : Bucket)
    → start ≤ u
    → u < start + window
    → potential limit start (rolled u b) ≤ potential limit start b
unfolding potential
potential-rolled limit start t u b h k = ground arith

potential-charge :
    (limit start u : ℕ) (b : Bucket)
    → is_ok (charge limit u b).0 + potential limit start (charge limit u b).1
      ≤ potential limit start b
unfolding potential
potential-charge limit start u b = ground arith

potential-later :
    (limit start t u : ℕ) (o : Option Bucket)
    → start ≤ t
    → t ≤ u
    → u < start + window
    → potential limit start (rolled u (or_fresh u o))
      ≤ potential limit start (rolled t (or_fresh t o))
unfolding potential
potential-later limit start t u none h k m = ground arith
potential-later limit start t u (some b) h k m = ground arith

-- One call: what it admits for `k`, and what `k` may still get afterwards, were allowed before.
call_potential :
    (k j : String) (start t u : Instant) (l : AgentRateLimiter)
    → Distinct l.buckets
    → start ≤ t
    → t ≤ u
    → u < start + window
    → (if j == k then is_ok (check_at j u l).0 else 0)
        + potential l.limit start (bucket_of k u (check_at j u l).1)
      ≤ potential l.limit start (bucket_of k t l)
call_potential k j start t u l d st tu in_window =
    let (answer, left) = check_at_lem j k u u l d (omega arith) in
    let before = potential-later l.limit start t u (lookup k l.buckets) st tu in_window in
    elim (Bool-cases (j == k)) [
      | inl same ↦
          let e : j ≡ k = (eq_iff j k).0 same in
          rw (left, same, answer, e)
            (omega (
              arith,
              before,
              potential-charge l.limit start u (bucket_of k u l),
              potential-rolled l.limit start u u (charged k u l) (omega arith) in_window,
            ))
      | inr other ↦ rw (left, other) (omega (arith, before))
    ]

admitted-le-potential :
    (k : String) (start t : Instant) (calls : List (String × Instant)) (l : AgentRateLimiter)
    → WellFormed l
    → start ≤ t
    → Within start t calls
    → admitted k calls l ≤ potential l.limit start (bucket_of k t l)
unfolding admitted
admitted-le-potential k start t [] l w st h = omega arith
admitted-le-potential k start t ((j, u) ∷ calls) l w st h =
    let rest =
      admitted-le-potential k start u calls (check_at j u l).1 (check_at-WellFormed j u l w)
        (omega arith) h.2 in
    omega (
      arith,
      call_potential k j start t u l w.distinct st h.0 h.1,
      rw (limit-check_at j u l) at rest,
    )

potential-le : (limit start : ℕ) (b : Bucket) → potential limit start b ≤ 2 * limit
unfolding potential
potential-le limit start b = ground arith

-- Of a well-formed limiter: in any interval of one window's length, whatever calls of other keys are
-- interleaved and however the map is pruned, at most twice the limit of a key's calls are admitted.
pub admitted-le-twice :
    (k : String) (start : Instant) (calls : List (String × Instant)) (l : AgentRateLimiter)
    → WellFormed l
    → Within start start calls
    → admitted k calls l ≤ 2 * l.limit
admitted-le-twice k start calls l w h = omega (
  arith,
  admitted-le-potential k start start calls l w (omega arith) h,
  potential-le l.limit start (bucket_of k start l),
)

-- A key whose window began at `start` or later gets at most its limit in that interval.
pub admitted-le-limit :
    (k : String) (start : Instant) (calls : List (String × Instant)) (l : AgentRateLimiter)
    → WellFormed l
    → start ≤ (bucket_of k start l).window_start
    → Within start start calls
    → admitted k calls l ≤ l.limit
unfolding potential
admitted-le-limit k start calls l w fresh h =
    ground (arith, admitted-le-potential k start start calls l w (omega arith) h)

-- One charge, seen at a later instant of the same window: the count is one more, and the window is the same.
pub record_at_same_window :
    (k : String) (t u : Instant) (l : AgentRateLimiter)
    → Distinct l.buckets
    → t ≤ u
    → u < (bucket_of k t l).window_start + window
    → (bucket_of k t l).window_start ≤ t
    → (bucket_of k t l).count < u32_max
    → (0 < (bucket_of k t l).count)
    → bucket_of k u (record_at k u l)
      ≡ record (bucket_of k t l) { count = (bucket_of k t l).count + 1 }
record_at_same_window k t u l d tu inside started small some_count =
    rw (record_at_lem k k u u l d (omega arith), ==_refl k)
      (same_window (lookup k l.buckets) inside started small some_count)
  where
    same_window :
        (o : Option Bucket)
        → u < (rolled t (or_fresh t o)).window_start + window
        → (rolled t (or_fresh t o)).window_start ≤ t
        → (rolled t (or_fresh t o)).count < u32_max
        → 0 < (rolled t (or_fresh t o)).count
        → rolled u (counted (rolled u (or_fresh u o)))
          ≡ record (rolled t (or_fresh t o)) { count = (rolled t (or_fresh t o)).count + 1 }
    same_window none = ground arith
    same_window (some b) = ground arith
