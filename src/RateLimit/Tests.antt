-- ===== src/RateLimit/Tests.antt =====
-- The theorems on the rate limiter, at a limiter that admits two calls in a minute.
use acdp_registry_rs.RateLimit.Layered.{
  passed-refines-admitted, posture_allow, passed, answered, calls_of, LayeredRateLimiter,
}
use acdp_registry_rs.RateLimit.AgentLimiter.Spent.{peek_at-record_all, record_all}
use acdp_registry_rs.RateLimit.AgentLimiter.Laws.{check_at_lem, peek_at-eq-check_at, WellFormed}
use acdp_registry_rs.RateLimit.AgentLimiter.Budget.{admitted-le-twice, admitted}
use acdp_registry_rs.Prelude.{refl, err, ◌≡◌, arith, [], ◌≤◌, String, ◌∷◌, lookup, List}
use acdp_registry_rs.RateLimit.AgentLimiter.{
  deny, allow, unavailable, LimitDecision, retry_after_secs, bucket_of, charge, Instant, peek_at,
  check_at, Bucket, AgentRateLimiter,
}

abbrev limiter : AgentRateLimiter
limiter = record {
  limit = 2;
  buckets = ("a", record { window_start = 10; count = 1 }) ∷ [];
  prune_threshold = 4096;
  global_limit = 4294967295;
  global = record { window_start = 0; count = 0 };
}

abbrev calls : List (String × Instant)
calls = ("a", 11) ∷ ("b", 12) ∷ ("a", 13) ∷ ("a", 14) ∷ []

limiter-WellFormed : WellFormed limiter
unfolding lookup
limiter-WellFormed = record { distinct = (refl, tt); within = omega arith; floor = omega arith }

abbrev spent : Bucket
spent = record { window_start = 10; count = 1 }

admitted-le-twice_example : admitted "a" calls limiter ≤ 4
admitted-le-twice_example = admitted-le-twice "a" 11 calls limiter limiter-WellFormed (
  omega arith,
  omega arith,
  (omega arith, omega arith, (omega arith, omega arith, (omega arith, omega arith, tt))),
)

check_at_lem_example :
    ((check_at "a" 11 limiter).0 ≡ (charge 2 11 spent).0)
    × (bucket_of "b" 12 (check_at "a" 11 limiter).1 ≡ record { window_start = 12; count = 0 })
unfolding lookup
check_at_lem_example = check_at_lem "a" "b" 11 12 limiter (refl, tt) (omega arith)

peek_at-eq-check_at_example : peek_at "a" 11 limiter ≡ (check_at "a" 11 limiter).0
unfolding lookup
peek_at-eq-check_at_example = peek_at-eq-check_at "a" 11 limiter (refl, tt) (omega arith)

peek_at-record_all_example :
    peek_at "a" 14 (record_all "a" (12 ∷ 13 ∷ []) limiter) ≡ err (retry_after_secs 4)
unfolding lookup
peek_at-record_all_example =
    peek_at-record_all "a" 11 14 (12 ∷ 13 ∷ []) limiter spent limiter-WellFormed refl (omega arith)
      (omega arith) (omega arith)
      (omega arith, omega arith, (omega arith, omega arith, (omega arith, omega arith)))
      (omega arith)

abbrev layered_calls : List (String × Instant × LimitDecision)
layered_calls = ("a", 12, unavailable) ∷ ("b", 13, allow) ∷ ("a", 14, deny 9) ∷ []

abbrev layered_limiter : LayeredRateLimiter
layered_limiter = record { l1 = limiter; on_unavailable = posture_allow }

passed-refines-admitted_example :
    (passed "a" layered_calls layered_limiter ≤ admitted "a" (calls_of layered_calls) limiter)
    × (passed "a" (answered allow layered_calls) layered_limiter
        ≡ admitted "a" (calls_of layered_calls) limiter)
    × (passed "a" (answered (deny 7) layered_calls) layered_limiter ≡ 0)
passed-refines-admitted_example = passed-refines-admitted "a" layered_calls 7 layered_limiter
