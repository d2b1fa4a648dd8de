-- ===== src/Hints/Backoff.antt =====
-- When a failing subscription is tried again, and when it is given up.
use native.Mathlib.Nat.{pow-suc}
use acdp_registry_rs.RateLimit.AgentLimiter.{u32_max}
use acdp_registry_rs.Subscriptions.{
  active, disabled, unwrap_or, disabled_progress, SubscriptionProgress, SubscriptionRecord,
}
use acdp_registry_rs.Hints.{
  disable_after_ms, retry_cap_ms, retry_base_ms, failed_long_enough, retry_or_disable,
  retry_delay_ms,
}
use acdp_registry_rs.Prelude.{
  zero, suc, refl, inr, inl, leb, ◌⊎◌, Bool-cases, arith, some, min, ℕ, ◌≡◌, ◌*◌, ◌^◌, ◌+◌, ◌-◌,
  ◌≤◌, ◌<◌,
}

-- A retry comes after at least a minute and at most an hour.
pub retry_delay_ms-range :
    (attempts : ℕ) → (60000 ≤ retry_delay_ms attempts) × (retry_delay_ms attempts ≤ 3600000)
unfolding retry_delay_ms
retry_delay_ms-range attempts =
    within (2 ^ min (attempts - 1) 16) (pow_positive (min (attempts - 1) 16))
  where
    pow_positive : (n : ℕ) → 0 < 2 ^ n
    pow_positive zero = omega arith
    pow_positive (suc n) = omega (arith, pow-suc 2 n, pow_positive n)

    within :
        (x : ℕ)
        → 0 < x
        → (60000 ≤ min (retry_base_ms * x) retry_cap_ms)
          × (min (retry_base_ms * x) retry_cap_ms ≤ 3600000)
    within x h = (omega (arith, h), omega arith)

module _ {F : Type 0} where
  -- What a failed attempt leaves: still from the first failure on, it is given up after 72 hours, and before
  -- that tried again.
  pub record Postponed (sub : SubscriptionRecord F) (now_ms : ℕ) (p : SubscriptionProgress)
      : Type 0 where
    pub same_position : p.last_hinted_seq ≡ sub.last_hinted_seq
    pub same_start : p.failing_since_ms ≡ some (unwrap_or sub.failing_since_ms now_ms)
    pub given_up_or_retried :
        ((p.status ≡ disabled)
          × (unwrap_or sub.failing_since_ms now_ms + disable_after_ms ≤ now_ms))
        ⊎ ((p.status ≡ active)
            × (now_ms < unwrap_or sub.failing_since_ms now_ms + disable_after_ms)
            × (now_ms + 60000 ≤ p.next_attempt_at_ms)
            × (p.next_attempt_at_ms ≤ now_ms + 3600000))

  -- A failed attempt keeps the position and the time of the first failure. The subscription is disabled where
  -- that time is 72 hours ago, and otherwise is tried again after at least a minute and at most an hour.
  pub retry_or_disable-Postponed :
      (sub : SubscriptionRecord F) (now_ms : ℕ) → Postponed sub now_ms (retry_or_disable sub now_ms)
  unfolding retry_or_disable failed_long_enough disabled_progress
  retry_or_disable-Postponed sub now_ms =
      let since = unwrap_or sub.failing_since_ms now_ms in
      let delay = retry_delay_ms-range (min (sub.attempts + 1) u32_max) in
      elim (Bool-cases (leb disable_after_ms (now_ms - since))) [
        | inl long ↦ rw long (record {
          same_position = refl;
          same_start = refl;
          given_up_or_retried = inl (refl, ground (arith, long));
        })
        | inr short ↦ rw short (record {
          same_position = refl;
          same_start = refl;
          given_up_or_retried =
              inr (refl, ground (arith, short), omega (arith, delay.0), omega (arith, delay.1));
        })
      ]
