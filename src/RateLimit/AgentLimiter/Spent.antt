-- ===== src/RateLimit/AgentLimiter/Spent.antt =====
-- A spent budget stays spent for the rest of its window, and the publish guard charges once.
use acdp_registry_rs.RateLimit.AgentLimiter.Budget.{record_at_same_window}
use acdp_registry_rs.RateLimit.AgentLimiter.Laws.{
  retry_after_secs_bounds, limit-record_at, record_at-WellFormed, WellFormed,
}
use acdp_registry_rs.RateLimit.AgentLimiter.{
  per_ip, decided, global_scope, check_at, check_global_at, charge, peek_bucket, or_fresh, rolled,
  retry_after_secs, u32_max, deny, window, bucket_of, record_at, allow, Bucket, SharedLimitScope,
  new_charge, AgentRateLimiter, check, drop_charge, arm, PublishCharge, peek_at, Instant,
}
use acdp_registry_rs.Prelude.{
  inr, nat_eq, ok, inl, ◌==◌, Bool-cases, if◌then◌else◌, refl, string_eq, Result, ap, none, lookup,
  some, ◌-◌, arith, Option, [], err, ◌∙◌, length, ◌+◌, ◌⊎◌, zero, Bool, ◌<◌, ◌≤◌, ◌∷◌, ◌≡◌, suc,
  List, String, ℕ,
}

-- Charges of `k` at the given instants.
unfoldable pub record_all : String → List Instant → AgentRateLimiter → AgentRateLimiter
record_all k [] l = l
record_all k (u ∷ us) l = record_all k us (record_at k u l)

-- The instants do not go back, from `t` up to `later`, and `later` lies within one window of `start`.
abbrev pub InWindow : Instant → Instant → Instant → List Instant → Type 0
InWindow start later t [] = (t ≤ later) × (later < start + window)
InWindow start later t (u ∷ us) = (t ≤ u) × (u < start + window) × InWindow start later u us

bucket_of_later :
    (k : String) (t u : Instant) (l : AgentRateLimiter)
    → t ≤ u
    → u < (bucket_of k t l).window_start + window
    → 0 < (bucket_of k t l).count
    → bucket_of k u l ≡ bucket_of k t l
bucket_of_later k t u l tu inside pos = unmoved (lookup k l.buckets) inside pos
  where
    unmoved :
        (o : Option Bucket)
        → u < (rolled t (or_fresh t o)).window_start + window
        → 0 < (rolled t (or_fresh t o)).count
        → rolled u (or_fresh u o) ≡ rolled t (or_fresh t o)
    unmoved none = ground arith
    unmoved (some b) = ground arith

count-record_all :
    (k : String) (t later : Instant) (us : List Instant) (l : AgentRateLimiter) (b : Bucket)
    → WellFormed l
    → bucket_of k t l ≡ b
    → 0 < b.count
    → b.window_start ≤ t
    → b.count + length us ≤ u32_max
    → InWindow b.window_start later t us
    → bucket_of k later (record_all k us l) ≡ record b { count = b.count + length us }
unfolding record_all
count-record_all k t later [] l b w e pos st small h =
    bucket_of_later k t later l h.0 (rw e h.1) (rw e pos)
    ∙ e
    ∙ ap (λ n. record b { count = n }) (omega arith)
count-record_all k t later (u ∷ us) l b w e pos st small h =
    let step : bucket_of k u (record_at k u l) ≡ record b { count = b.count + 1 } =
      record_at_same_window k t u l w.distinct h.0 (rw e h.1) (rw e st) (rw e (omega arith))
        (rw e pos)
      ∙ ap (λ (x : Bucket). record x { count = x.count + 1 }) e in
    count-record_all k u later us (record_at k u l) (record b { count = b.count + 1 })
      (record_at-WellFormed k u l w) step (omega arith) (omega arith) (omega arith) h.2
    ∙ ap (λ n. record b { count = n }) (omega arith)

pub record_all-WellFormed :
    (k : String) (us : List Instant) (l : AgentRateLimiter)
    → WellFormed l
    → WellFormed (record_all k us l)
unfolding record_all
record_all-WellFormed k [] l w = w
record_all-WellFormed k (u ∷ us) l w =
    record_all-WellFormed k us (record_at k u l) (record_at-WellFormed k u l w)

limit-record_all :
    (k : String) (us : List Instant) (l : AgentRateLimiter) → (record_all k us l).limit ≡ l.limit
unfolding record_all
limit-record_all k [] l = refl
limit-record_all k (u ∷ us) l = limit-record_all k us (record_at k u l) ∙ limit-record_at k u l

peek_at_spent :
    (k : String) (t : Instant) (l : AgentRateLimiter)
    → 0 < (bucket_of k t l).count
    → l.limit ≤ (bucket_of k t l).count
    → peek_at k t l ≡ err (retry_after_secs (t - (bucket_of k t l).window_start))
unfolding peek_at
peek_at_spent k t l pos full = refused (lookup k l.buckets) pos full
  where
    refused :
        (o : Option Bucket)
        → 0 < (rolled t (or_fresh t o)).count
        → l.limit ≤ (rolled t (or_fresh t o)).count
        → peek_bucket l.limit t o
          ≡ err (retry_after_secs (t - (rolled t (or_fresh t o)).window_start))
    refused none = ground arith
    refused (some b) = ground arith

-- Of a well-formed limiter: once a key has a count in its window and the charges in that window reach the
-- limit, without passing the largest `u32`, `peek_at` of the key in the rest of the window is refused,
-- with the seconds that the window has left.
pub peek_at-record_all :
    (k : String) (t later : Instant) (us : List Instant) (l : AgentRateLimiter) (b : Bucket)
    → WellFormed l
    → bucket_of k t l ≡ b
    → 0 < b.count
    → b.window_start ≤ t
    → b.count + length us ≤ u32_max
    → InWindow b.window_start later t us
    → l.limit ≤ b.count + length us
    → peek_at k later (record_all k us l) ≡ err (retry_after_secs (later - b.window_start))
peek_at-record_all k t later us l b w e pos st small h full =
    let c = count-record_all k t later us l b w e pos st small h in
    rw
      (peek_at_spent k later (record_all k us l) (rw c (omega arith))
        (rw (c, limit-record_all k us l) full))
      (rw c refl)

-- `arm` called `n` times.
unfoldable pub arm_times : ℕ → PublishCharge → PublishCharge
arm_times zero c = c
arm_times (suc n) c = arm (arm_times n c)

arm_times-fields :
    (n : ℕ) (c : PublishCharge)
    → ((arm_times n c).agent_id ≡ c.agent_id) × ((arm_times n c).has_limiter ≡ c.has_limiter)
unfolding arm_times arm
arm_times-fields zero c = (refl, refl)
arm_times-fields (suc n) c = arm_times-fields n c

-- A publish that was never armed is not charged, and one that was armed, however often, is charged exactly
-- once, on whichever path the guard is dropped; without a limiter nothing is charged.
pub drop_charge_once :
    (n : ℕ) (has_limiter : Bool) (agent_id : String) (now : Instant) (l : AgentRateLimiter)
    → (drop_charge (new_charge has_limiter agent_id) now l ≡ l)
      × (drop_charge (arm_times (suc n) (new_charge has_limiter agent_id)) now l
          ≡ (if has_limiter then record_at agent_id now l else l))
unfolding drop_charge arm_times new_charge arm
drop_charge_once n has_limiter agent_id now l =
    let (agent, limiter) = arm_times-fields n (new_charge has_limiter agent_id) in
    (refl, rw (agent, limiter) refl)

charge_err :
    (limit now : ℕ) (b : Bucket) (n : ℕ) → (charge limit now b).0 ≡ err n → (1 ≤ n) × (n ≤ 60)
charge_err limit now b n h = ground (arith, retry_after_secs_bounds (now - b.window_start))

check_global_at_err :
    (now : Instant) (l : AgentRateLimiter) (n : ℕ)
    → (check_global_at now l).0 ≡ err n
    → (1 ≤ n) × (n ≤ 60)
unfolding check_global_at
check_global_at_err now l n h = elim (Bool-cases (l.global_limit == u32_max)) [
  | inl off ↦ cc (rw off at h)
  | inr on ↦ charge_err l.global_limit now (rolled now l.global) n (rw on at h)
]

check_at_err :
    (k : String) (now : Instant) (l : AgentRateLimiter) (n : ℕ)
    → (check_at k now l).0 ≡ err n
    → (1 ≤ n) × (n ≤ 60)
unfolding check_at
check_at_err k now l n h = charge_err _ now _ n h

decided_bounds :
    (r : Result ℕ (Unit {0}))
    → ((n : ℕ) → r ≡ err n → (1 ≤ n) × (n ≤ 60))
    → (decided r ≡ allow) ⊎ ((n : ℕ) × (decided r ≡ deny n) × (1 ≤ n) × (n ≤ 60))
decided_bounds (ok _) h = inl refl
decided_bounds (err n) h = inr (n, refl, (h n refl).0, (h n refl).1)

-- The in-process backend always decides, and a denial tells the client to wait one to sixty seconds.
check_decides :
    (scope : SharedLimitScope) (key : String) (now : Instant) (l : AgentRateLimiter)
    → ((check scope key now l).0 ≡ allow)
      ⊎ ((n : ℕ) × ((check scope key now l).0 ≡ deny n) × (1 ≤ n) × (n ≤ 60))
unfolding check
check_decides global_scope key now l = decided_bounds _ (check_global_at_err now l)
check_decides per_ip key now l = decided_bounds _ (check_at_err key now l)
