-- ===== src/RateLimit/Layered.antt =====
-- `LayeredRateLimiter` of crates/acdp-registry-core/src/rate_limit_shared.rs: the in-process limiter before a
-- shared backend, whose answer to each call is an argument. What only logs and counts is left out.
use acdp_registry_rs.RateLimit.AgentLimiter.Laws.{WellFormed}
use acdp_registry_rs.RateLimit.AgentLimiter.Budget.{is_ok, admitted-le-twice, Within, admitted}
use acdp_registry_rs.RateLimit.AgentLimiter.{
  decided, check_at, unavailable, allow, per_ip, check, deny, Instant, SharedLimitScope,
  LimitDecision, AgentRateLimiter,
}
use acdp_registry_rs.Prelude.{
  refl, ◌≡◌, true, false, ok, err, Result, Bool, string_eq, arith, ◌∷◌, [], ◌+◌, ◌*◌, ◌≤◌, ◌==◌, ℕ,
  List, String, if◌then◌else◌,
}

pub data UnavailablePosture : Type 0 where
  posture_allow posture_deny : UnavailablePosture

abbrev pub unavailable_retry_after_secs : ℕ
unavailable_retry_after_secs = 5

pub record LayeredRateLimiter : Type 0 where
  pub l1 : AgentRateLimiter
  pub on_unavailable : UnavailablePosture

-- What is made of the shared backend's answer.
unfoldable pub shared_decision : UnavailablePosture → LimitDecision → LimitDecision
shared_decision posture allow = allow
shared_decision posture (deny n) = deny n
shared_decision posture_allow unavailable = allow
shared_decision posture_deny unavailable = deny unavailable_retry_after_secs

-- A denial of the first layer does not reach the second.
abbrev pub layered_decision : UnavailablePosture → LimitDecision → LimitDecision → LimitDecision
layered_decision posture (deny n) answer = deny n
layered_decision posture allow answer = shared_decision posture answer
layered_decision posture unavailable answer = shared_decision posture answer

unfoldable pub layered_check :
    SharedLimitScope
    → String
    → Instant
    → LimitDecision
    → LayeredRateLimiter
    → LimitDecision × LayeredRateLimiter
layered_check scope key now answer l =
    let (first, l1) = check scope key now l.l1 in
    (layered_decision l.on_unavailable first answer, record l { l1 = l1 })

abbrev is_allow : LimitDecision → ℕ
is_allow allow = 1
is_allow _ = 0

-- How many of the calls for `k` pass both layers, each with the answer of the shared backend.
unfoldable pub passed : String → List (String × Instant × LimitDecision) → LayeredRateLimiter → ℕ
passed k [] l = 0
passed k ((j, u, answer) ∷ calls) l =
    (if j == k then is_allow (layered_check per_ip j u answer l).0 else 0)
    + passed k calls (layered_check per_ip j u answer l).1

-- The same calls, as the first layer sees them.
abbrev pub calls_of : List (String × Instant × LimitDecision) → List (String × Instant)
calls_of [] = []
calls_of ((j, u, answer) ∷ calls) = (j, u) ∷ calls_of calls

is_allow-le : (d : LimitDecision) → is_allow d ≤ 1
is_allow-le allow = omega arith
is_allow-le (deny n) = omega arith
is_allow-le unavailable = omega arith

call-le :
    (b : Bool) (posture : UnavailablePosture) (r : Result ℕ (Unit {0})) (answer : LimitDecision)
    → (if b then is_allow (layered_decision posture (decided r) answer) else 0)
      ≤ (if b then is_ok r else 0)
call-le false posture r answer = omega arith
call-le true posture (err n) answer = omega arith
call-le true posture (ok u) answer = is_allow-le (shared_decision posture answer)

-- The same calls, where the shared backend answers each alike.
abbrev pub answered :
    LimitDecision
    → List (String × Instant × LimitDecision)
    → List (String × Instant × LimitDecision)
answered d [] = []
answered d ((j, u, answer) ∷ calls) = (j, u, d) ∷ answered d calls

call-allow :
    (b : Bool) (posture : UnavailablePosture) (r : Result ℕ (Unit {0}))
    → (if b then is_allow (layered_decision posture (decided r) allow) else 0)
      ≡ (if b then is_ok r else 0)
unfolding shared_decision
call-allow false posture r = refl
call-allow true posture (err n) = refl
call-allow true posture (ok u) = refl

call-deny :
    (b : Bool) (posture : UnavailablePosture) (n : ℕ) (r : Result ℕ (Unit {0}))
    → (if b then is_allow (layered_decision posture (decided r) (deny n)) else 0) ≡ 0
unfolding shared_decision
call-deny false posture n r = refl
call-deny true posture n (err m) = refl
call-deny true posture n (ok u) = refl

pub passed-refines-admitted :
    (k : String) (calls : List (String × Instant × LimitDecision)) (n : ℕ) (l : LayeredRateLimiter)
    → (passed k calls l ≤ admitted k (calls_of calls) l.l1)
      × (passed k (answered allow calls) l ≡ admitted k (calls_of calls) l.l1)
      × (passed k (answered (deny n) calls) l ≡ 0)
unfolding passed admitted layered_check check
passed-refines-admitted k [] n l = (omega arith, refl, refl)
passed-refines-admitted k ((j, u, answer) ∷ calls) n l =
    let r = (check_at j u l.l1).0 in
    let (at_most, exactly, nothing) =
      passed-refines-admitted k calls n (record l { l1 = (check_at j u l.l1).1 }) in
    (
      omega (arith, at_most, call-le (j == k) l.on_unavailable r answer),
      omega (arith, exactly, call-allow (j == k) l.on_unavailable r),
      omega (arith, nothing, call-deny (j == k) l.on_unavailable n r),
    )

-- Whatever the shared backend answers, and with either posture where it does not: in any interval of one
-- window's length, whatever calls of other keys are interleaved, at most twice the in-process limit of a
-- key's calls pass a well-formed layered limiter.
passed-le-twice :
    (k : String) (start : Instant) (calls : List (String × Instant × LimitDecision))
    (l : LayeredRateLimiter)
    → WellFormed l.l1
    → Within start start (calls_of calls)
    → passed k calls l ≤ 2 * l.l1.limit
passed-le-twice k start calls l w h = omega (
  arith,
  (passed-refines-admitted k calls 0 l).0,
  admitted-le-twice k start (calls_of calls) l.l1 w h,
)
