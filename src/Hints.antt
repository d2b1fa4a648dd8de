-- ===== src/Hints.antt =====
-- One subscription's turn in a pass of the change-hint worker: crates/acdp-registry-core/src/hints.rs. The
-- callback policy, the network, the SDK's signature and DID parser and the opening of a sealed secret are the
-- record `Worker`, and the registry answers for the subscription's owner and tenant. The reasons that are only
-- logged are left out. `hint_error` is what the pass reports of a turn that fails or overruns its bound.
-- Milliseconds are counted from the Unix epoch.
pub mod Backoff
pub mod Outcomes
pub mod Turns
pub mod Tests
use acdp_registry_rs.Changes.MemoryFeed.{Feed}
use acdp_registry_rs.RateLimit.AgentLimiter.{u32_max}
use acdp_registry_rs.Changes.Since.{
  failed, oldest, cursor_expired, head_cursor, position, ServeError, DecodedCursor,
}
use acdp_registry_rs.Changes.Feed.{FeedHead, FeedFingerprint, FeedRow}
use acdp_registry_rs.Changes.Serve.{evaluate_changes}
use acdp_registry_rs.Changes.Page.{
  is_empty_page, failing, ChangesResponse, ChangesRequest, WatchFilter, Registry,
}
use acdp_registry_rs.Subscriptions.{
  finish_subscription_attempt, healthy, disabled_progress, disabled, active, unwrap_or,
  SubscriptionProgress, SubscriptionRecord,
}
use acdp_registry_rs.Prelude.{
  ◌/◌, none, HashMap, ltb, false, Result, true, leb, not, some, Bool, min, Option, String, List, ℕ,
  ◌≡◌, ◌++◌, ◌∷◌, ◌&&◌, ◌||◌, ◌>>=◌, ◌*◌, ◌^◌, ◌+◌, ◌-◌, ok, err, if◌then◌else◌,
}

abbrev pub lease_ms : ℕ
lease_ms = 60000

abbrev pub retry_base_ms : ℕ
retry_base_ms = 60000

abbrev pub retry_cap_ms : ℕ
retry_cap_ms = 3600000

abbrev pub disable_after_ms : ℕ
disable_after_ms = 259200000

abbrev pub hint_min_interval_ms : ℕ
hint_min_interval_ms = 1000

-- `RETRY_BASE_MS << shift`, at most 2^32
unfoldable pub retry_delay_ms : ℕ → ℕ
retry_delay_ms attempts = min (retry_base_ms * 2 ^ min (attempts - 1) 16) retry_cap_ms

unfoldable pub failed_long_enough : ℕ → ℕ → Bool
failed_long_enough failing_since_ms now_ms = leb disable_after_ms (now_ms - failing_since_ms)

pub data Delivery : Type 0 where
  delivered undelivered refused : Delivery

pub data HintOutcome : Type 0 where
  hint_delivered nothing_visible hint_failed ssrf_refused unknown_key hint_disabled : HintOutcome
  lease_lost hint_error : HintOutcome

-- What `open_secret` answers.
pub data Opened : Type 0 where
  opened : List ℕ → Opened
  sealed_under_unknown_key : Opened
  corrupt : Opened

-- `send` gives the receiver's status, where it answers.
pub record Worker (E : Type 0) : Type 0 where
  pub parse_did : String → Bool
  pub require_tenant : Bool
  pub open_secret : String → ℕ → List ℕ → Opened
  pub hint_body : String → DecodedCursor → Result E (List ℕ)
  pub sign_hint : List ℕ → ℕ → List ℕ → String
  pub check_url : String → Bool
  pub host_port : String → Option (String × ℕ)
  pub resolve_allowed : String → ℕ → Bool
  pub hint_client : Bool
  pub send : String → List ℕ → String → Option ℕ

module _ {F : Type 0} where
  unfoldable pub retry_or_disable : SubscriptionRecord F → ℕ → SubscriptionProgress
  retry_or_disable sub now_ms =
      let failing_since = unwrap_or sub.failing_since_ms now_ms in
      let attempts = min (sub.attempts + 1) u32_max in
      if failed_long_enough failing_since now_ms then disabled_progress sub now_ms else record {
        last_hinted_seq = sub.last_hinted_seq;
        status = active;
        next_attempt_at_ms = now_ms + retry_delay_ms attempts;
        failing_since_ms = some failing_since;
        attempts = attempts;
      }

abbrev pub unless_disabled : SubscriptionProgress → HintOutcome → HintOutcome
unless_disabled p o = elim p.status [ active ↦ o | disabled ↦ hint_disabled ]

abbrev pub is_none : Option String → Bool
is_none none = true
is_none (some x) = false

module _ {E : Type 0} (worker : Worker E) where
  abbrev pub answered : Option ℕ → Delivery
  answered none = undelivered
  answered (some status) = if leb 200 status && ltb status 300 then delivered else undelivered

  abbrev pub deliver_to : String → List ℕ → String → Option (String × ℕ) → Delivery
  deliver_to url body signature none = refused
  deliver_to url body signature (some (host, port)) =
      if not (worker.resolve_allowed host port)
      then refused
      else if not worker.hint_client
      then undelivered
      else answered (worker.send url body signature)

  unfoldable pub deliver : String → List ℕ → String → Delivery
  deliver url body signature =
      if not (worker.check_url url)
      then refused
      else deliver_to url body signature (worker.host_port url)

-- The readings of the clock in one turn: at its start, for the signature, and after the delivery.
pub record Readings : Type 0 where
  pub started_ms : ℕ
  pub signed_ms : ℕ
  pub delivered_ms : ℕ

module _ {V E Change : Type 0} (worker : Worker E) (reg : Registry V E Change)
    (fp : FeedRow V → FeedFingerprint) where
  -- `evaluate_changes`, again from the oldest entry where the position was pruned.
  unfoldable pub evaluate_hint :
      (ℕ → Feed V) → (ℕ → Feed V) → ChangesRequest → Result (ServeError E) (ChangesResponse Change)
  evaluate_hint feeds again req = elim (evaluate_changes reg fp feeds req) [
    | ok answer ↦ ok answer.0
    | err problem ↦ elim problem [
      | cursor_expired ↦
          evaluate_changes reg fp again (record req { since = oldest }) >>= λ answer. ok answer.0
      | failed e ↦ err (failed e)
    ]
  ]

  unfoldable pub after_delivery :
      SubscriptionRecord WatchFilter → ℕ → ℕ → Delivery → SubscriptionProgress × HintOutcome
  after_delivery sub head now_ms delivered =
      (healthy head (now_ms + hint_min_interval_ms), hint_delivered)
  after_delivery sub head now_ms undelivered =
      let p = retry_or_disable sub now_ms in (p, unless_disabled p hint_failed)
  after_delivery sub head now_ms refused =
      let p = retry_or_disable sub now_ms in (p, unless_disabled p ssrf_refused)

  -- The hint for the changes up to the head of `start`.
  unfoldable pub send_hint :
      SubscriptionRecord WatchFilter
      → FeedHead
      → Readings
      → Opened
      → Result (ServeError E) (SubscriptionProgress × HintOutcome)
  send_hint sub start clock sealed_under_unknown_key =
      let p = retry_or_disable sub clock.started_ms in ok (p, unless_disabled p unknown_key)
  send_hint sub start clock corrupt = ok (disabled_progress sub clock.started_ms, hint_disabled)
  send_hint sub start clock (opened secret) =
      failing (worker.hint_body sub.subscription_id (head_cursor start)) >>= λ body. ok (
        after_delivery sub start.head clock.delivered_ms (
          deliver worker sub.callback_url body
            (worker.sign_hint secret (clock.signed_ms / 1000) body)))

  -- The progress and the outcome that each return of `hint_one` hands to `finish`.
  unfoldable pub hint_turn :
      (ℕ → Feed V)
      → (ℕ → Feed V)
      → FeedHead
      → Readings
      → SubscriptionRecord WatchFilter
      → Result (ServeError E) (SubscriptionProgress × HintOutcome)
  hint_turn feeds again start clock sub =
      if not (worker.parse_did sub.owner_did) || (worker.require_tenant && is_none sub.tenant_id)
      then ok (disabled_progress sub clock.started_ms, hint_disabled)
      else evaluate_hint feeds again
          (record { since = position sub.last_hinted_seq; limit = 1; filter = sub.filter })
        >>= λ resp.
            if is_empty_page resp.changes
            then ok (healthy resp.next.pos clock.started_ms, nothing_visible)
            else send_hint sub start clock
                (worker.open_secret sub.subscription_id sub.secret_key_id sub.secret_ct)

  -- `finish`, on the subscriptions as they are by then
  unfoldable pub finish :
      SubscriptionRecord WatchFilter
      → ℕ
      → SubscriptionProgress × HintOutcome
      → HashMap String (SubscriptionRecord WatchFilter)
      → HintOutcome × HashMap String (SubscriptionRecord WatchFilter)
  finish sub lease (p, o) m =
      let (kept, m2) = finish_subscription_attempt sub.subscription_id lease p m in
      (if kept then o else lease_lost, m2)

  unfoldable pub hint_one :
      (ℕ → Feed V)
      → (ℕ → Feed V)
      → FeedHead
      → Readings
      → SubscriptionRecord WatchFilter
      → HashMap String (SubscriptionRecord WatchFilter)
      → Result (ServeError E) (HintOutcome × HashMap String (SubscriptionRecord WatchFilter))
  hint_one feeds again start clock sub m = hint_turn feeds again start clock sub >>= λ turn.
      ok (finish sub (unwrap_or sub.lease_until_ms (clock.started_ms + lease_ms)) turn m)
