-- ===== src/Hints/Outcomes.antt =====
-- What each outcome of a turn says of the progress that is stored with it.
use mathlib.Core.Path.{subst}
use acdp_registry_rs.Changes.Since.{head_cursor}
use acdp_registry_rs.Hints.Backoff.{Postponed, retry_or_disable-Postponed}
use acdp_registry_rs.Changes.Serve.Complete.{seen_after}
use acdp_registry_rs.Subscriptions.{
  disabled, active, SubscriptionProgress, SubscriptionRecord, disabled_progress, healthy,
}
use acdp_registry_rs.Changes.MemoryFeed.{Feed}
use acdp_registry_rs.Changes.Feed.{FeedHead, FeedQuery, FeedFingerprint, FeedRow}
use acdp_registry_rs.Changes.Page.{failing, WatchFilter, Registry}
use acdp_registry_rs.Hints.{
  answered, hint_error, refused, corrupt, sealed_under_unknown_key, deliver, lease_lost,
  hint_disabled, nothing_visible, opened, hint_delivered, unknown_key, undelivered,
  retry_or_disable, delivered, unless_disabled, Opened, ssrf_refused, Readings, hint_failed,
  Delivery, HintOutcome, send_hint, after_delivery, Worker,
}
use acdp_registry_rs.Prelude.{
  none, arith, ltb, ◌&&◌, Option-cases, leb, Bool-cases, ◌<◌, ◌≤◌, err, some, ap, [], true, Option,
  Result, ◌≢◌, List, string_eq, sym, ◌/◌, refl, >>=-eq-ok, inr, inl, ok_injective, ok, ℕ, Bool,
  String, ◌≡◌,
}

module _ {V E Change : Type 0} (worker : Worker E) (reg : Registry V E Change)
    (is_visible : String → Bool) (fp : FeedRow V → FeedFingerprint) (f : Feed V) where
  -- A request reached the callback, and it answered that it has it: the hint that names the head, signed with the
  -- subscription's secret, was sent to an allowed address of an allowed URL.
  pub record Told (start : FeedHead) (clock : Readings) (sub : SubscriptionRecord WatchFilter)
      : Type 0 where
    pub secret : List ℕ
    pub unsealed :
        worker.open_secret sub.subscription_id sub.secret_key_id sub.secret_ct ≡ opened secret
    pub body : List ℕ
    pub names_head : worker.hint_body sub.subscription_id (head_cursor start) ≡ ok body
    pub url_allowed : worker.check_url sub.callback_url ≡ true
    pub host : String
    pub port : ℕ
    pub addressed : worker.host_port sub.callback_url ≡ some (host, port)
    pub address_allowed : worker.resolve_allowed host port ≡ true
    pub status : ℕ
    pub answers :
        worker.send sub.callback_url body (worker.sign_hint secret (clock.signed_ms / 1000) body)
        ≡ some status
    pub low : 200 ≤ status
    pub high : status < 300

  -- What an outcome says of the progress that is stored with it, where the turn started at the head `start`
  -- and `q` is the subscription's query.
  abbrev pub Explains :
      FeedQuery
      → FeedHead
      → Readings
      → SubscriptionRecord WatchFilter
      → HintOutcome
      → SubscriptionProgress
      → Type 0
  Explains q start clock sub hint_delivered p =
      (p.status ≡ active)
      × (p.last_hinted_seq ≡ start.head)
      × Told start clock sub
      × (seen_after reg is_visible fp f q sub.last_hinted_seq ≢ [])
  Explains q start clock sub nothing_visible p =
      (p.status ≡ active)
      × (seen_after reg is_visible fp f q sub.last_hinted_seq
          ≡ seen_after reg is_visible fp f q p.last_hinted_seq)
  Explains q start clock sub hint_disabled p =
      (p.status ≡ disabled) × (p.last_hinted_seq ≡ sub.last_hinted_seq)
  Explains q start clock sub lease_lost p = ⊥
  Explains q start clock sub hint_error p = ⊥
  Explains q start clock sub _ p = (p.status ≡ active) × (p.last_hinted_seq ≡ sub.last_hinted_seq)

  failing-eq-ok : (r : Result E (List ℕ)) {b : List ℕ} → failing r ≡ ok b → r ≡ ok b
  failing-eq-ok (ok a) h = ap (λ x. ok x) (ok_injective h)
  failing-eq-ok (err e) h = cc

  settled :
      (q : FeedQuery) (start : FeedHead) (clock : Readings) (sub : SubscriptionRecord WatchFilter)
      (now_ms : ℕ) (o : HintOutcome) (p : SubscriptionProgress)
      → Postponed sub now_ms p
      → (p.status ≡ active
          → p.last_hinted_seq ≡ sub.last_hinted_seq
          → Explains q start clock sub o p)
      → Explains q start clock sub (unless_disabled p o) p
  settled q start clock sub now_ms o p postponed on = elim postponed.given_up_or_retried [
    | inl off ↦
        subst (λ x. Explains q start clock sub x p) (sym (disabled_outcome p o off.0))
          (off.0, postponed.same_position)
    | inr still ↦
        subst (λ x. Explains q start clock sub x p) (sym (active_outcome p o still.0))
          (on still.0 postponed.same_position)
  ]
    where
      disabled_outcome :
          (p : SubscriptionProgress) (o : HintOutcome)
          → p.status ≡ disabled
          → unless_disabled p o ≡ hint_disabled
      disabled_outcome p o e = rw (unless_disabled, e) refl

      active_outcome :
          (p : SubscriptionProgress) (o : HintOutcome) → p.status ≡ active → unless_disabled p o ≡ o
      active_outcome p o e = rw (unless_disabled, e) refl

  retried :
      (q : FeedQuery) (start : FeedHead) (clock : Readings) (sub : SubscriptionRecord WatchFilter)
      (now_ms : ℕ) (o : HintOutcome)
      → ((p : SubscriptionProgress)
          → p.status ≡ active
          → p.last_hinted_seq ≡ sub.last_hinted_seq
          → Explains q start clock sub o p)
      → Explains q start clock sub
          (unless_disabled (retry_or_disable sub now_ms) o)
          (retry_or_disable sub now_ms)
  retried q start clock sub now_ms o on =
      settled q start clock sub now_ms o (retry_or_disable sub now_ms)
        (retry_or_disable-Postponed sub now_ms) (on (retry_or_disable sub now_ms))

  answered-delivered :
      (o : Option ℕ)
      → answered worker o ≡ delivered
      → (status : ℕ) × (o ≡ some status) × (200 ≤ status) × (status < 300)
  answered-delivered none h = cc
  answered-delivered (some status) h = elim (Bool-cases (leb 200 status && ltb status 300)) [
    | inl good ↦ (status, refl, ground (arith, good), ground (arith, good))
    | inr bad ↦ absurd (undelivered≢delivered (rw bad at h))
  ]
    where
      undelivered≢delivered : ◌≡◌ {A = Delivery} undelivered delivered → ⊥
      undelivered≢delivered e = cc

  -- What a delivery goes through.
  delivered-sent :
      (url : String) (body : List ℕ) (signature : String)
      → deliver worker url body signature ≡ delivered
      → (worker.check_url url ≡ true)
        × ((host : String) × (port : ℕ) × (worker.host_port url ≡ some (host, port))
            × (worker.resolve_allowed host port ≡ true))
        × ((status : ℕ) × (worker.send url body signature ≡ some status)
            × (200 ≤ status)
            × (status < 300))
  unfolding deliver
  delivered-sent url body signature h = elim (Bool-cases (worker.check_url url)) [
    | inr off ↦ absurd (refused≢delivered (rw off at h))
    | inl on ↦ elim (Option-cases (worker.host_port url)) [
      | inl absent ↦ absurd (refused≢delivered (rw (on, absent) at h))
      | inr ((host, port), there) ↦ elim (Bool-cases (worker.resolve_allowed host port)) [
        | inr barred ↦ absurd (refused≢delivered (rw (on, there, barred) at h))
        | inl resolved ↦ elim (Bool-cases worker.hint_client) [
          | inr lacking ↦ absurd (undelivered≢delivered (rw (on, there, resolved, lacking) at h))
          | inl client ↦ (
            on,
            (host, port, there, resolved),
            answered-delivered (worker.send url body signature)
                (rw (on, there, resolved, client) at h),
          )
        ]
      ]
    ]
  ]
    where
      refused≢delivered : ◌≡◌ {A = Delivery} refused delivered → ⊥
      refused≢delivered e = cc

      undelivered≢delivered : ◌≡◌ {A = Delivery} undelivered delivered → ⊥
      undelivered≢delivered e = cc

  after_delivery-Explains :
      (q : FeedQuery) (sub : SubscriptionRecord WatchFilter) (start : FeedHead) (clock : Readings)
      (d : Delivery)
      → (seen_after reg is_visible fp f q sub.last_hinted_seq ≢ [])
      → (d ≡ delivered → Told start clock sub)
      → Explains q start clock sub
          (after_delivery worker reg fp sub start.head clock.delivered_ms d).1
          (after_delivery worker reg fp sub start.head clock.delivered_ms d).0
  unfolding after_delivery healthy
  after_delivery-Explains q sub start clock delivered news told = (refl, refl, told refl, news)
  after_delivery-Explains q sub start clock undelivered news told =
      retried q start clock sub clock.delivered_ms hint_failed (λ p on same. (on, same))
  after_delivery-Explains q sub start clock refused news told =
      retried q start clock sub clock.delivered_ms ssrf_refused (λ p on same. (on, same))

  pub send_hint-Explains :
      (q : FeedQuery) (sub : SubscriptionRecord WatchFilter) (start : FeedHead) (clock : Readings)
      (o : Opened) (turn : SubscriptionProgress × HintOutcome)
      → (seen_after reg is_visible fp f q sub.last_hinted_seq ≢ [])
      → worker.open_secret sub.subscription_id sub.secret_key_id sub.secret_ct ≡ o
      → send_hint worker reg fp sub start clock o ≡ ok turn
      → Explains q start clock sub turn.1 turn.0
  unfolding send_hint disabled_progress
  send_hint-Explains q sub start clock sealed_under_unknown_key turn news unsealed done =
      subst (λ (t : SubscriptionProgress × HintOutcome). Explains q start clock sub t.1 t.0)
        (ok_injective done)
        (retried q start clock sub clock.started_ms unknown_key (λ p on same. (on, same)))
  send_hint-Explains q sub start clock corrupt turn news unsealed done =
      subst (λ (t : SubscriptionProgress × HintOutcome). Explains q start clock sub t.1 t.0)
        (ok_injective done) (refl, refl)
  send_hint-Explains q sub start clock (opened secret) turn news unsealed done =
      let (body, made, same) =
        >>=-eq-ok (failing (worker.hint_body sub.subscription_id (head_cursor start))) _ done in
      let signature = worker.sign_hint secret (clock.signed_ms / 1000) body in
      subst (λ (t : SubscriptionProgress × HintOutcome). Explains q start clock sub t.1 t.0)
        (ok_injective same)
        (after_delivery-Explains q sub start clock (deliver worker sub.callback_url body signature)
          news
          (λ sent.
            let (on, (host, port, there, resolved), (status, answers, low, high)) =
              delivered-sent sub.callback_url body signature sent in
            record {
              secret = secret;
              unsealed = unsealed;
              body = body;
              names_head = failing-eq-ok _ made;
              url_allowed = on;
              host = host;
              port = port;
              addressed = there;
              address_allowed = resolved;
              status = status;
              answers = answers;
              low = low;
              high = high;
            }))
