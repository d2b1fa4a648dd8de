-- ===== src/Webhooks/Deliveries.antt =====
-- A delivery ends: how many requests it makes, of which kind, and how long it pauses between them.
use mathlib.Core.Path.{subst}
use acdp_registry_rs.Webhooks.{
  after_pause, encoded, request_of, envelope, is_success, max_backoff_ms, deliver, deliver_loop,
  is_final,
}
use acdp_registry_rs.Webhooks.Events.{
  Delivery, WebhookConfig, sleep, transport_error, post, Effect, External, status, Request, Reply,
}
use native.Mathlib.Nat.{pow-suc}
use native.Mathlib.Decide.{dec_lt}
use acdp_registry_rs.Prelude.{
  ap, ◌>>=◌, ok, refl, zero, leb→le, leb, [], ◌∷◌, ◌≢◌, some, inr, ◌+◌, ◌⊎◌, arith, inl, Bool-cases,
  max, ◌^◌, false, true, ◌≤◌, ◌*◌, suc, ◌<◌, List, ◌≡◌, min, ℕ,
}

-- A success, or a refusal that no retry changes.
abbrev pub IsFinal : Reply → Type 0
IsFinal (status s) = ((200 ≤ s) × (s < 300)) ⊎ ((400 ≤ s) × (s < 500) × (s ≢ 429))
IsFinal (transport_error e) = ⊥

is_final-true : (r : Reply) → is_final r ≡ true → IsFinal r
unfolding is_final
is_final-true (status s) h = elim (Bool-cases (is_success s)) [
  | inl good ↦ inl (ground (arith, good))
  | inr bad ↦ inr (ground (arith, bad, h), ground (arith, bad, h), ground (arith, bad, h))
]
is_final-true (transport_error e) h = cc

is_final-false : (r : Reply) → is_final r ≡ false → ¬ IsFinal r
unfolding is_final
is_final-false (status s) h (inl good) = ground (arith, good, h)
is_final-false (status s) h (inr bad) = ground (arith, bad, h)
is_final-false (transport_error e) h f = f

-- The pause after attempt `a + 1`: a quarter of a second, doubled with each attempt, to 15 seconds at most.
abbrev pub pause : ℕ → ℕ
pause a = min (250 * 2 ^ a) 15000

-- After `a` attempts, `k` that are followed by a pause and one that is the last.
abbrev pub schedule : Request → ℕ → ℕ → List Effect
schedule request a zero = post request ∷ []
schedule request a (suc k) = post request ∷ sleep (pause a) ∷ schedule request (suc a) k

-- `a` attempts were made, and attempt `last` is the last.
pub record Ends (max_retries : ℕ) (replies : ℕ → Reply) (a last : ℕ) : Type 0 where
  pub one_more : a < last
  pub at_most : last ≤ max max_retries (suc a)
  pub retried : (i : ℕ) → a < i → i < last → ¬ IsFinal (replies i)
  pub stopped : IsFinal (replies last) ⊎ (max_retries ≤ last)

pause-suc : (a : ℕ) → min (pause a * 2) max_backoff_ms ≡ pause (suc a)
pause-suc a = omega (arith, pow-suc 2 a)

later-Ends :
    (max_retries : ℕ) (replies : ℕ → Reply) (a k : ℕ)
    → is_final (replies (suc a)) ≡ false
    → suc a < max_retries
    → Ends max_retries replies (suc a) (suc (suc a + k))
    → Ends max_retries replies a (suc (a + suc k))
later-Ends max_retries replies a k go more e =
    let same : suc (a + suc k) ≡ suc (suc a + k) = omega arith in
    rw same (record {
      one_more = omega (arith, e.one_more);
      at_most = omega (arith, e.at_most, more);
      retried = retried;
      stopped = e.stopped;
    })
  where
    retried : (i : ℕ) → a < i → i < suc (suc a + k) → ¬ IsFinal (replies i)
    retried i low high = elim (dec_lt (suc a) i) [
      | yes above ↦ e.retried i above high
      | no here ↦
          let first : i ≡ suc a = omega (arith, low) in
          rw first (is_final-false (replies (suc a)) go)
    ]

deliver_loop-Ends :
    (fuel max_retries : ℕ) (request : Request) (replies : ℕ → Reply) (a : ℕ)
    → max max_retries (suc a) ≤ a + fuel
    → (k : ℕ) × (deliver_loop fuel max_retries request replies a (pause a)
        ≡ some (schedule request a k))
      × Ends max_retries replies a (suc (a + k))
unfolding deliver_loop
deliver_loop-Ends zero max_retries request replies a enough = absurd (omega (arith, enough))
deliver_loop-Ends (suc fuel) max_retries request replies a enough =
    elim (Bool-cases (is_final (replies (suc a)))) [
      | inl final ↦ (0, rw final refl, last (inl (is_final-true _ final)))
      | inr go ↦ elim (Bool-cases (leb max_retries (suc a))) [
        | inl spent ↦ (0, rw (go, spent) refl, last (inr (leb→le _ _ spent)))
        | inr more ↦
            let (k, same, ends) =
              deliver_loop-Ends fuel max_retries request replies (suc a)
                (ground (arith, enough, more)) in
            (
              suc k,
              rw (go, more, pause-suc a) (ap (after_pause request (pause a)) same),
              later-Ends max_retries replies a k go (ground (arith, more)) ends,
            )
      ]
    ]
  where
    last :
        IsFinal (replies (suc a)) ⊎ (max_retries ≤ suc a) → Ends max_retries replies a (suc (a + 0))
    last stop =
        let same : suc a ≡ suc (a + 0) = omega arith in
        subst (Ends max_retries replies a) same (record {
          one_more = omega arith;
          at_most = omega arith;
          retried = λ i low high. absurd (omega (arith, low, high));
          stopped = stop;
        })

-- A delivery whose envelope is encoded ends: there is a last attempt, the first whose reply is a success or a
-- client error other than 429, or else the last that `max_retries` allows, and at least one is made. Every
-- attempt makes the same request, and after each but the last the delivery pauses, for a quarter of a second
-- at first, doubled each time, and for at most 15 seconds.
pub deliver-Ends :
    {V : Type 0} (ext : External V) (cfg : WebhookConfig) (sent_at : ℕ) (replies : ℕ → Reply)
    (d : Delivery V) (body : List ℕ)
    → ext.to_vec (envelope d) ≡ ok body
    → (k : ℕ) × (deliver ext cfg sent_at replies d
        ≡ ok (some (schedule (request_of ext cfg sent_at d body) 0 k)))
      × Ends cfg.max_retries replies 0 (suc k)
unfolding deliver
deliver-Ends ext cfg sent_at replies d body e =
    let (k, same, ends) =
      deliver_loop-Ends (max cfg.max_retries 1) cfg.max_retries (request_of ext cfg sent_at d body)
        replies 0 (omega arith) in
    (k, rw (e, encoded, ◌>>=◌, same) refl, subst (Ends cfg.max_retries replies 0) (starts k) ends)
  where
    starts : (k : ℕ) → suc (0 + k) ≡ suc k
    starts k = omega arith
