-- ===== src/Webhooks/Trust.antt =====
-- What a worker that passed the checks at its start sends, and where.
use mathlib.Core.Path.{subst}
use acdp_registry_rs.Webhooks.{
  spawn_checks, encoded, envelope, worker, as_bytes, is_whitespace, deliver, sign_with_timestamp,
  policy_checked, is_blank, trace_of, sign, Turn, request_of, try_spawn,
}
use acdp_registry_rs.Webhooks.Deliveries.{deliver-Ends, schedule}
use acdp_registry_rs.Webhooks.Events.{
  WebhookError, Delivery, sleep, post, Effect, WebhookConfig, Request, External,
}
use Prim.Native.String.{◌++◌ as ◌<>◌}
use acdp_registry_rs.Prelude.{
  ◌>>=◌, Result-cases, inr, inl, if◌then◌else◌, ◌||◌, Bool-cases, ◌&&◌, Bool, string_eq,
  refuse_if-eq-ok, ok_injective, sym, codes, [], refl, arith, >>=-eq-ok, ◌==◌, err, false, not,
  true, any, zero, ◌++◌, Result, ◌∷◌, ok, String, suc, ◌≡◌, List, ℕ,
}

module _ {V : Type 0} where
  -- A request to the configured address, which the policy allows, signed under a secret that is not blank: over
  -- the body, and over the time that it states and the body.
  pub record Authentic (ext : External V) (cfg : WebhookConfig) (r : Request) : Type 0 where
    pub configured : r.url ≡ cfg.url
    pub allowed : ext.check_url r.url ≡ ok tt
    pub keyed : any (λ c. not (is_whitespace c)) (codes cfg.secret) ≡ true
    pub signed : r.signature ≡ "sha256=" <> ext.hex (ext.hmac_sha256 (as_bytes cfg.secret) r.body)
    pub dated :
        r.timestamped_signature
        ≡ "sha256="
          <> ext.hex (
              ext.hmac_sha256
                (as_bytes cfg.secret)
                (as_bytes r.timestamp ++ (as_bytes "." ++ r.body)))

-- Every request of a trace is so.
abbrev pub Posts : (Request → Type 0) → List Effect → Type 0
Posts P [] = Unit
Posts P (post r ∷ effects) = P r × Posts P effects
Posts P (sleep ms ∷ effects) = Posts P effects

Posts-append :
    (P : Request → Type 0) (xs ys : List Effect) → Posts P xs → Posts P ys → Posts P (xs ++ ys)
Posts-append P [] ys hx hy = hy
Posts-append P (post r ∷ xs) ys hx hy = (hx.0, Posts-append P xs ys hx.1 hy)
Posts-append P (sleep ms ∷ xs) ys hx hy = Posts-append P xs ys hx hy

schedule-Posts : (P : Request → Type 0) (r : Request) (a k : ℕ) → P r → Posts P (schedule r a k)
schedule-Posts P r a zero h = (h, tt)
schedule-Posts P r a (suc k) h = (h, schedule-Posts P r (suc a) k h)

taken :
    (b : Bool) (tests : Result WebhookError (Unit {0})) {u : Unit {0}}
    → b ≡ true
    → (if b then tests else ok tt) ≡ ok u
    → tests ≡ ok u
taken true tests e h = h
taken false tests e h = cc

module _ {V : Type 0} (ext : External V) (cfg : WebhookConfig) where
  -- What `try_spawn` has checked of an emitter that sends.
  record Checked : Type 0 where
    allowed : ext.check_url cfg.url ≡ ok tt
    keyed : is_blank cfg.secret ≡ false

  policy_checked-eq-ok :
      (url : String) (answer : Result String (Unit {0})) {u : Unit {0}}
      → policy_checked url answer ≡ ok u
      → answer ≡ ok tt
  policy_checked-eq-ok url (ok u) h = refl
  policy_checked-eq-ok url (err e) h = cc

  try_spawn-Checked :
      {c : WebhookConfig}
      → try_spawn ext cfg ≡ ok c
      → cfg.enabled ≡ true
      → (cfg.url == "") ≡ false
      → (c ≡ cfg) × Checked
  unfolding try_spawn
  try_spawn-Checked h on there =
      let (_, tests, same) = >>=-eq-ok (spawn_checks ext cfg) _ h in
      let (_, policy, secret) =
        >>=-eq-ok (policy_checked cfg.url (ext.check_url cfg.url)) _
          (taken (cfg.enabled && not (cfg.url == "")) _ (ground (arith, on, there)) tests) in
      (
        sym (ok_injective same),
        record {
          allowed = policy_checked-eq-ok cfg.url (ext.check_url cfg.url) policy;
          keyed = refuse_if-eq-ok _ _ secret;
        },
      )

  request_of-Authentic :
      (sent_at : ℕ) (d : Delivery V) (body : List ℕ)
      → Checked
      → Authentic ext cfg (request_of ext cfg sent_at d body)
  unfolding request_of sign sign_with_timestamp is_blank
  request_of-Authentic sent_at d body c = record {
    configured = refl;
    allowed = c.allowed;
    keyed = ground (arith, c.keyed);
    signed = refl;
    dated = refl;
  }

  deliver-Authentic :
      (t : Turn V)
      → Checked
      → Posts (Authentic ext cfg) (trace_of (deliver ext cfg t.sent_at t.replies t.delivery))
  unfolding deliver
  deliver-Authentic t c = elim (Result-cases (ext.to_vec (envelope t.delivery))) [
    | inl (body, e) ↦
        let (k, same, _) = deliver-Ends ext cfg t.sent_at t.replies t.delivery body e in
        rw (same, trace_of)
          (schedule-Posts (Authentic ext cfg) _ 0 k
            (request_of-Authentic t.sent_at t.delivery body c))
    | inr (problem, e) ↦ rw (e, encoded, ◌>>=◌, trace_of) tt
  ]

  worker-Posts :
      (client : Bool) (turns : List (Turn V))
      → (cfg.enabled ≡ true → (cfg.url == "") ≡ false → Checked)
      → Posts (Authentic ext cfg) (worker ext cfg client turns)
  unfolding worker
  worker-Posts client [] checks = tt
  worker-Posts false (t ∷ turns) checks = tt
  worker-Posts true (t ∷ turns) checks = elim (Bool-cases (not cfg.enabled || (cfg.url == ""))) [
    | inl idle ↦ rw idle (worker-Posts true turns checks)
    | inr busy ↦ rw busy (
        Posts-append (Authentic ext cfg) (trace_of (deliver ext cfg t.sent_at t.replies t.delivery))
          (worker ext cfg true turns)
          (deliver-Authentic t (checks (ground (arith, busy)) (ground (arith, busy))))
          (worker-Posts true turns checks))
  ]

  unchanged : {c : WebhookConfig} → try_spawn ext cfg ≡ ok c → c ≡ cfg
  unfolding try_spawn
  unchanged h = let (_, _, same) = >>=-eq-ok (spawn_checks ext cfg) _ h in sym (ok_injective same)

  -- Of an emitter that `try_spawn` starts, whatever deliveries the worker receives and however the receiver
  -- answers: every request goes to the configured address, which the policy allows, and is signed under a secret
  -- that is not blank, over its body, and over its timestamp and body.
  pub worker-try_spawn :
      {c : WebhookConfig} (client : Bool) (turns : List (Turn V))
      → try_spawn ext cfg ≡ ok c
      → Posts (Authentic ext c) (worker ext c client turns)
  worker-try_spawn client turns h =
      subst (λ c. Posts (Authentic ext c) (worker ext c client turns)) (sym (unchanged h))
        (worker-Posts client turns (λ on there. (try_spawn-Checked h on there).1))
