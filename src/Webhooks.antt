-- ===== src/Webhooks.antt =====
-- The webhook emitter: crates/acdp-registry-webhook/src/lib.rs.
-- HMAC-SHA256, hex, serde_json and the SDK's SSRF policy are the record `External`. A delivery's trace is the
-- list of its requests and pauses; what the receiver answers to each attempt is an argument. What is only logged is left out.
pub mod Events
pub mod Deliveries
pub mod Queue
pub mod Trust
pub mod Tests
use acdp_registry_rs.Webhooks.Events.{
  search_executed, context_republished, sleep, context_retracted, post, webhook_schema_version,
  context_retrieved, transport_error, config, encode, Effect, WireEnvelope, WebhookConfig,
  context_published, status, WebhookError, Request, Delivery, External, WebhookEvent, Reply,
}
use Prim.Native.String.{◌++◌ as ◌<>◌}
use acdp_registry_rs.Prelude.{
  zero, ◌*◌, min, ◌%◌, ◌/◌, refuse_if, some, ◌+◌, nat_eq, ◌>>◌, [], max, suc, codes, ltb, string_eq,
  ◌++◌, err, ◌>>=◌, ok, none, map, ◌∷◌, if◌then◌else◌, any, ◌&&◌, ◌==◌, not, ◌||◌, leb, Result,
  Option, List, false, ℕ, String, Bool,
}
use acdp_registry_rs.Time.{DateTime, show_timestamp}

abbrev pub is_success : ℕ → Bool
is_success s = leb 200 s && ltb s 300

abbrev pub is_client_error : ℕ → Bool
is_client_error s = leb 400 s && ltb s 500

-- A reply after which no attempt is made: a success, or a client error other than 429.
unfoldable pub is_final : Reply → Bool
is_final (status s) = is_success s || (is_client_error s && not (s == 429))
is_final (transport_error e) = false

-- `char::is_whitespace`, on a code point
abbrev pub is_whitespace : ℕ → Bool
is_whitespace c =
    (leb 9 c && leb c 13)
    || (c == 32)
    || (c == 133)
    || (c == 160)
    || (c == 5760)
    || (leb 8192 c && leb c 8202)
    || (c == 8232)
    || (c == 8233)
    || (c == 8239)
    || (c == 8287)
    || (c == 12288)

-- `secret.trim().is_empty()`
unfoldable pub is_blank : String → Bool
is_blank s = not (any (λ c. not (is_whitespace c)) (codes s))

-- UTF-8, on a code point
abbrev pub utf8 : ℕ → List ℕ
utf8 c =
    if ltb c 0x80
    then c ∷ []
    else if ltb c 0x800
    then (0xC0 + c / 64) ∷ (0x80 + c % 64) ∷ []
    else if ltb c 0x10000
    then (0xE0 + c / 4096) ∷ (0x80 + c / 64 % 64) ∷ (0x80 + c % 64) ∷ []
    else (0xF0 + c / 262144) ∷ (0x80 + c / 4096 % 64) ∷ (0x80 + c / 64 % 64) ∷ (0x80 + c % 64) ∷ []

abbrev pub concat : List (List ℕ) → List ℕ
concat [] = []
concat (x ∷ xs) = x ++ concat xs

unfoldable pub as_bytes : String → List ℕ
as_bytes s = concat (map utf8 (codes s))

module _ {V : Type 0} where
  abbrev pub event_name : WebhookEvent V → String
  event_name (context_published p) = "context.published"
  event_name (context_retrieved r) = "context.retrieved"
  event_name (context_retracted m) = "context.retracted"
  event_name (context_republished m) = "context.republished"
  event_name (search_executed s) = "search.executed"

  unfoldable pub sign : External V → String → List ℕ → String
  sign ext secret body = "sha256=" <> ext.hex (ext.hmac_sha256 (as_bytes secret) body)

  unfoldable pub sign_with_timestamp : External V → String → ℕ → List ℕ → String
  sign_with_timestamp ext secret sent_at body =
      "sha256="
      <> ext.hex (
          ext.hmac_sha256 (as_bytes secret)
            (as_bytes (show_timestamp sent_at) ++ (as_bytes "." ++ body)))

  -- The request that every attempt of a delivery makes.
  unfoldable pub request_of : External V → WebhookConfig → ℕ → Delivery V → List ℕ → Request
  request_of ext cfg sent_at d body = record {
    url = cfg.url;
    signature = sign ext cfg.secret body;
    event_name = event_name d.event;
    event_id = d.event_id;
    timestamp = show_timestamp sent_at;
    timestamped_signature = sign_with_timestamp ext cfg.secret sent_at body;
    tenant = d.tenant_id;
    body = body;
  }

  abbrev pub envelope : Delivery V → WireEnvelope V
  envelope d = record {
    event_id = d.event_id;
    schema_version = webhook_schema_version;
    event = d.event;
  }

abbrev pub max_backoff_ms : ℕ
max_backoff_ms = 15000

-- An attempt, the pause after it and what follows.
abbrev pub after_pause : Request → ℕ → Option (List Effect) → Option (List Effect)
after_pause request backoff none = none
after_pause request backoff (some later) = some (post request ∷ sleep backoff ∷ later)

-- The loop of `deliver`, with `attempt` attempts made; `none` where the fuel runs out. `replies n` is what
-- comes back from the `n`th attempt.
unfoldable pub deliver_loop : ℕ → ℕ → Request → (ℕ → Reply) → ℕ → ℕ → Option (List Effect)
unfolding is_final
deliver_loop zero max_retries request replies attempt backoff = none
deliver_loop (suc fuel) max_retries request replies attempt backoff =
    let rest = after_pause request backoff (
      deliver_loop fuel max_retries request replies (suc attempt)
        (min (backoff * 2) max_backoff_ms)) in
    if is_final (replies (suc attempt))
    then some (post request ∷ [])
    else if leb max_retries (suc attempt)
    then some (post request ∷ [])
    else rest

-- `map_err(|e| WebhookError::Encode(e.to_string()))`
abbrev pub encoded : Result String (List ℕ) → Result WebhookError (List ℕ)
encoded (ok body) = ok body
encoded (err e) = err (encode e)

-- The delivery's trace; a delivery that fails is logged and has none.
abbrev pub trace_of : Result WebhookError (Option (List Effect)) → List Effect
trace_of (err e) = []
trace_of (ok none) = []
trace_of (ok (some effects)) = effects

-- `map_err`, of the policy's refusal
abbrev pub policy_checked : String → Result String (Unit {0}) → Result WebhookError (Unit {0})
policy_checked url (ok u) = ok u
policy_checked url (err e) =
    err (config ("webhook.url '" <> (url <> ("' rejected by SSRF policy: " <> e))))

abbrev pub blank_secret : WebhookError
blank_secret =
    config
      "webhook.secret must be non-empty when webhook.enabled and webhook.url are set; HMAC over an empty key accepts every signature"

module _ (V : Type 0) where
  -- What the worker meets while it handles one delivery.
  pub record Turn : Type 0 where
    pub delivery : Delivery V
    pub sent_at : ℕ
    pub replies : ℕ → Reply

module _ {V : Type 0} where
  -- The trace, or the error with which nothing is sent.
  unfoldable pub deliver :
      External V
      → WebhookConfig
      → ℕ
      → (ℕ → Reply)
      → Delivery V
      → Result WebhookError (Option (List Effect))
  deliver ext cfg sent_at replies d = encoded (ext.to_vec (envelope d)) >>= λ body. ok (
      deliver_loop (max cfg.max_retries 1) cfg.max_retries (request_of ext cfg sent_at d body)
        replies 0 250)

  -- The loop of `worker` over the deliveries that it receives. `client` says that the HTTP client was built.
  unfoldable pub worker : External V → WebhookConfig → Bool → List (Turn V) → List Effect
  worker ext cfg client [] = []
  worker ext cfg client (t ∷ turns) =
      let rest = worker ext cfg client turns in
      if not client
      then []
      else if not cfg.enabled || (cfg.url == "")
      then rest
      else trace_of (deliver ext cfg t.sent_at t.replies t.delivery) ++ rest

  -- What is asked of a configuration that sends.
  abbrev pub spawn_checks : External V → WebhookConfig → Result WebhookError (Unit {0})
  spawn_checks ext cfg =
      if cfg.enabled && not (cfg.url == "")
      then policy_checked cfg.url (ext.check_url cfg.url)
        >> refuse_if (is_blank cfg.secret) blank_secret
      else ok tt

  -- `try_spawn`: the configuration that the worker runs on.
  unfoldable pub try_spawn : External V → WebhookConfig → Result WebhookError WebhookConfig
  try_spawn ext cfg = spawn_checks ext cfg >> ok cfg
