-- ===== src/Webhooks/Events.antt =====
-- The types of the webhook emitter: its events of crates/acdp-registry-types/src/event.rs, WebhookConfig of
-- crates/acdp-registry-types/src/config.rs, and those of crates/acdp-registry-webhook/src/lib.rs. JSON values
-- are a type parameter.
use acdp_registry_rs.Time.{DateTime}
use acdp_registry_rs.Prelude.{List, Option, Result, false, Bool, String, ℕ}

abbrev pub webhook_schema_version : String
webhook_schema_version = "1.0"

pub record WebhookConfig : Type 0 where
  pub enabled : Bool
  pub url : String
  pub secret : String
  pub timeout_seconds : ℕ
  pub max_retries : ℕ
  pub queue_capacity : ℕ

abbrev pub default_config : WebhookConfig
default_config = record {
  enabled = false;
  url = "";
  secret = "";
  timeout_seconds = 5;
  max_retries = 3;
  queue_capacity = 1024;
}

pub data WebhookError : Type 0 where
  closed : WebhookError
  encode : String → WebhookError
  config : String → WebhookError

module _ (V : Type 0) where
  pub record Published : Type 0 where
    pub registry_authority : String
    pub registry_base_url : String
    pub ctx_id : String
    pub lineage_id : String
    pub agent_id : String
    pub context_type : String
    pub visibility : String
    pub version : ℕ
    pub created_at : DateTime
    pub derived_from : List String
    pub run_id : Option String
    pub key_fingerprint : Option String
    pub registry_receipt : Option V

pub record Retrieved : Type 0 where
  pub registry_authority : String
  pub ctx_id : String
  pub requester_did : Option String
  pub at : DateTime

pub record Moved : Type 0 where
  pub registry_authority : String
  pub ctx_id : String
  pub lineage_id : String
  pub actor : String
  pub event_id : String
  pub reason : Option String
  pub at : DateTime

pub record Searched : Type 0 where
  pub registry_authority : String
  pub query : Option String
  pub result_count : ℕ
  pub requester_did : Option String
  pub at : DateTime

module _ (V : Type 0) where
  pub data WebhookEvent : Type 0 where
    context_published : Published V → WebhookEvent
    context_retrieved : Retrieved → WebhookEvent
    context_retracted : Moved → WebhookEvent
    context_republished : Moved → WebhookEvent
    search_executed : Searched → WebhookEvent

  pub record Delivery : Type 0 where
    pub event_id : String
    pub event : WebhookEvent
    pub tenant_id : Option String

  pub record WireEnvelope : Type 0 where
    pub event_id : String
    pub schema_version : String
    pub event : WebhookEvent

  -- `hmac_sha256` takes a key and a message. `check_url` is the default policy's.
  pub record External : Type 0 where
    pub to_vec : WireEnvelope → Result String (List ℕ)
    pub hmac_sha256 : List ℕ → List ℕ → List ℕ
    pub hex : List ℕ → String
    pub check_url : String → Result String (Unit {0})

-- What a request carries. The header `Content-Type` is constant and left out.
pub record Request : Type 0 where
  pub url : String
  pub signature : String
  pub event_name : String
  pub event_id : String
  pub timestamp : String
  pub timestamped_signature : String
  pub tenant : Option String
  pub body : List ℕ

pub data Reply : Type 0 where
  status : ℕ → Reply
  transport_error : String → Reply

-- A pause is in milliseconds.
pub data Effect : Type 0 where
  post : Request → Effect
  sleep : ℕ → Effect
