-- ===== src/ReadGate.antt =====
-- The gate on data-plane reads: crates/acdp-registry-core/src/read_gate.rs, with `extract_bearer` of
-- crates/acdp-registry-auth/src/service.rs. The validation of a bearer token, the client's bucket key and the
-- handler's test of the query are arguments; a header value is given where it is visible ASCII.
pub mod Tokens
pub mod Principals
pub mod Tests
use acdp_registry_rs.RateLimit.AgentLimiter.{check_at, Instant, AgentRateLimiter}
use acdp_registry_rs.Time.{DateTime}
use acdp_registry_rs.ReadTokens.{
  validate_read_token, is_read_token, StaticReadPrincipal, Entry, strip_prefix, ReadTokenError,
}
use acdp_registry_rs.Prelude.{
  false, not, true, Result, Bool, ◌∷◌, [], ◌&&◌, ok, err, some, none, if◌then◌else◌, ℕ, List,
  String, Option,
}
use Prim.Native.String.{◌++◌ as ◌<>◌}

pub data ReadPrincipal : Type 0 where
  anonymous : ReadPrincipal
  did_principal : String → Option String → ReadPrincipal

pub data Refusal (E : Type 0) : Type 0 where
  schema_violation : Refusal E
  auth_token : ReadTokenError → Refusal E
  bearer_refused : E → Refusal E

-- What the gate answers: the request goes on, as a read or unlooked at, or a 429 or a refusal.
pub data GateAnswer (E : Type 0) : Type 0 where
  served : ReadPrincipal → GateAnswer E
  passed_on : GateAnswer E
  rate_limited : ℕ → GateAnswer E
  refused : Refusal E → GateAnswer E

unfoldable pub requester : ReadPrincipal → Option String
requester anonymous = none
requester (did_principal did tenant) = some did

unfoldable pub tenant_claim : ReadPrincipal → Option String
tenant_claim anonymous = none
tenant_claim (did_principal did tenant) = tenant

-- `or_else`
abbrev pub or_string : Option String → Option String → Option String
or_string none other = other
or_string (some s) other = some s

abbrev pub trimmed : (String → String) → Option String → Option String
trimmed trim none = none
trimmed trim (some s) = some (trim s)

unfoldable pub extract_bearer : (String → String) → String → Option String
extract_bearer trim value =
    trimmed trim (or_string (strip_prefix "Bearer " value) (strip_prefix "bearer " value))

pub record GateState (E : Type 0) : Type 0 where
  pub enabled : Bool
  pub read_tokens : List Entry
  pub decode : String → Option (List ℕ)
  pub sha256 : String → List ℕ
  pub trim : String → String
  pub validate_bearer_claims : String → Result E (String × Option String)

module _ {E : Type 0} (state : GateState E) where
  abbrev pub static_principal :
      Result ReadTokenError StaticReadPrincipal → Result (Refusal E) ReadPrincipal
  static_principal (ok p) = ok (did_principal p.did p.tenant)
  static_principal (err e) = err (auth_token e)

  abbrev pub bearer_principal : Result E (String × Option String) → Result (Refusal E) ReadPrincipal
  bearer_principal (ok (sub, tenant)) = ok (did_principal sub tenant)
  bearer_principal (err e) = err (bearer_refused e)

  unfoldable pub resolve_token : String → DateTime → Result (Refusal E) ReadPrincipal
  resolve_token token now =
      if is_read_token token
      then static_principal
          (validate_read_token state.decode state.sha256 state.read_tokens token now)
      else bearer_principal (state.validate_bearer_claims token)

  -- `to_str().ok().and_then(extract_bearer)`
  abbrev pub token_of : Option String → Option String
  token_of none = none
  token_of (some value) = extract_bearer state.trim value

  abbrev pub resolve_value : Option String → DateTime → Result (Refusal E) ReadPrincipal
  resolve_value value now = elim (token_of value) [
    | none ↦ ok anonymous
    | some token ↦ resolve_token token now
  ]

  -- `resolve`, on the values of the `Authorization` headers; a value that is no text is `none`.
  unfoldable pub resolve : List (Option String) → DateTime → Result (Refusal E) ReadPrincipal
  resolve [] now = ok anonymous
  resolve (value ∷ []) now = if state.enabled then resolve_value value now else ok anonymous
  resolve (value ∷ other ∷ values) now =
      if state.enabled then err schema_violation else ok anonymous

  abbrev pub is_empty_tokens : List Entry → Bool
  is_empty_tokens [] = true
  is_empty_tokens (e ∷ entries) = false

  unfoldable pub bearer_static_active : Bool
  bearer_static_active = state.enabled && not (is_empty_tokens state.read_tokens)

-- The two limiters, where they are configured.
pub record ReadLimiters : Type 0 where
  pub principal_limiter : Option AgentRateLimiter
  pub anonymous_limiter : Option AgentRateLimiter

unfoldable pub charge_read :
    Option AgentRateLimiter → String → Instant → Option ℕ × Option AgentRateLimiter
charge_read none key now = (none, none)
charge_read (some l) key now =
    let (answer, after) = check_at key now l in
    (elim answer [ ok u ↦ none | err secs ↦ some secs ], some after)

module _ {E : Type 0} where
  abbrev pub answer_or_limited : Option ℕ → GateAnswer E → GateAnswer E
  answer_or_limited none answer = answer
  answer_or_limited (some secs) answer = rate_limited secs

  abbrev pub charge_anonymous :
      String → Instant → GateAnswer E → ReadLimiters → GateAnswer E × ReadLimiters
  charge_anonymous key now answer l =
      let (limited, after) = charge_read l.anonymous_limiter key now in
      (answer_or_limited limited answer, record l { anonymous_limiter = after })

  abbrev pub charge_principal :
      String → Instant → GateAnswer E → ReadLimiters → GateAnswer E × ReadLimiters
  charge_principal did now answer l =
      let (limited, after) = charge_read l.principal_limiter ("did:" <> did) now in
      (answer_or_limited limited answer, record l { principal_limiter = after })

  -- The charge for what `resolve` answered.
  unfoldable pub charged :
      String
      → Instant
      → Result (Refusal E) ReadPrincipal
      → ReadLimiters
      → GateAnswer E × ReadLimiters
  charged anonymous_key now (err refusal) l = charge_anonymous anonymous_key now (refused refusal) l
  charged anonymous_key now (ok anonymous) l =
      charge_anonymous anonymous_key now (served anonymous) l
  charged anonymous_key now (ok (did_principal did tenant)) l =
      charge_principal did now (served (did_principal did tenant)) l

  unfoldable pub read_gate :
      GateState E
      → Bool
      → Bool
      → List (Option String)
      → DateTime
      → String
      → Instant
      → ReadLimiters
      → GateAnswer E × ReadLimiters
  read_gate state is_read names_access_token values wall_now anonymous_key now l =
      if not is_read
      then (passed_on, l)
      else if bearer_static_active state && names_access_token
      then (refused schema_violation, l)
      else charged anonymous_key now (resolve state values wall_now) l
