-- ===== src/Keyless/Claims.antt =====
-- The checks of a workload token's claims in `verify` of crates/acdp-registry-core/src/keyless/token.rs, and
-- `numeric` there.
use acdp_registry_rs.Keyless.Types.{
  audience_mismatch, confirmation_mismatch, token_invalid, KeylessRefusal,
}
use acdp_registry_rs.Keyless.Sdk.{or_violation, and_then, is_text, Sdk}
use acdp_registry_rs.Prelude.{
  ◌>>◌, ◌>>=◌, ◌+◌, min, leb, ◌>>=◌, not, string_eq, refuse_if, ok_or, ◌==◌, any, ok, none, false,
  Bool, List, Result, some, String, Option, ℕ,
}

abbrev pub clock_skew_seconds : ℕ
clock_skew_seconds = 60

-- `i64::MAX`, counted from `i64::MIN`
abbrev pub last_second : ℕ
last_second = 18446744073709551615

module _ {V M K J : Type 0} (sdk : Sdk V M K J) where
  abbrev pub or_floor : Option ℕ → Option ℕ → Option ℕ
  or_floor none f = f
  or_floor (some i) f = some i

  -- A NumericDate as whole seconds, rounded down.
  unfoldable pub numeric : Option V → Option ℕ
  numeric none = none
  numeric (some v) = or_floor (sdk.as_i64 v) (sdk.floor_f64 v)

  -- `iat` or `nbf`, where it is there.
  abbrev pub not_ahead : String → ℕ → Option V → Result KeylessRefusal (Unit {0})
  not_ahead why now none = ok tt
  not_ahead why now (some v) =
      ok_or (numeric (some v)) (token_invalid "iat or nbf is not a NumericDate") >>= λ t.
      refuse_if (not (leb t (min (now + clock_skew_seconds) last_second))) (token_invalid why)

  abbrev pub expected_issuer : Option String → M → Result KeylessRefusal (Unit {0})
  expected_issuer none claims = ok tt
  expected_issuer (some iss) claims =
      refuse_if (not (is_text (and_then (sdk.get "iss" claims) sdk.as_str) iss))
        (token_invalid "iss mismatch")

  abbrev pub listed_audience : String → Option (List V) → Bool
  listed_audience did none = false
  listed_audience did (some values) = any (λ v. is_text (sdk.as_str v) did) values

  -- A text, or an array that holds it.
  abbrev pub aud_ok : String → Option V → Bool
  aud_ok did none = false
  aud_ok did (some v) = elim (sdk.as_str v) [
    | some a ↦ a == did
    | none ↦ listed_audience did (sdk.as_array v)
  ]

  -- `cnf.jkt`, where it is there, against the request's key.
  abbrev pub confirmed_by : J → Option V → Result KeylessRefusal (Unit {0})
  confirmed_by jwk none = ok tt
  confirmed_by jwk (some v) = do
    jkt ← ok_or (sdk.as_str v) confirmation_mismatch
    thumb ← or_violation (sdk.thumbprint jwk)
    refuse_if (not (jkt == thumb)) confirmation_mismatch

  abbrev pub confirmed : J → Option V → Result KeylessRefusal (Unit {0})
  confirmed jwk none = ok tt
  confirmed jwk (some v) =
      ok_or (sdk.as_object v) confirmation_mismatch >>= λ cnf. confirmed_by jwk (sdk.get "jkt" cnf)

  -- The claims' checks in order; the answer is `exp`.
  unfoldable pub check_claims :
      Option String → String → String → J → ℕ → M → Result KeylessRefusal ℕ
  unfolding numeric
  check_claims expected_iss subject registry_did jwk now claims = do
    exp ← ok_or (numeric (sdk.get "exp" claims)) (token_invalid "exp missing")
    refuse_if (leb exp now) (token_invalid "expired")
    not_ahead "iat in the future" now (sdk.get "iat" claims)
    not_ahead "nbf in the future" now (sdk.get "nbf" claims)
    expected_issuer expected_iss claims
    refuse_if (not (is_text (and_then (sdk.get "sub" claims) sdk.as_str) subject))
        (token_invalid "sub mismatch")
    refuse_if (not (aud_ok registry_did (sdk.get "aud" claims))) audience_mismatch
    confirmed jwk (sdk.get "cnf" claims)
    ok exp
