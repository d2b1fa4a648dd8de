-- ===== src/Keyless/Tests.antt =====
-- The key cache and the check of a token at concrete data, and the witnesses of their theorems.
use acdp_registry_rs.Keyless.Claims.{numeric, check_claims}
use acdp_registry_rs.Keyless.SigningKey.{decoding_key, is_candidate, select_key}
use acdp_registry_rs.Keyless.Header.{parse_header}
use acdp_registry_rs.Keyless.Jwks.Traffic.{fetches_of-run}
use acdp_registry_rs.Keyless.Token.Verified.{verify-Vouched, Vouched}
use acdp_registry_rs.Keyless.Token.{
  after_key, pick_key, accept, before_fetch, verify, VerifiedToken, Network,
}
use acdp_registry_rs.Keyless.Jwks.Freshness.{handed_out-FromIssuer, FromIssuer, handed_out}
use acdp_registry_rs.Keyless.Jwks.Spent.{InWindow, fetches_of}
use acdp_registry_rs.Keyless.Jwks.Calls.{call, Call, run}
use acdp_registry_rs.Keyless.Jwks.{
  stale, store, after_forced, after_fetch, counted_fetch, force_slot, lookup_slot, transport,
  refresh_for_unknown_kid, keys, Fetched, new_cache, Target,
}
use acdp_registry_rs.Keyless.Types.{
  oidc_source, KeySource, KeySet, IssuerJwk, KeylessConfig, OidcIssuer,
}
use acdp_registry_rs.Keyless.Sdk.{oidc_identity, IdentityDescriptor, Sdk}
use acdp_registry_rs.Prelude.{
  string_eq, arith, ok_injective, insert, ◌<◌, sym, ◌==◌, refl, lookup, ◌+◌, false, ap, err,
  if◌then◌else◌, ◌≤◌, ◌≡◌, true, ok, [], some, none, All, ◌∷◌, Option, List, String, ℕ,
}

data Json : Type 0 where
  text : String → Json
  number : ℕ → Json

abbrev JsonMap : Type 0
JsonMap = List (String × Json)

abbrev member : String → JsonMap → Option Json
member name [] = none
member name ((k, v) ∷ rest) = let found = member name rest in if k == name then some v else found

abbrev names : JsonMap → List String
names [] = []
names ((k, v) ∷ rest) = k ∷ names rest

abbrev as_text : Json → Option String
as_text (text s) = some s
as_text (number n) = none

abbrev as_number : Json → Option ℕ
as_number (text s) = none
as_number (number n) = some n

abbrev claims : JsonMap
claims =
    ("exp", number 2000)
    ∷ ("iss", text "https://i.example")
    ∷ ("sub", text "job-1")
    ∷ ("aud", text "did:web:r.example")
    ∷ []

abbrev sdk : Sdk Json JsonMap (Unit {0}) String
sdk = record {
  validate = λ identity. ok tt;
  spiffe_trust_domain = λ subject. none;
  token_hash = λ t. t;
  thumbprint = λ j. ok j;
  b64_decode = λ bytes. some bytes;
  from_slice = λ bytes. some (("alg", text "EdDSA") ∷ ("kid", text "k1") ∷ []);
  get = member;
  keys_of = names;
  as_str = as_text;
  as_array = λ v. none;
  as_object = λ v. none;
  as_i64 = as_number;
  floor_f64 = λ v. none;
  from_rsa_components = λ n e. none;
  from_ec_components = λ x y. none;
  from_ed_components = λ x. some tt;
  decode = λ alg k t. some claims;
}

abbrev issuer : OidcIssuer
issuer = record { issuer = "https://i.example"; jwks_uri = some "https://i.example/jwks" }

abbrev cfg : KeylessConfig
cfg = record {
  enabled = true;
  oidc_issuers = issuer ∷ [];
  spiffe_trust_domains = [];
  jwks_cache_ttl_seconds = 600;
  jwks_max_stale_seconds = 3600;
}

abbrev key : IssuerJwk
key = record {
  kty = "OKP";
  kid = some "k1";
  alg = none;
  use_ = none;
  crv = some "Ed25519";
  n = none;
  e = none;
  x = some "AA";
  y = none;
}

abbrev published : KeySet
published = record { keys = key ∷ [] }

abbrev source : KeySource
source = oidc_source "https://i.example"

abbrev Serves : Target → ℕ → KeySet → Type 0
Serves target t ks = ks ≡ published

abbrev web : Target → Fetched
web target = ok (published, some 120)

abbrev down : Target → Fetched
down target = err transport

web_Honest :
    (target : Target) (ks : KeySet) (max_age : Option ℕ)
    → web target ≡ ok (ks, max_age)
    → Serves target 5 ks
web_Honest target ks max_age h = ap (λ (p : KeySet × Option ℕ). p.0) (sym (ok_injective h))

abbrev looked : ℕ → (Target → Fetched) → Call
looked now net = record { source = source; unknown_kid = false; now = now; web = net }

abbrev forced : ℕ → (Target → Fetched) → Call
forced now net = record { source = source; unknown_kid = true; now = now; web = net }

-- A lookup that fails, one in the back-off, and two refetches for an unknown `kid`.
abbrev calls : List Call
calls =
    looked 1000 down ∷ looked 2000 web ∷ forced 3000 web ∷ forced 4000 web ∷ looked 5000 web ∷ []

in_window : All (λ (k : Call). InWindow 1000 31000 k.now) calls
in_window = (
  at 1000 (omega arith) (omega arith),
  (
    at 2000 (omega arith) (omega arith),
    (
      at 3000 (omega arith) (omega arith),
      (at 4000 (omega arith) (omega arith), (at 5000 (omega arith) (omega arith), tt)),
    ),
  ),
)
  where
    at : (now : ℕ) → 1000 ≤ now → now < 31000 → InWindow 1000 31000 now
    at now low high = record {
      starts = low;
      ends = high;
      narrow = omega arith;
      early = omega arith;
    }

fetched_twice : (run calls (new_cache cfg)).log ≡ source ∷ source ∷ []
unfolding run call keys refresh_for_unknown_kid new_cache lookup insert lookup_slot force_slot
    counted_fetch after_fetch after_forced store stale
fetched_twice = refl

new_ttl : (new_cache cfg).ttl_seconds ≡ 600
unfolding new_cache
new_ttl = refl

fetches_of-run_example :
    fetches_of source (run calls (new_cache cfg)).log ≤ fetches_of source (new_cache cfg).log + 2
fetches_of-run_example =
    fetches_of-run 1000 31000 source calls (new_cache cfg) in_window (omega (arith, new_ttl))

handed : handed_out (looked 5 web) (run [] (new_cache cfg)) ≡ some published
unfolding handed_out run keys new_cache lookup insert lookup_slot counted_fetch after_fetch
handed = refl

handed_out-FromIssuer_example : FromIssuer Serves cfg source 5 published
handed_out-FromIssuer_example =
    handed_out-FromIssuer Serves cfg [] (looked 5 web) tt web_Honest handed

abbrev net : Network
net = record { looked = web; looked_at = 5; forced = web; forced_at = 5 }

abbrev identity : IdentityDescriptor
identity = oidc_identity "https://i.example" "job-1" "e30.e30.c2ln"

abbrev verified : VerifiedToken
verified = record { exp = 2000; token_hash = "e30.e30.c2ln" }

verifies :
    (verify sdk cfg net identity "did:web:r.example" "thumb" 1000 (run [] (new_cache cfg))).0
    ≡ ok verified
unfolding verify before_fetch accept parse_header pick_key keys run new_cache lookup insert
    lookup_slot counted_fetch after_fetch select_key is_candidate after_key decoding_key
    check_claims numeric
verifies = refl

verify-Vouched_example :
    Vouched sdk cfg Serves net identity "did:web:r.example" "thumb" 1000 verified
verify-Vouched_example =
    verify-Vouched sdk cfg Serves [] net identity "did:web:r.example" "thumb" 1000 tt
      (λ source. web_Honest) (λ source. web_Honest) verifies
