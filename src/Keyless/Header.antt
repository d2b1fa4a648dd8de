-- ===== src/Keyless/Header.antt =====
-- `Header::parse` of crates/acdp-registry-core/src/keyless/token.rs.
use acdp_registry_rs.Keyless.Types.{token_invalid, KeylessRefusal}
use acdp_registry_rs.Keyless.Sdk.{
  oidc, spiffe, eddsa, es384, es256, ps512, and_then, ps384, ps256, rs512, is_text, rs384, rs256,
  Sdk, Kind, Algorithm,
}
use acdp_registry_rs.Prelude.{
  ◌>>◌, ◌>>=◌, codes, ◌>>◌, ◌>>=◌, string_eq, any, ok_or, nat_eq, refuse_if, ◌||◌, some, true, ok,
  false, ◌==◌, not, [], Result, Bool, if◌then◌else◌, none, take_while, ◌∷◌, Option, String, List, ℕ,
}

pub record Header : Type 0 where
  pub alg : Algorithm
  pub alg_name : String
  pub kid : Option String

abbrev pub oidc_algs : List String
oidc_algs = "RS256" ∷ "PS256" ∷ "ES256" ∷ "ES384" ∷ "EdDSA" ∷ []

abbrev pub spiffe_algs : List String
spiffe_algs = "RS256" ∷ "RS384" ∷ "RS512" ∷ "PS256" ∷ "PS384" ∷ "PS512" ∷ "ES256" ∷ "ES384" ∷ []

abbrev pub allowed : Kind → List String
allowed oidc = oidc_algs
allowed spiffe = spiffe_algs

-- `token.split('.').next()`
abbrev pub first_segment : List ℕ → List ℕ
first_segment token = take_while (λ c. not (c == b'.')) token

abbrev pub find_name : String → List String → Option String
find_name alg [] = none
find_name alg (a ∷ rest) = let found = find_name alg rest in if a == alg then some a else found

unfoldable pub algorithm : String → Algorithm
algorithm name =
    if name == "RS256"
    then rs256
    else if name == "RS384"
    then rs384
    else if name == "RS512"
    then rs512
    else if name == "PS256"
    then ps256
    else if name == "PS384"
    then ps384
    else if name == "PS512"
    then ps512
    else if name == "ES256"
    then es256
    else if name == "ES384"
    then es384
    else eddsa

abbrev pub malformed : KeylessRefusal
malformed = token_invalid "malformed JOSE header"

abbrev pub is_some {ℓ} : {A : Type ℓ} → Option A → Bool
is_some none = false
is_some (some a) = true

module _ {V M K J : Type 0} (sdk : Sdk V M K J) where
  -- `kid`: none, a text, or malformed.
  abbrev pub kid_of : Option V → Result KeylessRefusal (Option String)
  kid_of none = ok none
  kid_of (some v) = ok_or (sdk.as_str v) malformed >>= λ k. ok (some k)

  -- `typ`: none, or `JWT` or `JOSE`.
  abbrev pub typ_allowed : Option V → Bool
  typ_allowed none = true
  typ_allowed (some v) = is_text (sdk.as_str v) "JWT" || is_text (sdk.as_str v) "JOSE"

  abbrev pub is_svid_member : String → Bool
  is_svid_member k = (k == "alg") || (k == "kid") || (k == "typ")

  -- The rules of a JWT-SVID's header.
  abbrev pub kind_rules : Kind → M → Option String → Result KeylessRefusal (Unit {0})
  kind_rules oidc h kid = ok tt
  kind_rules spiffe h kid =
      refuse_if (any (λ k. not (is_svid_member k)) (sdk.keys_of h))
        (token_invalid "JWT-SVID header holds more than alg, kid and typ")
      >> (refuse_if (not (is_some kid)) (token_invalid "JWT-SVID has no kid")
          >> refuse_if (not (typ_allowed (sdk.get "typ" h)))
              (token_invalid "JWT-SVID typ not JWT or JOSE"))

  unfoldable pub parse_header : String → Kind → Result KeylessRefusal Header
  unfolding algorithm
  parse_header token kind = do
    raw ← ok_or (sdk.b64_decode (first_segment (codes token))) malformed
    h ← ok_or (sdk.from_slice raw) malformed
    refuse_if (is_some (sdk.get "crit" h)) (token_invalid "crit header not understood")
    alg ← ok_or (and_then (sdk.get "alg" h) sdk.as_str) malformed
    alg_name ← ok_or (find_name alg (allowed kind)) (token_invalid "alg not accepted")
    kid ← kid_of (sdk.get "kid" h)
    kind_rules kind h kid
    ok (record { alg = algorithm alg_name; alg_name = alg_name; kid = kid })
