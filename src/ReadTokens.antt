-- ===== src/ReadTokens.antt =====
-- The `bearer_static` read tokens: crates/acdp-registry-auth/src/read_token.rs. Base64 and SHA-256 are
-- arguments, and a byte is a number. A text is given by its bytes where they count: tokens are ASCII.
pub mod Digests
use acdp_registry_rs.Auth.Service.{tenant_for_agent}
use acdp_registry_rs.Auth.Claims.{TenantAgentBinding}
use acdp_registry_rs.Time.{DateTime}
use acdp_registry_rs.Prelude.{
  any, codes, true, nat_eq, Result, length, false, not, leb, Bool, ◌==◌, ◌∷◌, [], ◌&&◌, ◌||◌, ◌>>=◌,
  ◌>>◌, ◌*◌, ◌+◌, ◌-◌, ok, some, none, if◌then◌else◌, ℕ, List, String, Option, refuse_if, ok_or,
}
use Prim.Native.Nat.{bit_or, bit_xor}
use Prim.Native.Char.{code}

pub data ReadTokenError : Type 0 where
  malformed unknown expired : ReadTokenError

pub record StaticReadPrincipal : Type 0 where
  pub did : String
  pub tenant : Option String
  pub token_id : String

pub record ReadTokenEntry : Type 0 where
  pub id : String
  pub did : String
  pub sha256 : String
  pub expires_at : Option DateTime
  pub tenant : Option String
  pub operator_administered : Bool

pub record Entry : Type 0 where
  pub hash : List ℕ
  pub expires_at : Option DateTime
  pub principal : StaticReadPrincipal

abbrev pub read_token_prefix : String
read_token_prefix = "acdp_rt_"

-- `str::strip_prefix`
abbrev pub strip_prefix : String → String → Option String
strip_prefix String.[] s = some s
strip_prefix (String.◌∷◌ c p) String.[] = none
strip_prefix (String.◌∷◌ c p) (String.◌∷◌ d s) =
    let rest = strip_prefix p s in if code c == code d then rest else none

abbrev pub is_some : Option String → Bool
is_some none = false
is_some (some s) = true

unfoldable pub is_read_token : String → Bool
is_read_token token = is_some (strip_prefix read_token_prefix token)

-- `is_ascii_digit() || (b'a'..=b'f').contains(&b)`
abbrev pub is_hex : ℕ → Bool
is_hex b = (leb 48 b && leb b 57) || (leb 97 b && leb b 102)

-- `to_digit(16)` of such a byte
abbrev pub digit_of : ℕ → ℕ
digit_of b = if leb b 57 then b - 48 else b - 87

abbrev pub hex_pairs : List ℕ → List ℕ
hex_pairs (hi ∷ lo ∷ bytes) = (digit_of hi * 16 + digit_of lo) ∷ hex_pairs bytes
hex_pairs _ = []

unfoldable pub parse_sha256_hex : String → Option (List ℕ)
parse_sha256_hex s =
    if not (length (codes s) == 64) || any (λ b. not (is_hex b)) (codes s)
    then none
    else some (hex_pairs (codes s))

-- `Option::or_else`
abbrev pub or_tenant : Option String → Option String → Option String
or_tenant none other = other
or_tenant (some t) other = some t

abbrev pub entry_of : List TenantAgentBinding → ReadTokenEntry → List ℕ → Entry
entry_of bindings e hash = record {
  hash = hash;
  expires_at = e.expires_at;
  principal = record {
    did = e.did;
    tenant = or_tenant e.tenant (tenant_for_agent bindings e.did);
    token_id = e.id;
  };
}

-- `ReadTokens::from_config`
unfoldable pub from_config : List TenantAgentBinding → List ReadTokenEntry → List Entry
from_config bindings [] = []
from_config bindings (e ∷ configured) =
    let rest = from_config bindings configured in
    elim (parse_sha256_hex e.sha256) [ none ↦ rest | some hash ↦ entry_of bindings e hash ∷ rest ]

abbrev pub ct_fold : ℕ → List ℕ → List ℕ → ℕ
ct_fold acc (x ∷ a) (y ∷ b) = ct_fold (bit_or acc (bit_xor x y)) a b
ct_fold acc _ _ = acc

unfoldable pub ct_eq_32 : List ℕ → List ℕ → Bool
ct_eq_32 a b = ct_fold 0 a b == 0

-- The loop over the entries: the last that matches.
unfoldable pub find_entry : List ℕ → Option Entry → List Entry → Option Entry
find_entry digest found [] = found
find_entry digest found (e ∷ entries) =
    find_entry digest (if ct_eq_32 e.hash digest then some e else found) entries

abbrev pub has_expired : Option DateTime → DateTime → Bool
has_expired none now = false
has_expired (some t) now = leb t now

abbrev pub is_token_bytes : Option (List ℕ) → Bool
is_token_bytes none = false
is_token_bytes (some bytes) = length bytes == 32

module _ (decode : String → Option (List ℕ)) (sha256 : String → List ℕ) where
  -- `ReadTokens::validate`
  unfoldable pub validate_read_token :
      List Entry → String → DateTime → Result ReadTokenError StaticReadPrincipal
  validate_read_token entries token now = do
    body ← ok_or (strip_prefix read_token_prefix token) malformed
    refuse_if (not (length (codes body) == 43) || not (is_token_bytes (decode body))) malformed
    entry ← ok_or (find_entry (sha256 token) none entries) unknown
    refuse_if (has_expired entry.expires_at now) expired
    ok entry.principal
