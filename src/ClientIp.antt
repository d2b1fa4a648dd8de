-- ===== src/ClientIp.antt =====
-- Client addresses: `Cidr`, `TrustedProxies` and `resolve_client_ip_skipping` of
-- crates/acdp-registry-core/src/rate_limit.rs, and `tenant_header_trusted` of
-- crates/acdp-registry-core/src/tenant_trust.rs. An address is its octets, and an `X-Forwarded-For` header
-- the list that `rsplit(',')` yields, the last hop first. What std's parsers make of a text is an argument.
pub mod Trust
pub mod Tests
use acdp_registry_rs.Prelude.{
  ◌^◌, nat_eq, ◌/◌, zero, ◌-◌, ◌&&◌, [], none, not, min, ◌==◌, suc, ◌∷◌, any, false, true,
  if◌then◌else◌, some, Option, Bool, List, String, ℕ,
}
use Prim.Native.Nat.{bit_and}

pub data IpAddr : Type 0 where
  v4 v6 : List ℕ → IpAddr

pub data ForwardedHeaderTrust : Type 0 where
  any_peer trusted_proxies : ForwardedHeaderTrust

pub data TenantHeaderTrust : Type 0 where
  nobody every_peer listed_proxies : TenantHeaderTrust

pub record Cidr : Type 0 where
  pub base : IpAddr
  pub prefix_len : ℕ

pub record TrustedProxies : Type 0 where
  pub cidrs : List Cidr

-- `IpAddr::to_canonical` of std: an IPv4-mapped IPv6 address is the IPv4 one.
abbrev mapped : ℕ → List ℕ → Option (List ℕ)
mapped zero (a ∷ b ∷ octets) = if a == 255 && b == 255 then some octets else none
mapped zero _ = none
mapped (suc n) (zero ∷ octets) = mapped n octets
mapped (suc n) _ = none

abbrev or_v6 : List ℕ → Option (List ℕ) → IpAddr
or_v6 octets none = v6 octets
or_v6 octets (some quad) = v4 quad

unfoldable pub canonical_ip : IpAddr → IpAddr
canonical_ip (v4 octets) = v4 octets
canonical_ip (v6 octets) = or_v6 octets (mapped 10 octets)

-- The mask of the top `n` bits of an octet.
abbrev mask : ℕ → ℕ
mask n = if n == 8 then 255 else 255 - 255 / 2 ^ n

-- The loop of `masked_eq`, with the bits that are left to compare.
unfoldable pub masked_eq : List ℕ → List ℕ → ℕ → Bool
masked_eq [] b bits = true
masked_eq (x ∷ a) [] bits = true
masked_eq (x ∷ a) (y ∷ b) bits =
    let n = min bits 8 in
    let rest = masked_eq a b (bits - n) in
    if bits == 0 then true else if bit_and x (mask n) == bit_and y (mask n) then rest else false

unfoldable pub contains_at : IpAddr → IpAddr → ℕ → Bool
contains_at (v4 b) (v4 o) prefix_len = masked_eq b o prefix_len
contains_at (v6 b) (v6 o) prefix_len = masked_eq b o prefix_len
contains_at _ _ prefix_len = false

-- `Cidr::contains` and `TrustedProxies::contains`
unfoldable pub cidr_contains : Cidr → IpAddr → Bool
cidr_contains c ip = contains_at c.base ip c.prefix_len

unfoldable pub contains : TrustedProxies → IpAddr → Bool
contains trusted ip = any (λ c. cidr_contains c ip) trusted.cidrs

abbrev is_empty : List Cidr → Bool
is_empty [] = true
is_empty (c ∷ cidrs) = false

unfoldable pub peer_trusted : ForwardedHeaderTrust → TrustedProxies → IpAddr → Bool
peer_trusted any_peer trusted peer = true
peer_trusted trusted_proxies trusted peer = not (is_empty trusted.cidrs) && contains trusted peer

unfoldable pub tenant_header_trusted : TenantHeaderTrust → Option IpAddr → TrustedProxies → Bool
tenant_header_trusted nobody peer proxies = false
tenant_header_trusted every_peer peer proxies = true
tenant_header_trusted listed_proxies none proxies = false
tenant_header_trusted listed_proxies (some ip) proxies = contains proxies (canonical_ip ip)

module _ (parse_ip : String → Option IpAddr) (parse_socket : String → Option IpAddr) where
  abbrev or_socket : Option IpAddr → Option IpAddr → Option IpAddr
  or_socket (some ip) socket = some (canonical_ip ip)
  or_socket none none = none
  or_socket none (some ip) = some (canonical_ip ip)

  -- `parse_hop`, on a trimmed hop
  unfoldable pub parse_hop : String → Option IpAddr
  parse_hop hop = or_socket (parse_ip hop) (parse_socket hop)

  -- The second loop: the first hop that is no trusted proxy.
  unfoldable pub first_untrusted : TrustedProxies → IpAddr → List String → IpAddr
  first_untrusted trusted peer [] = peer
  first_untrusted trusted peer (hop ∷ hops) =
      let rest = first_untrusted trusted peer hops in
      elim (parse_hop hop) [ none ↦ peer | some ip ↦ if contains trusted ip then rest else ip ]

  -- The first loop: the edge's own hops are passed over.
  unfoldable pub skipped : ℕ → TrustedProxies → IpAddr → List String → IpAddr
  skipped zero trusted peer hops = first_untrusted trusted peer hops
  skipped (suc n) trusted peer [] = peer
  skipped (suc n) trusted peer (hop ∷ hops) =
      let rest = skipped n trusted peer hops in
      elim (parse_hop hop) [ none ↦ peer | some ip ↦ rest ]

  abbrev pub from_header : ℕ → TrustedProxies → IpAddr → Option (List String) → IpAddr
  from_header skip_rightmost trusted peer none = peer
  from_header skip_rightmost trusted peer (some hops) = skipped skip_rightmost trusted peer hops

  unfoldable pub resolve_client_ip_skipping :
      IpAddr → Option (List String) → TrustedProxies → ForwardedHeaderTrust → ℕ → IpAddr
  resolve_client_ip_skipping peer xff trusted mode skip_rightmost =
      let forwarded = from_header skip_rightmost trusted peer xff in
      if peer_trusted mode trusted peer then forwarded else peer

  unfoldable pub resolve_client_ip :
      IpAddr → Option (List String) → TrustedProxies → ForwardedHeaderTrust → IpAddr
  resolve_client_ip peer xff trusted mode = resolve_client_ip_skipping peer xff trusted mode 0
