-- ===== src/ClientIp/Tests.antt =====
-- The theorems on client addresses, behind one trusted proxy.
use acdp_registry_rs.ClientIp.Trust.{resolve_client_ip_untrusted, resolve_client_ip_skipping_client}
use acdp_registry_rs.ClientIp.{
  canonical_ip, trusted_proxies, parse_hop, masked_eq, contains_at, cidr_contains, v4,
  resolve_client_ip_skipping, contains, peer_trusted, IpAddr, TrustedProxies,
}
use acdp_registry_rs.Prelude.{
  refl, ◌≡◌, string_eq, ◌==◌, [], if◌then◌else◌, ◌∷◌, none, some, Option, String,
}

abbrev proxies : TrustedProxies
proxies = record { cidrs = record { base = v4 (10 ∷ 0 ∷ 0 ∷ 0 ∷ []); prefix_len = 8 } ∷ [] }

abbrev proxy : IpAddr
proxy = v4 (10 ∷ 1 ∷ 2 ∷ 3 ∷ [])

abbrev client : IpAddr
client = v4 (203 ∷ 0 ∷ 113 ∷ 9 ∷ [])

abbrev parse_ip : String → Option IpAddr
parse_ip hop =
    if hop == "10.1.2.3" then some proxy else if hop == "203.0.113.9" then some client else none

abbrev parse_socket : String → Option IpAddr
parse_socket hop = none

resolve_client_ip_skipping_client_example :
    resolve_client_ip_skipping parse_ip parse_socket proxy
      (some ("10.1.2.3" ∷ "10.1.2.3" ∷ "203.0.113.9" ∷ "forged" ∷ []))
      proxies
      trusted_proxies
      1
    ≡ client
unfolding peer_trusted contains cidr_contains contains_at masked_eq parse_hop canonical_ip
resolve_client_ip_skipping_client_example =
    resolve_client_ip_skipping_client parse_ip parse_socket trusted_proxies proxies proxy client
      ("10.1.2.3" ∷ []) ("10.1.2.3" ∷ []) "203.0.113.9" ("forged" ∷ []) refl ((proxy, refl), tt)
      ((proxy, refl, refl), tt) refl refl

resolve_client_ip_untrusted_example :
    resolve_client_ip_skipping parse_ip parse_socket client
      (some ("10.1.2.3" ∷ []))
      proxies
      trusted_proxies
      0
    ≡ client
unfolding contains cidr_contains contains_at masked_eq
resolve_client_ip_untrusted_example =
    resolve_client_ip_untrusted parse_ip parse_socket proxies client (some ("10.1.2.3" ∷ [])) 0 refl
