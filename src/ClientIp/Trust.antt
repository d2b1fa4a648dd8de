-- ===== src/ClientIp/Trust.antt =====
-- Who can choose the address that a request is charged to.
use acdp_registry_rs.ClientIp.{
  from_header, is_empty, trusted_proxies, contains, peer_trusted, ForwardedHeaderTrust,
  resolve_client_ip_skipping, skipped, first_untrusted, TrustedProxies, parse_hop, IpAddr,
}
use acdp_registry_rs.Prelude.{
  none, zero, suc, Bool-cases, inr, ◌&&◌, Option-cases, inl, not, ◌⊎◌, Bool, refl, [], ◌∷◌, ◌++◌,
  false, length, ℕ, true, All, some, List, ◌≡◌, Option, String,
}

module _ (parse_ip : String → Option IpAddr) (parse_socket : String → Option IpAddr) where
  -- Hops that parse, and hops that parse to a trusted proxy.
  abbrev pub Parses : String → Type 0
  Parses hop = (ip : IpAddr) × (parse_hop parse_ip parse_socket hop ≡ some ip)

  abbrev pub IsProxy : TrustedProxies → String → Type 0
  IsProxy trusted hop =
      (ip : IpAddr) × (parse_hop parse_ip parse_socket hop ≡ some ip) × (contains trusted ip ≡ true)

  first_untrusted_lem :
      (trusted : TrustedProxies) (peer ip : IpAddr) (proxies : List String) (client : String)
      (forged : List String)
      → All (IsProxy trusted) proxies
      → parse_hop parse_ip parse_socket client ≡ some ip
      → contains trusted ip ≡ false
      → first_untrusted parse_ip parse_socket trusted peer (proxies ++ (client ∷ forged)) ≡ ip
  unfolding first_untrusted
  first_untrusted_lem trusted peer ip [] client forged all p u = rw (first_untrusted, p, u) refl
  first_untrusted_lem trusted peer ip (x ∷ proxies) client forged all p u =
      rw (first_untrusted, all.0.1, all.0.2)
        (first_untrusted_lem trusted peer ip proxies client forged all.1 p u)

  skipped_lem :
      (trusted : TrustedProxies) (peer ip : IpAddr) (edge hops : List String)
      → All Parses edge
      → skipped parse_ip parse_socket (length edge) trusted peer (edge ++ hops)
        ≡ first_untrusted parse_ip parse_socket trusted peer hops
  unfolding skipped
  skipped_lem trusted peer ip [] hops all = refl
  skipped_lem trusted peer ip (x ∷ edge) hops all =
      rw (skipped, all.0.1) (skipped_lem trusted peer ip edge hops all.1)

  -- Behind a trusted peer the client is the first hop, from the right and past the edge's own hops, that is
  -- no trusted proxy, where the hops to the right of it parse; what is written to the left of it, which the
  -- client may forge, has no effect.
  pub resolve_client_ip_skipping_client :
      (mode : ForwardedHeaderTrust) (trusted : TrustedProxies) (peer ip : IpAddr)
      (edge proxies : List String) (client : String) (forged : List String)
      → peer_trusted mode trusted peer ≡ true
      → All Parses edge
      → All (IsProxy trusted) proxies
      → parse_hop parse_ip parse_socket client ≡ some ip
      → contains trusted ip ≡ false
      → resolve_client_ip_skipping parse_ip parse_socket peer
          (some (edge ++ (proxies ++ (client ∷ forged))))
          trusted
          mode
          (length edge)
        ≡ ip
  unfolding resolve_client_ip_skipping
  resolve_client_ip_skipping_client mode trusted peer ip edge proxies client forged t e a p u =
      rw (t, skipped_lem trusted peer ip edge (proxies ++ (client ∷ forged)) e)
        (first_untrusted_lem trusted peer ip proxies client forged a p u)

  -- In the mode that trusts the listed proxies no header changes the address of a peer that is not one of them.
  pub resolve_client_ip_untrusted :
      (trusted : TrustedProxies) (peer : IpAddr) (xff : Option (List String)) (skip_rightmost : ℕ)
      → contains trusted peer ≡ false
      → resolve_client_ip_skipping parse_ip parse_socket peer xff trusted trusted_proxies
          skip_rightmost
        ≡ peer
  unfolding resolve_client_ip_skipping peer_trusted
  resolve_client_ip_untrusted trusted peer xff skip_rightmost h =
      rw (no_proxy (is_empty trusted.cidrs) (contains trusted peer) h) refl
    where
      no_proxy : (a b : Bool) → b ≡ false → (not a && b) ≡ false
      no_proxy true b h = refl
      no_proxy false b h = h

  first_untrusted-cases :
      (trusted : TrustedProxies) (peer : IpAddr) (hops : List String)
      → (first_untrusted parse_ip parse_socket trusted peer hops ≡ peer)
        ⊎ (contains trusted (first_untrusted parse_ip parse_socket trusted peer hops) ≡ false)
  unfolding first_untrusted
  first_untrusted-cases trusted peer [] = inl refl
  first_untrusted-cases trusted peer (hop ∷ hops) =
      elim (Option-cases (parse_hop parse_ip parse_socket hop)) [
        | inl garbage ↦ inl (rw (first_untrusted, garbage) refl)
        | inr (ip, e) ↦ elim (Bool-cases (contains trusted ip)) [
          | inl on ↦ rw (first_untrusted, e, on) (first_untrusted-cases trusted peer hops)
          | inr off ↦ inr (rw (first_untrusted, e, off) off)
        ]
      ]

  skipped-cases :
      (n : ℕ) (trusted : TrustedProxies) (peer : IpAddr) (hops : List String)
      → (skipped parse_ip parse_socket n trusted peer hops ≡ peer)
        ⊎ (contains trusted (skipped parse_ip parse_socket n trusted peer hops) ≡ false)
  unfolding skipped
  skipped-cases zero trusted peer hops = first_untrusted-cases trusted peer hops
  skipped-cases (suc n) trusted peer [] = inl refl
  skipped-cases (suc n) trusted peer (hop ∷ hops) =
      elim (Option-cases (parse_hop parse_ip parse_socket hop)) [
        | inl garbage ↦ inl (rw (skipped, garbage) refl)
        | inr (ip, e) ↦ rw (skipped, e) (skipped-cases n trusted peer hops)
      ]

  -- In every mode a request is charged to its peer or to an address that is no trusted proxy.
  pub resolve_client_ip_skipping-cases :
      (mode : ForwardedHeaderTrust) (trusted : TrustedProxies) (peer : IpAddr)
      (xff : Option (List String)) (skip_rightmost : ℕ)
      → (resolve_client_ip_skipping parse_ip parse_socket peer xff trusted mode skip_rightmost
          ≡ peer)
        ⊎ (contains trusted (
              resolve_client_ip_skipping parse_ip parse_socket peer xff trusted mode skip_rightmost)
            ≡ false)
  unfolding resolve_client_ip_skipping
  resolve_client_ip_skipping-cases mode trusted peer xff skip_rightmost =
      elim (Bool-cases (peer_trusted mode trusted peer)) [
        | inl on ↦ rw (resolve_client_ip_skipping, on) (header xff)
        | inr off ↦ inl (rw (resolve_client_ip_skipping, off) refl)
      ]
    where
      header :
          (xff : Option (List String))
          → (from_header parse_ip parse_socket skip_rightmost trusted peer xff ≡ peer)
            ⊎ (contains trusted (from_header parse_ip parse_socket skip_rightmost trusted peer xff)
                ≡ false)
      header none = inl refl
      header (some hops) = skipped-cases skip_rightmost trusted peer hops
