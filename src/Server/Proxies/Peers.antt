-- ===== src/Server/Proxies/Peers.antt =====
-- Whose word the server takes for an address.
use gghstats.Base.{
  true, false, not, ◌||◌, List, [], ◌∷◌, Option, ◌≡◌, ◌⊎◌, inl, inr, refl, arith, Bool-cases,
}
use gghstats.Base.Text.{Text, is_empty, trim_space, split}
use gghstats.Server.Proxies.{
  Net, Request, is_some, contains_ip, lacks_networks, peer_ip, first_hop, forwarded_ip, client_ip,
}

module _ {Ip Cidr : Type 0} (net : Net Ip Cidr) where
  first_hop-cases :
      (peer : Text) (hops : List Text)
      → (first_hop net peer hops ≡ peer) ⊎ (is_some (net.parse_ip (first_hop net peer hops)) ≡ true)
  unfolding first_hop
  first_hop-cases peer [] = inl refl
  first_hop-cases peer (hop ∷ hops) = elim (Bool-cases (is_empty (trim_space hop))) [
    | inl e ↦ rw e (first_hop-cases peer hops)
    | inr e ↦ elim (Bool-cases (is_some (net.parse_ip (trim_space hop)))) [
      | inl p ↦ rw (e, p) (inr p)
      | inr p ↦ rw (e, p) (first_hop-cases peer hops)
    ]
  ]

  forwarded_ip-cases :
      (peer : Text) (r : Request)
      → (forwarded_ip net peer r ≡ peer) ⊎ (is_some (net.parse_ip (forwarded_ip net peer r)) ≡ true)
  unfolding forwarded_ip
  forwarded_ip-cases peer r = elim (Bool-cases (is_empty (trim_space r.x_forwarded_for))) [
    | inl e ↦ elim (Bool-cases (is_empty (trim_space r.x_real_ip))) [
      | inl f ↦ rw (e, f) (inl refl)
      | inr f ↦ elim (Bool-cases (is_some (net.parse_ip (trim_space r.x_real_ip)))) [
        | inl p ↦ rw (e, f, p) (inr p)
        | inr p ↦ rw (e, f, p) (inl refl)
      ]
    ]
    | inr e ↦ rw e (first_hop-cases peer (split b',' (trim_space r.x_forwarded_for)))
  ]

  -- A peer outside the trusted networks speaks for itself only.
  pub client_ip_untrusted :
      (trusted : Option (List Cidr)) (r : Request)
      → contains_ip net trusted (net.parse_ip (peer_ip net r.remote_addr)) ≡ false
      → client_ip net trusted r ≡ peer_ip net r.remote_addr
  unfolding client_ip
  client_ip_untrusted trusted r h = ground (arith, h)

  -- Every request is counted under the address of its peer, or its peer lies in a trusted network
  -- and it is counted under a text that parses as an address.
  pub client_ip-cases :
      (trusted : Option (List Cidr)) (r : Request)
      → (client_ip net trusted r ≡ peer_ip net r.remote_addr)
        ⊎ ((contains_ip net trusted (net.parse_ip (peer_ip net r.remote_addr)) ≡ true)
            × (is_some (net.parse_ip (client_ip net trusted r)) ≡ true))
  unfolding client_ip
  client_ip-cases trusted r =
      let peer = peer_ip net r.remote_addr in
      elim (Bool-cases (contains_ip net trusted (net.parse_ip peer))) [
        | inl c ↦
            elim (Bool-cases (lacks_networks net trusted || not (is_some (net.parse_ip peer)))) [
              | inl l ↦ inl (ground (arith, l))
              | inr l ↦ elim (forwarded_ip-cases peer r) [
                | inl same ↦ inl (ground (arith, l, c, same))
                | inr p ↦ inr (c, ground (arith, l, c, p))
              ]
            ]
        | inr c ↦ inl (client_ip_untrusted trusted r c)
      ]
