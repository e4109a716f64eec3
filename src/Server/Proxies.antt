-- ===== src/Server/Proxies.antt =====
-- The address a request comes from: internal/server/trusted.go, and `clientIP` and `peerIP` of
-- internal/server/ratelimit.go. The package net is a parameter.
pub mod Peers
use gghstats.Base.{
  ℕ, Bool, true, false, not, ◌&&◌, ◌||◌, ◌==◌, if◌then◌else◌, List, [], ◌∷◌, ◌++◌, Option, none,
  some, any, no_items,
}
use gghstats.Base.Text.{Text, lit, is_empty, trim_space, split}

-- What the server calls of the package net; an address or a network that does not parse is `none`.
pub record Net (Ip Cidr : Type 0) : Type 0 where
  pub parse_ip : Text → Option Ip
  pub parse_cidr : Text → Option Cidr
  pub contains : Cidr → Ip → Bool
  pub split_host : Text → Option Text
  pub is_loopback : Ip → Bool

-- The parts of an HTTP request that decide on access; an absent header is ''.
pub record Request : Type 0 where
  pub path : Text
  pub remote_addr : Text
  pub x_forwarded_for : Text
  pub x_real_ip : Text
  pub forwarded : Text
  pub x_api_token : Text
  pub session_cookie : Text

-- strings.Contains with a text of one character.
unfoldable pub has_char : ℕ → Text → Bool
has_char c s = any (λ d. d == c) s

unfoldable pub with_default_host_mask : Text → Text
with_default_host_mask cidr =
    if has_char b'/' cidr
    then cidr
    else if has_char b':' cidr
    then cidr ++ lit "/128"
    else cidr ++ lit "/32"

abbrev pub is_some {ℓ} : {A : Type ℓ} → Option A → Bool
is_some none = false
is_some (some a) = true

module _ {Ip Cidr : Type 0} (net : Net Ip Cidr) where
  -- One entry of a list of networks: empty and invalid ones are skipped.
  unfoldable pub add_network : Text → List Cidr → List Cidr
  add_network raw nets =
      let cidr = trim_space raw in
      if is_empty cidr
      then nets
      else elim (net.parse_cidr (with_default_host_mask cidr)) [ none ↦ nets | some n ↦ n ∷ nets ]

  unfoldable pub networks : List Text → List Cidr
  networks [] = []
  networks (raw ∷ entries) = add_network raw (networks entries)

  unfoldable pub parse_trusted_proxies : Text → Option (List Cidr)
  parse_trusted_proxies s = some (networks (split b',' s))

  -- The receiver `none` is nil.
  unfoldable pub contains_ip : Option (List Cidr) → Option Ip → Bool
  contains_ip none ip = false
  contains_ip (some nets) none = false
  contains_ip (some nets) (some ip) = any (λ n. net.contains n ip) nets

  unfoldable pub lacks_networks : Option (List Cidr) → Bool
  lacks_networks none = true
  lacks_networks (some nets) = no_items nets

  unfoldable pub should_warn_trusted_proxies : Option (List Cidr) → Bool → Bool → Bool
  should_warn_trusted_proxies trusted rate_limit_enabled whitelist_active =
      if not rate_limit_enabled && not whitelist_active then false else lacks_networks trusted

  unfoldable pub peer_ip : Text → Text
  peer_ip remote_addr = elim (net.split_host remote_addr) [ none ↦ remote_addr | some host ↦ host ]

  -- The loop over the hops: the first that is an address.
  unfoldable pub first_hop : Text → List Text → Text
  first_hop peer [] = peer
  first_hop peer (hop ∷ hops) =
      let ip = trim_space hop in
      let rest = first_hop peer hops in
      if is_empty ip then rest else if is_some (net.parse_ip ip) then ip else rest

  -- The end of `clientIP`, for a trusted peer.
  unfoldable pub forwarded_ip : Text → Request → Text
  forwarded_ip peer r =
      let xff = trim_space r.x_forwarded_for in
      let xri = trim_space r.x_real_ip in
      let hop = first_hop peer (split b',' xff) in
      if not (is_empty xff)
      then hop
      else if not (is_empty xri)
      then (if is_some (net.parse_ip xri) then xri else peer)
      else peer

  unfoldable pub client_ip : Option (List Cidr) → Request → Text
  client_ip trusted r =
      let peer = peer_ip r.remote_addr in
      let parsed = net.parse_ip peer in
      if lacks_networks trusted || not (is_some parsed) || not (contains_ip trusted parsed)
      then peer
      else forwarded_ip peer r
