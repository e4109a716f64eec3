-- ===== src/Server/Access/Blocking.antt =====
-- Which requests the whitelist stops.
use gghstats.Base.{Bool, true, false, List, [], ◌∷◌, ◌++◌, any, ◌≡◌, inl, inr, ap, ◌∙◌, arith, In}
use gghstats.Base.Text.{Text, has_prefix-append}
use gghstats.Server.Proxies.{Net, Request, contains_ip, peer_ip}
use gghstats.Server.Proxies.Peers.{client_ip_untrusted}
use gghstats.Server.Access.{
  MiddlewareSkip, Whitelist, forbidden, skip_matches, token_matches, ensure_trailing_slash,
  under_prefix, path_matches, allowed, whitelist_middleware,
}

any-In : (p : Text → Bool) (x : Text) (xs : List Text) → In x xs → p x ≡ true → any p xs ≡ true
any-In p x [] i h = elim i [ ]
any-In p x (y ∷ ys) (inl e) h = ground (arith, ap p e, h)
any-In p x (y ∷ ys) (inr i) h = ground (arith, any-In p x ys i h)

module _ {Ip Cidr : Type 0} (net : Net Ip Cidr) where
  -- A protected prefix protects each path below it.
  path_matches-below :
      (w : Whitelist Cidr) (prefix rest : Text)
      → In prefix w.paths
      → path_matches net w (ensure_trailing_slash prefix ++ rest) ≡ true
  unfolding path_matches under_prefix
  path_matches-below w prefix rest i =
      let p = has_prefix-append rest (ensure_trailing_slash prefix) in
      let a =
        any-In (λ q. under_prefix (ensure_trailing_slash prefix ++ rest) q) prefix w.paths i
          (ground (arith, p)) in
      ground (arith, a)

  -- A request to a path below a protected one, that is not exempt and has not the token, from a
  -- peer that is neither trusted nor in the listed networks, is forbidden whatever its headers say.
  pub whitelist_middleware-blocks :
      (w : Whitelist Cidr) (exempt : MiddlewareSkip) (r : Request) (prefix rest : Text)
      → In prefix w.paths
      → r.path ≡ ensure_trailing_slash prefix ++ rest
      → skip_matches exempt r.path ≡ false
      → token_matches r.x_api_token w.api_token ≡ false
      → contains_ip net w.trusted (net.parse_ip (peer_ip net r.remote_addr)) ≡ false
      → allowed net w (peer_ip net r.remote_addr) ≡ false
      → whitelist_middleware net w exempt r ≡ forbidden
  unfolding whitelist_middleware
  whitelist_middleware-blocks w exempt r prefix rest i at skip token trust out =
      let under = ap (path_matches net w) at ∙ path_matches-below w prefix rest i in
      let ip = client_ip_untrusted net w.trusted r trust in
      rw (skip, under, token, ip, out) (ground arith)
