-- ===== src/Server/Settings/Session/Local.antt =====
-- Who may edit the settings where no API token is configured.
use gghstats.Base.{ℕ, true, false, none, some, ◌≡◌, ◌⊎◌, arith, Bool-cases, Option-cases, inl, inr}
use gghstats.Base.Text.{Text, is_empty, text_eq, text_eq_iff, trim_space}
use gghstats.Server.Proxies.{Net, Request}
use gghstats.Server.Access.{token_matches}
use gghstats.Server.Settings.Session.{
  AccessConfig, served, request_is_loopback, settings_request_authorized, valid_settings_session,
  handle_settings_route, trim_brackets,
}

module _ {Ip Cidr : Type 0} (net : Net Ip Cidr) where
  addressed :
      (host : Text)
      → elim (net.parse_ip host) [ none ↦ false | some ip ↦ net.is_loopback ip ] ≡ true
      → (ip : Ip) × (net.is_loopback ip ≡ true) × (net.parse_ip host ≡ some ip)
  addressed host h = elim (Option-cases (net.parse_ip host)) [
    | inl e ↦ absurd (ground (arith, h, e))
    | inr (ip, e) ↦ (ip, ground (arith, h, e), e)
  ]

  loopback :
      (r : Request)
      → request_is_loopback net r ≡ true
      → (is_empty (trim_space r.x_forwarded_for) ≡ true)
        × (is_empty (trim_space r.forwarded) ≡ true)
        × (ip : Ip) × (net.is_loopback ip ≡ true)
        × ((net.parse_ip (trim_brackets (trim_space r.remote_addr)) ≡ some ip)
            ⊎ ((host : Text) × (net.split_host (trim_space r.remote_addr) ≡ some host)
                × (net.parse_ip host ≡ some ip)))
  unfolding request_is_loopback
  loopback r h =
      let f : is_empty (trim_space r.x_forwarded_for) ≡ true = ground (arith, h) in
      let g : is_empty (trim_space r.forwarded) ≡ true = ground (arith, h) in
      elim (Option-cases (net.split_host (trim_space r.remote_addr))) [
        | inl e ↦
            let (ip, l, p) =
              addressed (trim_brackets (trim_space r.remote_addr)) (ground (arith, h, e, f, g)) in
            (f, g, ip, l, inl p)
        | inr (host, e) ↦
            let (ip, l, p) = addressed host (ground (arith, h, e, f, g)) in
            (f, g, ip, l, inr (host, e, p))
      ]

  -- The settings page is served only to a request with the configured token or a valid session; or,
  -- where no token is configured, if the settings are local, to a request without forwarding headers
  -- whose peer has a loopback address, read from the host of the connection or, where that has no
  -- port, from all of it without brackets.
  pub handle_settings_route-served :
      (hmac : Text → Text → Text) (cfg : AccessConfig) (r : Request) (now : ℕ)
      → handle_settings_route net hmac cfg r now ≡ served
      → ((is_empty cfg.api_token ≡ false)
          × ((r.x_api_token ≡ cfg.api_token)
              ⊎ (valid_settings_session hmac r.session_cookie cfg.api_token now ≡ true)))
        ⊎ ((is_empty cfg.api_token ≡ true)
            × (cfg.local_only_settings ≡ true)
            × (is_empty (trim_space r.x_forwarded_for) ≡ true)
            × (is_empty (trim_space r.forwarded) ≡ true)
            × (ip : Ip) × (net.is_loopback ip ≡ true)
            × ((net.parse_ip (trim_brackets (trim_space r.remote_addr)) ≡ some ip)
                ⊎ ((host : Text) × (net.split_host (trim_space r.remote_addr) ≡ some host)
                    × (net.parse_ip host ≡ some ip))))
  unfolding handle_settings_route settings_request_authorized token_matches
  handle_settings_route-served hmac cfg r now h = elim (Bool-cases (is_empty cfg.api_token)) [
    | inl e ↦
        let lo : cfg.local_only_settings ≡ true = ground (arith, h, e) in
        let back : request_is_loopback net r ≡ true = ground (arith, h, e) in
        let (f, g, ip, l, p) = loopback r back in inr (e, lo, f, g, ip, l, p)
    | inr e ↦ elim (Bool-cases (text_eq r.x_api_token cfg.api_token)) [
      | inl t ↦ inl (e, inl ((text_eq_iff r.x_api_token cfg.api_token).0 t))
      | inr t ↦ inl (e, inr (ground (arith, h, e, t)))
    ]
  ]
