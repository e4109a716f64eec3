-- ===== src/Examples/Server.antt =====
-- Requests to a server behind a proxy at 10.0.0.1, and its settings.
use gghstats.Base.{
  ℕ, ◌-◌, Bool, true, false, ltb, if◌then◌else◌, List, [], ◌∷◌, Option, none, some, ◌≡◌, ◌⊎◌, inl,
  refl, arith,
}
use gghstats.Base.Text.{Text, lit, text_eq, is_empty, has_prefix, has_suffix}
use gghstats.I18n.{before, found}
use gghstats.Server.Proxies.{Net, Request, is_some, contains_ip, peer_ip, client_ip}
use gghstats.Server.Proxies.Peers.{client_ip-cases}
use gghstats.Server.Access.{
  MiddlewareSkip, Whitelist, forbidden, skip_matches, public_middleware_skip, proxy_prefixes,
  token_matches, ensure_trailing_slash, allowed, whitelist_middleware,
}
use gghstats.Server.Access.Blocking.{whitelist_middleware-blocks}
use gghstats.Server.RateLimit.{Limiter, RateLimiterEntry, Event, arrival, tick, serve_all}
use gghstats.Server.RateLimit.Isolation.{serve_all-own_verdicts, verdicts_of, own_verdicts, account}

-- An address is a text of digits and dots here, and a network holds the address before its mask.
abbrev pub is_address : Text → Bool
is_address [] = false
is_address (c ∷ s) = ltb c b':'

abbrev pub net : Net Text Text
net = record {
  parse_ip = λ s. if is_address s then some s else none;
  parse_cidr = λ s. some s;
  contains = λ c ip. text_eq (before b'/' c) ip;
  split_host = λ s. if found b':' s then some (before b':' s) else none;
  is_loopback = λ ip. text_eq ip (lit "127.0.0.1");
}

abbrev pub request : Text → Text → Text → Request
request path addr forwarded_for = record {
  path = path;
  remote_addr = addr;
  x_forwarded_for = forwarded_for;
  x_real_ip = [];
  forwarded = [];
  x_api_token = [];
  session_cookie = [];
}

abbrev proxies : Option (List Text)
proxies = some (lit "10.0.0.1/32" ∷ [])

abbrev spoofed : Request
spoofed = request (lit "/api/v1/repos") (lit "9.9.9.9:4000") (lit "10.0.0.7")

client_ip-cases_example :
    (client_ip net proxies spoofed ≡ peer_ip net spoofed.remote_addr)
    ⊎ ((contains_ip net proxies (net.parse_ip (peer_ip net spoofed.remote_addr)) ≡ true)
        × (is_some (net.parse_ip (client_ip net proxies spoofed)) ≡ true))
client_ip-cases_example = client_ip-cases net proxies spoofed

abbrev whitelist : Whitelist Text
whitelist = record {
  cidrs = lit "10.0.0.7/32" ∷ [];
  paths = lit "/api" ∷ [];
  api_token = lit "s3cret";
  trusted = proxies;
}

abbrev skip : MiddlewareSkip
skip = public_middleware_skip []

whitelist_middleware-blocks_example : whitelist_middleware net whitelist skip spoofed ≡ forbidden
unfolding ensure_trailing_slash has_suffix has_prefix skip_matches public_middleware_skip
    proxy_prefixes token_matches text_eq is_empty contains_ip peer_ip allowed before found
whitelist_middleware-blocks_example =
    whitelist_middleware-blocks net whitelist skip spoofed (lit "/api") (lit "v1/repos") (inl refl)
      refl refl refl refl refl

-- A bucket of two tokens that is never filled again.
abbrev rate : Limiter ℕ
rate = record { full = 2; allow = λ now b. (ltb 0 b, b - 1) }

abbrev events : List Event
events =
    arrival 1 (request (lit "/") (lit "9.9.9.9:1") [])
    ∷ arrival 2 (request (lit "/") (lit "8.8.8.8:1") [])
    ∷ arrival 3 (request (lit "/") (lit "9.9.9.9:2") [])
    ∷ tick 4
    ∷ arrival 5 (request (lit "/") (lit "9.9.9.9:3") [])
    ∷ []

abbrev empty_table : List (RateLimiterEntry ℕ)
empty_table = []

serve_all-own_verdicts_example :
    verdicts_of net proxies rate skip
      (lit "9.9.9.9")
      (serve_all net proxies rate skip events empty_table)
    ≡ own_verdicts net proxies rate skip
        (lit "9.9.9.9")
        events
        (account net proxies rate skip (lit "9.9.9.9") empty_table)
serve_all-own_verdicts_example =
    serve_all-own_verdicts net proxies rate skip (lit "9.9.9.9") events empty_table
      (λ ip. omega arith)
