-- ===== src/Server/Access.antt =====
-- Which requests pass: internal/server/middleware_skip.go, token.go and whitelist.go. The counters of
-- the metrics are left out, and a response is its status.
pub mod Blocking
use gghstats.Base.{
  ℕ, Bool, true, false, not, ◌&&◌, ◌||◌, if◌then◌else◌, List, [], ◌∷◌, ◌++◌, Option, none, some,
  any, map, no_items,
}
use gghstats.Base.Text.{
  Text, lit, text_eq, is_empty, trim_space, split, has_prefix, has_suffix, drop_last,
}
use gghstats.Server.Proxies.{Net, Request, client_ip, networks}

abbrev badge_path_prefix : Text
badge_path_prefix = lit "/api/v1/badge/"

abbrev metrics_path : Text
metrics_path = lit "/metrics"

abbrev healthz_path : Text
healthz_path = lit "/api/v1/healthz"

pub record MiddlewareSkip : Type 0 where
  pub exact : List Text
  pub prefixes : List Text

unfoldable pub ensure_trailing_slash : Text → Text
ensure_trailing_slash p = if has_suffix p (lit "/") then p else p ++ lit "/"

-- The prefixes of the reverse proxy's rules, from their `Local` paths.
unfoldable pub proxy_prefixes : List Text → List Text
proxy_prefixes [] = []
proxy_prefixes (local_path ∷ rules) =
    let rest = proxy_prefixes rules in
    if is_empty local_path then rest else ensure_trailing_slash local_path ∷ rest

unfoldable pub public_middleware_skip : List Text → MiddlewareSkip
public_middleware_skip rules = record {
  exact = metrics_path ∷ healthz_path ∷ [];
  prefixes = badge_path_prefix ∷ lit "/static/" ∷ proxy_prefixes rules;
}

unfoldable pub skip_matches : MiddlewareSkip → Text → Bool
skip_matches s path = any (λ p. text_eq path p) s.exact || any (λ p. has_prefix path p) s.prefixes

unfoldable pub token_matches : Text → Text → Bool
token_matches presented configured =
    if is_empty configured then false else text_eq presented configured

pub record Whitelist (Cidr : Type 0) : Type 0 where
  pub cidrs : List Cidr
  pub paths : List Text
  pub api_token : Text
  pub trusted : Option (List Cidr)

unfoldable pub whitelist_paths : List Text → List Text
whitelist_paths [] = []
whitelist_paths (raw ∷ entries) =
    let p = trim_space raw in
    let rest = whitelist_paths entries in
    if is_empty p then rest else if has_prefix p (lit "/") then p ∷ rest else (lit "/" ++ p) ∷ rest

-- The test on one prefix of `pathMatches`.
unfoldable pub under_prefix : Text → Text → Bool
under_prefix request_path prefix =
    text_eq request_path prefix
    || text_eq request_path (if has_suffix prefix (lit "/") then drop_last 1 prefix else prefix)
    || has_prefix request_path (ensure_trailing_slash prefix)

pub data Verdict : Type 0 where
  pass : Verdict
  forbidden : Verdict
  too_many_requests : Verdict

module _ {Ip Cidr : Type 0} (net : Net Ip Cidr) where
  unfoldable pub new_whitelist : Text → Text → Text → Option (Whitelist Cidr)
  new_whitelist cidrs paths api_token =
      let nets = networks net (split b',' cidrs) in
      if is_empty cidrs
      then none
      else if no_items nets
      then none
      else some (record {
        cidrs = nets;
        paths = if is_empty paths then [] else whitelist_paths (split b',' paths);
        api_token = api_token;
        trusted = none;
      })

  unfoldable pub path_matches : Whitelist Cidr → Text → Bool
  path_matches w request_path =
      if no_items w.paths then true else any (λ prefix. under_prefix request_path prefix) w.paths

  unfoldable pub allowed : Whitelist Cidr → Text → Bool
  allowed w ip = elim (net.parse_ip ip) [
    | none ↦ false
    | some parsed ↦ any (λ c. net.contains c parsed) w.cidrs
  ]

  unfoldable pub whitelist_middleware : Whitelist Cidr → MiddlewareSkip → Request → Verdict
  whitelist_middleware w exempt r =
      if skip_matches exempt r.path
      then pass
      else if not (path_matches w r.path)
      then pass
      else if not (is_empty w.api_token) && token_matches r.x_api_token w.api_token
      then pass
      else if not (allowed w (client_ip net w.trusted r))
      then forbidden
      else pass
