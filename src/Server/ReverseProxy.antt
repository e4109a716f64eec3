-- ===== src/Server/ReverseProxy.antt =====
-- What a backend gets of a request, internal/server/reverseproxy.go: its path and its headers, whose
-- names are in canonical form. The parsing of the cookies of a request is a parameter. The transport,
-- the response and the parsing of the rules are left out.
pub mod Credentials
use gghstats.Base.{
  Bool, true, false, not, ◌&&◌, if◌then◌else◌, List, [], ◌∷◌, ◌++◌, Option, none, some, keep, map,
  length, no_items,
}
use gghstats.Base.Text.{Text, lit, text_eq, has_prefix, drop_front}
use gghstats.Store.Table.{find_row, delete_where}
use gghstats.Alert.Body.{join}

-- A header or a cookie: its name and its value.
abbrev pub named : Text → Text × Text → Bool
named name h = text_eq h.0 name

unfoldable pub get_header : Text → List (Text × Text) → Option (Text × Text)
get_header name headers = find_row (named name) headers

unfoldable pub del_header : Text → List (Text × Text) → List (Text × Text)
del_header name headers = delete_where (named name) headers

unfoldable pub set_header : Text → Text → List (Text × Text) → List (Text × Text)
set_header name value headers = (name, value) ∷ del_header name headers

-- strings.TrimPrefix, and the slash that the path begins with.
unfoldable pub backend_path : Text → Text → Text
backend_path prefix path =
    let trimmed = if has_prefix path prefix then drop_front (length prefix) path else path in
    if has_prefix trimmed (lit "/") then trimmed else lit "/" ++ trimmed

abbrev pub session_cookie_name : Text
session_cookie_name = lit "gghstats-settings-session"

unfoldable pub kept_cookies : List (Text × Text) → List (Text × Text)
kept_cookies cookies = keep (λ (c : Text × Text). not (named session_cookie_name c)) cookies

abbrev pub cookie_text : Text × Text → Text
cookie_text c = c.0 ++ (lit "=" ++ c.1)

abbrev pub set_cookies : List (Text × Text) → List (Text × Text) → List (Text × Text)
set_cookies [] headers = headers
set_cookies (c ∷ kept) headers =
    set_header (lit "Cookie") (join (lit "; ") (map cookie_text (c ∷ kept))) headers

module _ (read_cookies : List (Text × Text) → List (Text × Text)) where
  unfoldable pub strip_proxy_auth_headers : List (Text × Text) → List (Text × Text)
  strip_proxy_auth_headers headers =
      let without_token = del_header (lit "X-Api-Token") headers in
      let cookies = read_cookies without_token in
      if no_items cookies
      then without_token
      else set_cookies (kept_cookies cookies) (del_header (lit "Cookie") without_token)

  -- The loop over the headers of a rule.
  unfoldable pub inject_headers : List (Text × Text) → List (Text × Text) → List (Text × Text)
  inject_headers [] headers = headers
  inject_headers ((name, value) ∷ more) headers =
      inject_headers more (set_header name value headers)

  unfoldable pub direct :
      Text → List (Text × Text) → Text → List (Text × Text) → Text × List (Text × Text)
  direct prefix rule_headers path headers =
      (backend_path prefix path, inject_headers rule_headers (strip_proxy_auth_headers headers))
