-- ===== src/Server/ReverseProxy/Credentials.antt =====
-- The credentials of the server do not reach a backend.
use gghstats.Base.{
  true, false, List, [], ◌∷◌, Option, none, some, map, any, no_items, ◌≡◌, ◌⊎◌, refl, ◌∙◌, arith,
  Bool-cases, inl, inr,
}
use gghstats.Base.Text.{Text, lit, text_eq, text_eq_iff}
use gghstats.Store.Table.{find_row, find_row-delete_self, find_row-delete_other}
use gghstats.Alert.Body.{join}
use gghstats.Server.ReverseProxy.{
  named, get_header, del_header, set_header, session_cookie_name, kept_cookies, cookie_text,
  set_cookies, strip_proxy_auth_headers, inject_headers, direct,
}

abbrev token_name : Text
token_name = lit "X-Api-Token"

-- The header of some cookies: none without a cookie.
abbrev pub cookie_header : List (Text × Text) → Option (Text × Text)
cookie_header [] = none
cookie_header (c ∷ kept) = some (lit "Cookie", join (lit "; ") (map cookie_text (c ∷ kept)))

get_header-set_other :
    (name other value : Text) (headers : List (Text × Text))
    → text_eq other name ≡ false
    → get_header name (set_header other value headers) ≡ get_header name headers
unfolding get_header set_header del_header find_row
get_header-set_other name other value headers apart =
    rw (apart, find_row-delete_other (named name) (named other) (λ r h. other_name r h) headers)
      refl
  where
    other_name : (r : Text × Text) → named other r ≡ true → named name r ≡ false
    other_name r h = let same = (text_eq_iff r.0 other).0 h in rw same apart

get_header-del_self :
    (name : Text) (headers : List (Text × Text)) → get_header name (del_header name headers) ≡ none
unfolding get_header del_header
get_header-del_self name headers = find_row-delete_self (named name) headers

kept-lacks :
    (cookies : List (Text × Text)) → any (named session_cookie_name) (kept_cookies cookies) ≡ false
unfolding kept_cookies
kept-lacks [] = refl
kept-lacks (c ∷ cs) = elim (Bool-cases (named session_cookie_name c)) [
  | inl e ↦ rw e (kept-lacks cs)
  | inr e ↦ rw (e, e) (kept-lacks cs)
]

module _ (read_cookies : List (Text × Text) → List (Text × Text)) where
  get_header-inject :
      (name : Text) (rule headers : List (Text × Text))
      → any (named name) rule ≡ false
      → get_header name (inject_headers read_cookies rule headers) ≡ get_header name headers
  unfolding inject_headers
  get_header-inject name [] headers h = refl
  get_header-inject name ((other, value) ∷ rule) headers h =
      let apart : text_eq other name ≡ false = ground (arith, h) in
      let rest : any (named name) rule ≡ false = ground (arith, h) in
      get_header-inject name rule (set_header other value headers) rest
      ∙ get_header-set_other name other value headers apart

  set_cookies-token :
      (kept headers : List (Text × Text))
      → get_header token_name (set_cookies kept headers) ≡ get_header token_name headers
  unfolding text_eq
  set_cookies-token [] headers = refl
  set_cookies-token (c ∷ kept) headers =
      get_header-set_other token_name (lit "Cookie") _ headers refl

  set_cookies-cookie :
      (kept headers : List (Text × Text))
      → get_header (lit "Cookie") (set_cookies kept (del_header (lit "Cookie") headers))
        ≡ cookie_header kept
  unfolding get_header set_header find_row text_eq
  set_cookies-cookie [] headers = get_header-del_self (lit "Cookie") headers
  set_cookies-cookie (c ∷ kept) headers = refl

  del_cookie-token :
      (headers : List (Text × Text))
      → get_header token_name (del_header (lit "Cookie") headers) ≡ get_header token_name headers
  unfolding get_header del_header text_eq
  del_cookie-token headers =
      find_row-delete_other (named token_name) (named (lit "Cookie")) (λ r h. cookie_apart r h)
        headers
    where
      cookie_apart : (r : Text × Text) → named (lit "Cookie") r ≡ true → named token_name r ≡ false
      cookie_apart r h = let same = (text_eq_iff r.0 (lit "Cookie")).0 h in rw same refl

  -- Where a rule sets neither of the two headers itself, a backend gets no API token, and where the
  -- cookies of the request can be read, the cookies that it gets are those without the session.
  pub direct-credentials :
      (prefix path : Text) (rule headers : List (Text × Text))
      → any (named (lit "X-Api-Token")) rule ≡ false
      → any (named (lit "Cookie")) rule ≡ false
      → let sent = (direct read_cookies prefix rule path headers).1 in
        let cookies = read_cookies (del_header (lit "X-Api-Token") headers) in
        (get_header (lit "X-Api-Token") sent ≡ none)
        × ((no_items cookies ≡ true)
            ⊎ ((any (named session_cookie_name) (kept_cookies cookies) ≡ false)
                × (get_header (lit "Cookie") sent ≡ cookie_header (kept_cookies cookies))))
  unfolding direct strip_proxy_auth_headers
  direct-credentials prefix path rule headers h k =
      let without = del_header token_name headers in
      let cookies = read_cookies without in
      let stripped = strip_proxy_auth_headers read_cookies headers in
      let inject_t = get_header-inject token_name rule stripped h in
      let inject_c = get_header-inject (lit "Cookie") rule stripped k in
      elim (Bool-cases (no_items cookies)) [
        | inl e ↦ (inject_t ∙ rw e (get_header-del_self token_name headers), inl e)
        | inr e ↦ (
          inject_t
              ∙ rw e (
                  set_cookies-token (kept_cookies cookies) (del_header (lit "Cookie") without)
                  ∙ del_cookie-token without
                  ∙ get_header-del_self token_name headers),
          inr (
            kept-lacks cookies,
            inject_c ∙ rw e (set_cookies-cookie (kept_cookies cookies) without),
          ),
        )
      ]
