-- ===== src/Examples/Pages.antt =====
-- The origins that the API answers to, and a request to a backend.
use gghstats.Base.{true, false, any, no_items, List, [], ◌∷◌, some, none, ◌≡◌, ◌⊎◌, refl}
use gghstats.Base.Text.{Text, lit, text_eq, is_empty, trim_space, trim_left, is_space}
use gghstats.Server.Cors.{cors_is_open, set_api_cors}
use gghstats.Server.Cors.Listed.{set_api_cors-listed}
use gghstats.Server.ReverseProxy.{
  named, get_header, del_header, session_cookie_name, kept_cookies, direct,
}
use gghstats.Server.ReverseProxy.Credentials.{cookie_header, direct-credentials}

abbrev origins : List Text
origins = lit "https://a.example" ∷ lit "https://b.example" ∷ []

set-ok : set_api_cors (lit "https://b.example ") origins ≡ some (lit "https://b.example")
unfolding set_api_cors cors_is_open text_eq is_empty trim_space trim_left is_space no_items
set-ok = refl

set_api_cors-listed_example :
    ((cors_is_open origins ≡ true) × (lit "https://b.example" ≡ lit "*"))
    ⊎ ((cors_is_open origins ≡ false)
        × (any (λ o. text_eq o (lit "https://b.example")) origins ≡ true)
        × ((is_empty (trim_space (lit "https://b.example ")) ≡ true)
            ⊎ (lit "https://b.example" ≡ trim_space (lit "https://b.example "))))
set_api_cors-listed_example =
    set_api_cors-listed (lit "https://b.example ") (lit "https://b.example") origins set-ok

abbrev headers : List (Text × Text)
headers =
    (lit "X-Api-Token", lit "s3cret") ∷ (lit "Cookie", lit "gghstats-settings-session=1; a=b") ∷ []

abbrev read_cookies : List (Text × Text) → List (Text × Text)
read_cookies hs = (lit "gghstats-settings-session", lit "1") ∷ (lit "a", lit "b") ∷ []

direct-credentials_example :
    (get_header
        (lit "X-Api-Token")
        (direct read_cookies (lit "/kiko") [] (lit "/kiko/x.js") headers).1
      ≡ none)
    × ((no_items (read_cookies (del_header (lit "X-Api-Token") headers)) ≡ true)
        ⊎ ((any
                (named session_cookie_name)
                (kept_cookies (read_cookies (del_header (lit "X-Api-Token") headers)))
              ≡ false)
            × (get_header
                  (lit "Cookie")
                  (direct read_cookies (lit "/kiko") [] (lit "/kiko/x.js") headers).1
                ≡ cookie_header
                    (kept_cookies (read_cookies (del_header (lit "X-Api-Token") headers))))))
direct-credentials_example =
    direct-credentials read_cookies (lit "/kiko") (lit "/kiko/x.js") [] headers refl refl
