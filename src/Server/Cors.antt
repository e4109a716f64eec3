-- ===== src/Server/Cors.antt =====
-- The header Access-Control-Allow-Origin, internal/server/cors.go.
pub mod Listed
use gghstats.Base.{
  ℕ, Bool, true, false, not, ◌&&◌, ◌||◌, if◌then◌else◌, List, [], ◌∷◌, Option, none, some, any,
  no_items,
}
use gghstats.Base.Text.{Text, lit, text_eq, is_empty, trim_space, split}

unfoldable pub listed_origins : List Text → List Text
listed_origins [] = []
listed_origins (p ∷ parts) =
    let rest = listed_origins parts in if is_empty (trim_space p) then rest else trim_space p ∷ rest

unfoldable pub parse_cors_origins : Text → List Text
parse_cors_origins raw =
    if is_empty (trim_space raw) then [] else listed_origins (split b',' (trim_space raw))

unfoldable pub cors_is_open : List Text → Bool
cors_is_open origins = no_items origins || any (λ o. text_eq o (lit "*")) origins

-- `origins[0]`, for a list that is not empty.
unfoldable pub first_origin : List Text → Option Text
first_origin [] = none
first_origin (o ∷ os) = some o

-- The header, `none` where it is not set.
unfoldable pub set_api_cors : Text → List Text → Option Text
set_api_cors origin_header origins =
    let req_origin = trim_space origin_header in
    if cors_is_open origins
    then some (lit "*")
    else if not (is_empty req_origin)
    then (if any (λ o. text_eq o req_origin) origins then some req_origin else none)
    else first_origin origins
