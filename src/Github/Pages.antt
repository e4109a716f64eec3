-- ===== src/Github/Pages.antt =====
-- Lists over several pages, internal/github/client.go. A request with its retries, its status and the
-- decoding of its body is a parameter, `fetch`; the context stays open. A loop over the pages runs on
-- fuel. A header is a text of ASCII.
pub mod Recent
pub mod Link
use gghstats.Base.{
  ℕ, zero, suc, ◌+◌, length, Bool, true, false, not, ◌&&◌, ◌||◌, ◌==◌, ltb, leb, if◌then◌else◌,
  List, [], ◌∷◌, ◌++◌, Option, none, some,
}
use gghstats.Base.Text.{Text, lit, is_empty, has_prefix}
use gghstats.Base.Results.{Result, ok, err, ◌>>=◌}
use gghstats.Store.{Instant}
use gghstats.I18n.{before, behind, found}
use gghstats.Github.Types.{Star}

-- `\s` of a regular expression.
unfoldable pub skip_blanks : Text → Text
skip_blanks [] = []
skip_blanks (c ∷ s) =
    let rest = skip_blanks s in
    if c == b' ' || c == b'\t' || c == b'\n' || c == 12 || c == b'\r' then rest else c ∷ s

-- What follows the '>': `;\s*rel="next"`.
unfoldable pub is_next : Text → Bool
is_next [] = false
is_next (c ∷ s) = c == b';' && has_prefix (skip_blanks s) (lit "rel=\"next\"")

-- The submatch of `linkNextRe` in a text, behind its first '<' that a match begins at.
unfoldable pub next_url : Text → Option Text
next_url [] = none
next_url (c ∷ s) =
    let rest = next_url s in
    if c == b'<' && found b'>' s && not (is_empty (before b'>' s)) && is_next (behind b'>' s)
    then some (before b'>' s)
    else rest

-- The loop over the characters of the URL, from index `i` on.
unfoldable pub path_from : ℕ → Text → Text
path_from i [] = []
path_from i (c ∷ s) = let rest = path_from (suc i) s in if c == b'/' && ltb 8 i then c ∷ s else rest

unfoldable pub next_page_path : Text → Text
next_page_path link_header = elim (next_url link_header) [ none ↦ [] | some url ↦ path_from 0 url ]

-- A page of a list, and its header Link.
pub record Page (A : Type 0) : Type 0 where
  pub items : List A
  pub link : Text

module _ {A : Type 0} (fetch : Text → Result (Page A)) where
  unfoldable pub get_paginated : ℕ → Text → Result (List A)
  get_paginated zero path = err (lit "out of fuel")
  get_paginated (suc fuel) path = elim path [
    | [] ↦ ok []
    | c ∷ s ↦ fetch (c ∷ s) >>= λ page.
        get_paginated fuel (next_page_path page.link) >>= λ rest. ok (page.items ++ rest)
  ]

-- `!stopAt.IsZero() && !s.StarredAt.After(stopAt)`.
unfoldable pub is_known : Option Instant → Star → Bool
is_known none s = false
is_known (some at) s = leb s.starred_at at

-- The loop over a page, with `n` stars so far: the new ones, and whether it stops.
unfoldable pub take_page : ℕ → Option Instant → ℕ → List Star → List Star × Bool
take_page max_new stop_at n [] = ([], false)
take_page max_new stop_at n (s ∷ page) =
    let rest = take_page max_new stop_at (suc n) page in
    if is_known stop_at s
    then ([], true)
    else if ltb 0 max_new && leb max_new (suc n)
    then (s ∷ [], true)
    else (s ∷ rest.0, rest.1)

module _ (fetch : Text → Result (Page Star)) where
  unfoldable pub recent_from : ℕ → Option Instant → ℕ → ℕ → Text → Result (List Star)
  recent_from max_new stop_at zero n path = err (lit "out of fuel")
  recent_from max_new stop_at (suc fuel) n path = elim path [
    | [] ↦ ok []
    | c ∷ s ↦ fetch (c ∷ s) >>= λ page.
        let taken = take_page max_new stop_at n page.items in
        let more =
          recent_from max_new stop_at fuel (n + length taken.0) (next_page_path page.link)
          >>= λ rest. ok (taken.0 ++ rest) in
        if taken.1 then ok taken.0 else more
  ]

  unfoldable pub stargazers_recent : ℕ → Text → ℕ → Option Instant → Result (List Star)
  stargazers_recent fuel repo max_new stop_at =
      recent_from max_new stop_at fuel 0 (lit "/repos/" ++ (repo ++ lit "/stargazers?per_page=100"))

unfoldable pub stargazers : (Text → Result (Page Star)) → ℕ → Text → Result (List Star)
stargazers fetch fuel repo =
    get_paginated fetch fuel (lit "/repos/" ++ (repo ++ lit "/stargazers?per_page=100"))
