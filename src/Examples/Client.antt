-- ===== src/Examples/Client.antt =====
-- A post that succeeds at the second attempt, a mail, and two pages of stars.
use gghstats.Base.{
  ℕ, suc, keep, max, true, if◌then◌else◌, ◌==◌, List, [], ◌∷◌, ◌++◌, map, some, All, ◌≡◌, refl,
  arith,
}
use gghstats.Base.Text.{Text, lit, split, drop_front, text_eq, is_empty, has_prefix}
use gghstats.Base.Results.{Result, ok}
use gghstats.I18n.{before, behind, found}
use gghstats.Alert.Http.{RetryConfig, Sent, status, post_json_with_retry, apply_retry_config}
use gghstats.Alert.Http.Attempts.{Ends, AllTransient, post_json_with_retry-Accounts}
use gghstats.Alert.Body.{build_smtp_message, smtp_headers, plain_line_ends}
use gghstats.Alert.Body.Mail.{any-IsLine, build_smtp_message-lines}
use gghstats.Github.Types.{Star}
use gghstats.Github.Pages.{
  Page, next_page_path, next_url, is_next, path_from, skip_blanks, stargazers_recent,
}
use gghstats.Github.Pages.Recent.{
  Pages, last, page, concat, limited, IsNewestFirst, is_new, stargazers_recent-newest,
}
use gghstats.Github.Pages.Link.{IsOther, any-Lacks, format_links, next_page_path-links}

abbrev sent : ℕ → Sent
sent k = if k == 1 then status 503 else status 200

abbrev retries : RetryConfig
retries = record { attempts = 3; initial_backoff = 1000000000; max_backoff = 0 }

post_json_with_retry-Accounts_example :
    (n : ℕ) × Ends
      (λ k. true)
      (max 1 retries.attempts)
      (max (apply_retry_config retries).initial_backoff (apply_retry_config retries).max_backoff)
      (post_json_with_retry sent (λ k. true) retries)
      n
      (suc n)
      (sent (suc n))
    × AllTransient sent 1 n
post_json_with_retry-Accounts_example = post_json_with_retry-Accounts sent (λ k. true) retries

abbrev hostile : Text
hostile = lit "drop\r\nBcc: x@y"

build_smtp_message-lines_example :
    split b'\n' (build_smtp_message (lit "a@b") (lit "c@d" ∷ []) hostile (lit "body"))
    ≡ map (λ l. l ++ lit "\r") (smtp_headers (lit "a@b") (lit "c@d" ∷ []) hostile ++ [] ∷ [])
      ++ split b'\n' (plain_line_ends (lit "body"))
build_smtp_message-lines_example =
    build_smtp_message-lines (lit "a@b") (lit "c@d" ∷ []) hostile (lit "body")
      (any-IsLine (lit "a@b") refl) (any-IsLine (lit "c@d") refl, tt)

abbrev host : Text
host = lit "https://api.github.com"

abbrev previous : List (Text × Text)
previous = (lit "https://api.github.com/r?page=1", lit "prev") ∷ []

previous-IsOther : All IsOther previous
previous-IsOther = (
  (
    any-Lacks b'<' (lit "https://api.github.com/r?page=1") refl,
    any-Lacks b'>' (lit "https://api.github.com/r?page=1") refl,
    any-Lacks b'<' (lit "prev") refl,
    any-Lacks b'"' (lit "prev") refl,
    (λ e. ground (arith, e)),
  ),
  tt,
)

next_page_path-links_example :
    next_page_path (format_links (previous ++ (host ++ lit "/r?page=3", lit "next") ∷ []))
    ≡ lit "/r?page=3"
unfolding drop_front
next_page_path-links_example =
    next_page_path-links previous [] host (lit "r?page=3") previous-IsOther
      (any-Lacks b'>' (lit "https://api.github.com/r?page=3") refl) (omega arith)
      (any-Lacks b'/' (lit "pi.github.com") refl)

star : ℕ → Star
star t = record { starred_at = t }

abbrev second : Text
second = lit "/r?page=2"

abbrev fetch : Text → Result (Page Star)
fetch path =
    if text_eq path second
    then ok (record { items = star 70 ∷ star 60 ∷ []; link = [] })
    else ok (record {
      items = star 90 ∷ star 80 ∷ [];
      link = format_links ((host ++ second, lit "next") ∷ []);
    })

both :
    Pages fetch
      (lit "/repos/" ++ (lit "o/r" ++ lit "/stargazers?per_page=100"))
      ((star 90 ∷ star 80 ∷ []) ∷ (star 70 ∷ star 60 ∷ []) ∷ [])
unfolding text_eq next_page_path next_url is_next path_from skip_blanks before behind found is_empty
    has_prefix
both = page refl (page refl last)

stars-IsNewestFirst :
    IsNewestFirst (concat ((star 90 ∷ star 80 ∷ []) ∷ (star 70 ∷ star 60 ∷ []) ∷ []))
unfolding star
stars-IsNewestFirst = (
  (omega arith, (omega arith, (omega arith, tt))),
  ((omega arith, (omega arith, tt)), ((omega arith, tt), (tt, tt))),
)

stargazers_recent-newest_example :
    stargazers_recent fetch 3 (lit "o/r") 0 (some 60)
    ≡ ok (
        limited 0 (
          keep
            (is_new (some 60))
            (concat ((star 90 ∷ star 80 ∷ []) ∷ (star 70 ∷ star 60 ∷ []) ∷ []))))
stargazers_recent-newest_example =
    stargazers_recent-newest fetch 3 (lit "o/r") 0 (some 60)
      ((star 90 ∷ star 80 ∷ []) ∷ (star 70 ∷ star 60 ∷ []) ∷ []) both stars-IsNewestFirst
      (omega arith)
