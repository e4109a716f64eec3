-- ===== src/Server/Index.antt =====
-- The rows of the home page, internal/server/index_rank.go: their rank by clones, and the pages. The
-- share in percent, a float, is left out.
pub mod Tiles
use gghstats.Base.{
  ℕ, zero, suc, ◌+◌, ◌-◌, ◌*◌, ◌%◌, Bool, true, false, not, ◌&&◌, ◌||◌, ◌==◌, ltb, if◌then◌else◌,
  List, [], ◌∷◌, ◌++◌, length, Option, none, some, map,
}
use gghstats.Base.Text.{Text, lit, text_eq, text_lt}
use gghstats.Base.Decimal.{itoa}
use gghstats.Base.Sort.{sort_with}
use gghstats.Store.Repos.{RepoSummary}

unfoldable pub ordinal : ℕ → Text
ordinal n =
    let suffix =
      if ltb (n % 100) 11 || ltb 13 (n % 100)
      then (if n % 10 == 1
          then lit "st"
          else if n % 10 == 2
          then lit "nd"
          else if n % 10 == 3
          then lit "rd"
          else lit "th")
      else lit "th" in
    itoa n ++ suffix

pub record IndexRepoRow : Type 0 where
  pub summary : RepoSummary
  pub clone_rank : ℕ
  pub clone_rank_ordinal : Text

-- The order of `sort.Slice`.
unfoldable pub precedes : RepoSummary → RepoSummary → Bool
precedes a b =
    if a.total_clones == b.total_clones
    then text_lt a.name b.name
    else ltb b.total_clones a.total_clones

-- `ranks[name]`, with the ranks from `k` on: the last position of the name, and 0 for no position.
unfoldable pub rank_from : ℕ → Text → List RepoSummary → ℕ
rank_from k name [] = 0
rank_from k name (r ∷ rs) =
    let later = rank_from (suc k) name rs in
    if later == 0 then (if text_eq r.name name then k else 0) else later

unfoldable pub rank_index_repos_by_total_clones : List RepoSummary → List IndexRepoRow
rank_index_repos_by_total_clones repos =
    let by_clone_total = sort_with precedes repos in
    map
      (λ (r : RepoSummary).
        let rank = rank_from 1 r.name by_clone_total in
        record { summary = r; clone_rank = rank; clone_rank_ordinal = ordinal rank })
      repos

unfoldable pub take_rows : {A : Type 0} → ℕ → List A → List A
take_rows zero xs = []
take_rows (suc n) [] = []
take_rows (suc n) (x ∷ xs) = x ∷ take_rows n xs

unfoldable pub drop_rows : {A : Type 0} → ℕ → List A → List A
drop_rows zero xs = xs
drop_rows (suc n) [] = []
drop_rows (suc n) (x ∷ xs) = drop_rows n xs

-- The rows of a page, the first of which is 1.
unfoldable pub page_slice : {A : Type 0} → List A → ℕ → ℕ → List A
page_slice repos page per_page =
    let total = length repos in
    let first = (page - 1) * per_page in
    let start = if ltb total first then total else first in
    let end = if ltb total (start + per_page) then total else start + per_page in
    take_rows (end - start) (drop_rows start repos)
