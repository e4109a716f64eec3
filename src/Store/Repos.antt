-- ===== src/Store/Repos.antt =====
-- Repository rows and their summaries, internal/store/store.go. `today` is the date('now') of the
-- SQL text.
use gghstats.Base.{
  ℕ, ◌+◌, ◌-◌, max, Bool, not, ◌&&◌, leb, if◌then◌else◌, List, [], ◌∷◌, Option, none, some, map,
  keep,
}
use gghstats.Base.Text.{Text, text_eq, text_lt}
use gghstats.Base.Sort.{sort_with}
use gghstats.Store.{Db, RepoRow, TrafficRow, Date}
use gghstats.Store.Table.{find_row}

pub record RepoSummary : Type 0 where
  pub name : Text
  pub description : Text
  pub stars : ℕ
  pub forks : ℕ
  pub watchers : ℕ
  pub issues : ℕ
  pub prs : ℕ
  pub fork : Bool
  pub parent_full_name : Text
  pub archived : Bool
  pub total_views : ℕ
  pub total_uniques : ℕ
  pub total_clones : ℕ
  pub clone_uniques : ℕ
  pub clones_1d : ℕ
  pub clones_7d : ℕ
  pub clones_30d : ℕ

-- SUM of a column over the rows that WHERE accepts, 0 without rows.
unfoldable pub sum_where : (TrafficRow → Bool) → (TrafficRow → ℕ) → List TrafficRow → ℕ
sum_where p f [] = 0
sum_where p f (r ∷ rs) = let rest = sum_where p f rs in if p r then f r + rest else rest

-- MAX(date) over the rows that WHERE accepts.
unfoldable pub latest_where : (TrafficRow → Bool) → List TrafficRow → Option Date
latest_where p [] = none
latest_where p (r ∷ rs) =
    let rest = latest_where p rs in
    if p r then some (elim rest [ none ↦ r.date | some d ↦ max r.date d ]) else rest

abbrev pub of_repo : Text → TrafficRow → Bool
of_repo name r = text_eq r.repo name

-- Rows of a repository between two dates, both included.
abbrev pub in_range : Text → Date → Date → TrafficRow → Bool
in_range name from to r = text_eq r.repo name && leb from r.date && leb r.date to

-- The count on the latest day with clones among yesterday and today.
unfoldable pub clones_latest_day : Db → Date → Text → ℕ
clones_latest_day db today name = elim (latest_where (in_range name (today - 1) today) db.clones) [
  | none ↦ 0
  | some d ↦ sum_where (in_range name d d) (λ r. r.count) db.clones
]

unfoldable pub summary_of : Db → Date → RepoRow → RepoSummary
summary_of db today r = record {
  name = r.name;
  description = r.description;
  stars = r.stars;
  forks = r.forks;
  watchers = r.watchers;
  issues = r.issues;
  prs = r.prs;
  fork = r.fork;
  parent_full_name = r.parent_full_name;
  archived = r.archived;
  total_views = sum_where (of_repo r.name) (λ t. t.count) db.views;
  total_uniques = sum_where (of_repo r.name) (λ t. t.uniques) db.views;
  total_clones = sum_where (of_repo r.name) (λ t. t.count) db.clones;
  clone_uniques = sum_where (of_repo r.name) (λ t. t.uniques) db.clones;
  clones_1d = clones_latest_day db today r.name;
  clones_7d = sum_where (in_range r.name (today - 6) today) (λ t. t.count) db.clones;
  clones_30d = sum_where (in_range r.name (today - 29) today) (λ t. t.count) db.clones;
}

unfoldable pub repo_by_name : Db → Date → Text → Option RepoSummary
repo_by_name db today name =
    elim (find_row (λ (r : RepoRow). text_eq r.name name && not r.hidden) db.repos) [
      | none ↦ none
      | some r ↦ some (summary_of db today r)
    ]

-- `ListRepos("name", "asc")`.
unfoldable pub list_repos : Db → Date → List RepoSummary
list_repos db today = map (summary_of db today) (
    sort_with (λ (a b : RepoRow). text_lt a.name b.name)
      (keep (λ (r : RepoRow). not r.hidden) db.repos))
