-- ===== src/Store/Visibility.antt =====
-- Which repositories the reporting surfaces show, internal/store/report_visibility.go.
pub mod Laws
use gghstats.Base.{
  ℕ, max, ◌+◌, Bool, true, false, not, ◌&&◌, ◌||◌, if◌then◌else◌, List, [], ◌∷◌, ◌++◌, Option, none,
  some, keep, length, any,
}
use gghstats.Base.Text.{Text, lit, text_eq, is_empty}
use gghstats.Base.Results.{Result, ok, err}
use gghstats.Store.{Db, RepoRow, Date}
use gghstats.Store.Table.{find_row, upsert, update_where}
use gghstats.Store.Repos.{RepoSummary, repo_by_name, list_repos}

pub record ReportVisibility : Type 0 where
  pub include_private : Bool

abbrev pub visibility_public : Text
visibility_public = lit "public"

abbrev pub visibility_private : Text
visibility_private = lit "private"

abbrev pub visibility_unknown : Text
visibility_unknown = lit "unknown"

abbrev pub report_inherit : Text
report_inherit = lit "inherit"

abbrev pub report_include : Text
report_include = lit "include"

abbrev pub report_exclude : Text
report_exclude = lit "exclude"

unfoldable pub normalize_github_visibility : Text → Bool → Text
normalize_github_visibility visibility private =
    if text_eq visibility visibility_public || text_eq visibility visibility_private
    then visibility
    else if not (is_empty visibility)
    then visibility_unknown
    else if private
    then visibility_private
    else visibility_public

unfoldable pub valid_report_policy : Text → Bool
valid_report_policy policy =
    text_eq policy report_inherit || text_eq policy report_include || text_eq policy report_exclude

abbrev pub of_name : Text → RepoRow → Bool
of_name name r = text_eq r.name name

abbrev pub with_policy : Text → RepoRow → RepoRow
with_policy policy r = record r { report_policy = policy }

-- The Boolean says whether a row was updated.
unfoldable pub set_repo_report_policy : Db → Text → Text → Result (Bool × Db)
set_repo_report_policy db name policy =
    if valid_report_policy policy
    then ok (
      any (of_name name) db.repos,
      record db { repos = update_where (of_name name) (with_policy policy) db.repos },
    )
    else err (lit "invalid report policy " ++ policy)

-- The arguments of `UpsertRepoWithVisibility`.
pub record RepoInput : Type 0 where
  pub name : Text
  pub description : Text
  pub stars : ℕ
  pub forks : ℕ
  pub watchers : ℕ
  pub issues : ℕ
  pub prs : ℕ
  pub fork : Bool
  pub archived : Bool
  pub parent_full_name : Text
  pub visibility : Text

-- Anything but public and private is stored as unknown.
unfoldable pub stored_visibility : Text → Text
stored_visibility v =
    if text_eq v visibility_public || text_eq v visibility_private then v else visibility_unknown

-- The row of the INSERT, with the columns' defaults.
unfoldable pub inserted_row : RepoInput → RepoRow
inserted_row i = record {
  name = i.name;
  description = i.description;
  stars = i.stars;
  forks = i.forks;
  watchers = i.watchers;
  issues = i.issues;
  prs = i.prs;
  fork = i.fork;
  archived = i.archived;
  hidden = false;
  parent_full_name = if i.fork then i.parent_full_name else [];
  last_seen_star_count = none;
  last_starred_at = 0;
  github_visibility = stored_visibility i.visibility;
  report_policy = report_inherit;
}

-- DO UPDATE: the counts never fall, and the policy and the star cursor stay.
unfoldable pub updated_row : RepoInput → RepoRow → RepoRow
updated_row i r = record r {
  description = i.description;
  stars = max r.stars i.stars;
  forks = max r.forks i.forks;
  watchers = max r.watchers i.watchers;
  issues = i.issues;
  prs = i.prs;
  fork = i.fork;
  archived = i.archived;
  parent_full_name = if i.fork then i.parent_full_name else [];
  github_visibility = stored_visibility i.visibility;
  hidden = false;
}

unfoldable pub upsert_repo_with_visibility : Db → RepoInput → Db
upsert_repo_with_visibility db i = record db {
  repos = upsert (of_name i.name) (updated_row i) (inserted_row i) db.repos;
}

-- The decision on a row that is not hidden.
unfoldable pub visible_by : ReportVisibility → Text → Text → Bool
visible_by scope visibility policy =
    if text_eq policy report_exclude
    then false
    else if text_eq policy report_include
    then true
    else text_eq visibility visibility_public
      || (text_eq visibility visibility_private && scope.include_private)

unfoldable pub report_visible : Db → Text → ReportVisibility → Bool
report_visible db name scope =
    elim (find_row (λ (r : RepoRow). text_eq r.name name && not r.hidden) db.repos) [
      | none ↦ false
      | some r ↦ visible_by scope r.github_visibility r.report_policy
    ]

unfoldable pub report_repo_by_name : Db → Date → ReportVisibility → Text → Option RepoSummary
report_repo_by_name db today scope name =
    if report_visible db name scope then repo_by_name db today name else none

unfoldable pub list_report_repos : Db → Date → ReportVisibility → List RepoSummary
list_report_repos db today scope =
    keep (λ (s : RepoSummary). report_visible db s.name scope) (list_repos db today)

unfoldable pub report_repo_count : Db → Date → ReportVisibility → ℕ
report_repo_count db today scope = length (list_report_repos db today scope)

unfoldable pub sum_clones : List RepoSummary → ℕ
sum_clones [] = 0
sum_clones (s ∷ ss) = s.total_clones + sum_clones ss

unfoldable pub sum_views : List RepoSummary → ℕ
sum_views [] = 0
sum_views (s ∷ ss) = s.total_views + sum_views ss

unfoldable pub sum_report_clones_all : Db → Date → ReportVisibility → ℕ
sum_report_clones_all db today scope = sum_clones (list_report_repos db today scope)

unfoldable pub sum_report_views_all : Db → Date → ReportVisibility → ℕ
sum_report_views_all db today scope = sum_views (list_report_repos db today scope)
