-- ===== src/Examples/Visibility.antt =====
-- What reports show of two repositories: a public one, and a private one that the operator includes.
use gghstats.Base.{In, false, not, ◌&&◌, [], ◌∷◌, none, some, inl, ◌≡◌, refl}
use gghstats.Base.Text.{Text, lit, text_eq, text_lt}
use gghstats.Base.Sort.{sort_with}
use gghstats.Store.{Db, RepoRow, empty_db}
use gghstats.Store.Table.{find_row}
use gghstats.Store.Repos.{RepoSummary, summary_of, list_repos}
use gghstats.Store.Visibility.{
  ReportVisibility, RepoInput, visible_by, report_visible, list_report_repos,
}
use gghstats.Store.Visibility.Laws.{Allowed, list_report_repos-Allowed}

abbrev row : Text → Text → Text → RepoRow
row name visibility policy = record {
  name = name;
  description = [];
  stars = 5;
  forks = 0;
  watchers = 0;
  issues = 0;
  prs = 0;
  fork = false;
  archived = false;
  hidden = false;
  parent_full_name = [];
  last_seen_star_count = none;
  last_starred_at = 0;
  github_visibility = visibility;
  report_policy = policy;
}

abbrev db : Db
db = record empty_db {
  repos =
      row (lit "o/a") (lit "public") (lit "inherit")
      ∷ row (lit "o/b") (lit "private") (lit "include")
      ∷ [];
}

abbrev input : Text → Text → RepoInput
input name visibility = record {
  name = name;
  description = [];
  stars = 7;
  forks = 0;
  watchers = 0;
  issues = 0;
  prs = 0;
  fork = false;
  archived = false;
  parent_full_name = [];
  visibility = visibility;
}

abbrev public_only : ReportVisibility
public_only = record { include_private = false }

-- The report's first entry is the public repository.
abbrev listed : RepoSummary
listed = summary_of db 100 (row (lit "o/a") (lit "public") (lit "inherit"))

listed-In_report : In listed (list_report_repos db 100 public_only)
unfolding list_report_repos list_repos sort_with summary_of report_visible visible_by find_row
    text_eq text_lt
listed-In_report = inl refl

list_report_repos-Allowed_example :
    (r : RepoRow) × (find_row (λ (x : RepoRow). text_eq x.name listed.name && not x.hidden) db.repos
      ≡ some r)
    × Allowed public_only r
list_report_repos-Allowed_example =
    list_report_repos-Allowed db 100 public_only listed listed-In_report
