-- ===== src/Sync/Repo.antt =====
-- One repository within a sync: its metadata, its row and its traffic, internal/sync/sync.go. What
-- GitHub returns is a parameter; an error of the client is its text. The kinds that are passed to
-- `recordSyncErr` are collected in the order of the calls.
pub mod Isolation
use gghstats.Base.{
  ℕ, ◌-◌, Bool, true, false, ◌==◌, if◌then◌else◌, List, [], ◌∷◌, ◌++◌, map, Option, none, some,
}
use gghstats.Base.Text.{Text, lit}
use gghstats.Base.Results.{Result, ok, err}
use gghstats.Github.Types.{Repo, DailyStat, description_or_empty, parent_full_name}
use gghstats.Store.{Db, Instant, day_of}
use gghstats.Store.Traffic.{
  DayRow, views_metric, clones_metric, record_traffic_metric_success, record_traffic_metric_failure,
  traffic_coverage_bounds,
}
use gghstats.Store.Visibility.{RepoInput, normalize_github_visibility, upsert_repo_with_visibility}

-- The kinds of error recorded, with the value.
unfoldable pub ensure_repo_metadata : (Text → Result Repo) → Repo → List Text × Result Repo
ensure_repo_metadata fetch repo =
    if repo.id == 0
    then elim (fetch repo.full_name) [
      | err e ↦ (lit "repo_meta" ∷ [], err (lit "repo metadata: " ++ e))
      | ok meta ↦ ([], ok meta)
    ]
    else ([], ok repo)

-- The number of open pull requests is the length of the list that GitHub returns; the issues that
-- GitHub counts include them, and the difference stops at 0.
unfoldable pub repo_input : Repo → ℕ → RepoInput
repo_input repo prs = record {
  name = repo.full_name;
  description = description_or_empty repo;
  stars = repo.stargazers_count;
  forks = repo.forks_count;
  watchers = repo.watchers_count;
  issues = repo.open_issues_count - prs;
  prs = prs;
  fork = repo.fork;
  archived = repo.archived;
  parent_full_name = parent_full_name repo;
  visibility = normalize_github_visibility repo.visibility repo.private;
}

unfoldable pub upsert_repo_record : (Text → Result ℕ) → Db → Repo → List Text × Db
upsert_repo_record open_pull_requests db repo = elim (open_pull_requests repo.full_name) [
  | err e ↦ (lit "open_prs" ∷ [], upsert_repo_with_visibility db (repo_input repo 0))
  | ok prs ↦ ([], upsert_repo_with_visibility db (repo_input repo prs))
]

unfoldable pub day_row : DailyStat → DayRow
day_row v = record { date = day_of v.timestamp; count = v.count; uniques = v.uniques }

-- The database, the kinds recorded and the errors joined.
pub record TrafficRun : Type 0 where
  pub db : Db
  pub kinds : List Text
  pub errors : List Text

-- Recording a failure: an error of the statement is only logged.
unfoldable pub after_failure : Db → Result Db → Db
after_failure db (err e) = db
after_failure db (ok db') = db'

-- Recording a success, whose error is one of the sync.
unfoldable pub after_success : Text → TrafficRun → Result Db → TrafficRun
after_success metric run (err e) = record run {
  errors = run.errors ++ (lit "persist " ++ (metric ++ (lit ": " ++ e))) ∷ [];
}
after_success metric run (ok db') = record run { db = db' }

-- The branch of one endpoint.
unfoldable pub store_metric :
    Text → Text → Instant → Result (List DailyStat) → TrafficRun → TrafficRun
store_metric name metric now (err e) run = record {
  db = after_failure run.db (record_traffic_metric_failure run.db name metric (some e));
  kinds = run.kinds ++ metric ∷ [];
  errors = run.errors ++ (metric ++ (lit ": " ++ e)) ∷ [];
}
store_metric name metric now (ok stats) run =
    let rows = map day_row stats in
    let bounds = traffic_coverage_bounds rows in
    after_success metric run
      (record_traffic_metric_success run.db name metric rows now bounds.0 bounds.1)

unfoldable pub sync_repo_traffic :
    (views clones : Text → Result (List DailyStat)) → Db → Text → Instant → TrafficRun
sync_repo_traffic views clones db name now =
    store_metric name clones_metric now (clones name) (
      store_metric name views_metric now (views name) (record { db = db; kinds = []; errors = [] }))
