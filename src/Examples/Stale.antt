-- ===== src/Examples/Stale.antt =====
-- The fleet's stuck signal with the threshold of three days.
use gghstats.Base.{◌⊎◌, ℕ, true, false, none, some, [], ◌∷◌, ◌≡◌, ◌≤◌, ◌*◌, ◌↔◌, arith}
use gghstats.Base.Results.{ok}
use gghstats.Base.Text.{Text, lit}
use gghstats.Store.{Db, RepoRow, TrafficRow, MetricState, empty_db}
use gghstats.Store.Visibility.{ReportVisibility}
use gghstats.Store.Stale.{FleetUpstreamStale, detect_fleet_upstream_stale}
use gghstats.Store.Stale.Spec.{stuck_count, eligible_count, detect-active}

-- A repository with traffic on day 95 and nothing since.
abbrev row : Text → RepoRow
row name = record {
  name = name;
  description = [];
  stars = 5;
  forks = 0;
  watchers = 0;
  issues = 0;
  prs = 0;
  fork = false;
  archived = false;
  hidden = false;
  parent_full_name = [];
  last_seen_star_count = none;
  last_starred_at = 0;
  github_visibility = lit "public";
  report_policy = lit "inherit";
}

abbrev traffic : Text → TrafficRow
traffic name = record { repo = name; date = 95; count = 4; uniques = 1 }

abbrev state : Text → Text → MetricState
state name metric = record {
  repo = name;
  metric = metric;
  last_success_at = some 8683000;
  latest_observed_date = some 95;
  coverage_from = some 86;
  coverage_to = some 95;
  last_status = lit "success";
  last_error = [];
}

abbrev db : Db
db = record empty_db {
  repos = row (lit "o/a") ∷ row (lit "o/b") ∷ row (lit "o/c") ∷ [];
  clones = traffic (lit "o/a") ∷ traffic (lit "o/b") ∷ traffic (lit "o/c") ∷ [];
  metric_states =
      state (lit "o/a") (lit "clones")
      ∷ state (lit "o/b") (lit "clones")
      ∷ state (lit "o/c") (lit "clones")
      ∷ [];
}

abbrev scope : ReportVisibility
scope = record { include_private = true }

-- Noon of day 100.
abbrev now : ℕ
now = 8683200

detect-active_example :
    (r : FleetUpstreamStale) × (detect_fleet_upstream_stale db scope 3 now true ≡ ok r)
    × ((r.active ≡ true) ↔ (
        (3 ≤ stuck_count db scope 3 now)
        × (eligible_count db scope 3 now ≤ 2 * stuck_count db scope 3 now)))
    × (r.stuck_repos ≡ stuck_count db scope 3 now)
    × (r.eligible_repos ≡ eligible_count db scope 3 now)
    × ((r.active ≡ false) ⊎ (3 ≤ r.days_stuck))
detect-active_example = detect-active db scope 3 now (omega arith) (omega arith)
