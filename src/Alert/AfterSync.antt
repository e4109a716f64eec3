-- ===== src/Alert/AfterSync.antt =====
-- What the callback of a finished sync tells the alert rules: `configureSyncAlerts` and
-- `reportableFailedRepos` of cmd/gghstats/serve.go. `format_day` is the text of a
-- date, and the clock, which the callback reads three times, stands still.
pub mod Masked
use gghstats.Base.{
  ℕ, ◌≤◌, ◌==◌, Bool, true, false, ◌||◌, if◌then◌else◌, List, [], ◌∷◌, ◌++◌, keep, count, length,
  any, no_items, Option, none, some, ◌≡◌, refl, arith,
}
use gghstats.Base.Text.{Text}
use gghstats.Base.Results.{Result, ok, err}
use gghstats.Store.{Db, Date, Instant, day_of}
use gghstats.Store.Visibility.{ReportVisibility, report_repo_by_name, report_repo_count}
use gghstats.Store.Stale.{FleetUpstreamStale, not_stale, detect_fleet_upstream_stale}
use gghstats.Sync.Stats.{RunResult}
use gghstats.Alert.{FloatOps}
use gghstats.Alert.Delivery.{World}
use gghstats.Alert.Traffic.{EvalConfig}
use gghstats.Alert.Ops.{SyncSnapshot}
use gghstats.Alert.Run.{run_all_rules}

unfoldable pub is_reported : Db → Date → ReportVisibility → Text → Bool
is_reported db today scope name = elim (report_repo_by_name db today scope name) [
  | none ↦ false
  | some s ↦ true
]

unfoldable pub reportable_failed_repos : Db → Date → ReportVisibility → List Text → List Text
reportable_failed_repos db today scope names = keep (is_reported db today scope) names

-- A detection that fails leaves the two fields as they are, false and empty.
unfoldable pub alert_snapshot :
    (format_day : Date → Text) → Db → ReportVisibility → ℕ → Instant → RunResult → SyncSnapshot
alert_snapshot format_day db scope stale_days now result =
    let failed = reportable_failed_repos db (day_of now) scope result.failed_repos in
    let success = result.success || no_items failed in
    let stale : FleetUpstreamStale =
      elim (detect_fleet_upstream_stale db scope stale_days now success) [
        | err e ↦ not_stale
        | ok s ↦ s
      ] in
    record {
      success = success;
      repos_attempted = report_repo_count db (day_of now) scope;
      repos_failed = length failed;
      failed_repos = failed;
      unreachable = result.unreachable;
      rate_limit_remaining = result.rate_limit_remaining;
      upstream_stale = stale.active;
      upstream_stale_since = elim stale.since [ none ↦ [] | some d ↦ format_day d ];
    }

-- The callback, on what is stored and was sent so far.
unfoldable pub after_sync :
    {F : Type 0} (ops : FloatOps F) (format_day : Date → Text) (stale_days : ℕ) (cfg : EvalConfig F)
    → RunResult
    → World
    → World
after_sync ops format_day stale_days cfg result w =
    run_all_rules ops cfg
      (alert_snapshot format_day w.db cfg.report_visibility stale_days cfg.now result) w
