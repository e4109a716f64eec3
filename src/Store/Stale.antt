-- ===== src/Store/Stale.antt =====
-- The fleet's stuck signal, internal/store/upstream_stale.go. Statements on the database succeed;
-- an error is that of an unknown metric. `now` lies more than `k` and fourteen days after the zero
-- time, so that no date is cut off at 0.
pub mod Spec
use gghstats.Base.{
  ℕ, suc, ◌+◌, ◌-◌, ◌*◌, max, Bool, true, false, not, ◌&&◌, ◌||◌, ◌==◌, leb, ltb, if◌then◌else◌,
  List, [], ◌∷◌, Option, none, some,
}
use gghstats.Base.Text.{Text, lit, text_eq}
use gghstats.Base.Results.{Result, ok, err, ◌>>=◌}
use gghstats.Store.{Db, Date, Instant, day_of}
use gghstats.Store.Repos.{RepoSummary, sum_where, in_range}
use gghstats.Store.Traffic.{traffic_metric_state, views_metric, clones_metric}
use gghstats.Store.Visibility.{ReportVisibility, list_report_repos}

pub record FleetUpstreamStale : Type 0 where
  pub active : Bool
  pub since : Option Date
  pub days_stuck : ℕ
  pub stuck_repos : ℕ
  pub eligible_repos : ℕ

abbrev pub not_stale : FleetUpstreamStale
not_stale = record {
  active = false;
  since = none;
  days_stuck = 0;
  stuck_repos = 0;
  eligible_repos = 0;
}

unfoldable pub metric_is_upstream_stale : Db → Text → Text → Date → Result (Bool × Option Date)
metric_is_upstream_stale db repo metric cutoff = do
  st ← traffic_metric_state db repo metric
  if text_eq st.last_status (lit "success")
      then elim st.latest_observed_date [
        | none ↦ ok (false, none)
        | some d ↦ ok (leb d cutoff, some d)
      ]
      else ok (false, none)

unfoldable pub repo_has_non_zero_traffic_in_window : Db → Text → Date → Date → Bool
repo_has_non_zero_traffic_in_window db repo from to =
    if ltb 0 (sum_where (in_range repo from to) (λ r. r.count) db.clones)
    then true
    else ltb 0 (sum_where (in_range repo from to) (λ r. r.count) db.views)

-- `if obs != "" && obs > since`.
unfoldable pub raise_since : Option Date → Option Date → Option Date
raise_since since none = since
raise_since none (some d) = some d
raise_since (some s) (some d) = if ltb s d then some d else some s

unfoldable pub repo_upstream_stale_obs : Db → Text → Date → Result (Bool × Option Date)
repo_upstream_stale_obs db repo cutoff = do
  clones ← metric_is_upstream_stale db repo clones_metric cutoff
  views ← metric_is_upstream_stale db repo views_metric cutoff
  if not clones.0 && not views.0
      then ok (false, none)
      else let since = if clones.0 then clones.1 else none in
        ok (true, if views.0 then raise_since since views.1 else since)

pub record Tally : Type 0 where
  pub stuck : ℕ
  pub eligible : ℕ
  pub since_max : Option Date

-- The loop over the repositories, from the tally so far.
unfoldable pub tally_from : Db → Date → Date → Date → Tally → List RepoSummary → Result Tally
tally_from db window_start window_end cutoff t [] = ok t
tally_from db window_start window_end cutoff t (repo ∷ repos) =
    elim (repo_has_non_zero_traffic_in_window db repo.name window_start window_end) [
      | false ↦ tally_from db window_start window_end cutoff t repos
      | true ↦ repo_upstream_stale_obs db repo.name cutoff >>= λ obs.
          tally_from db window_start window_end cutoff
            (if obs.0
              then record {
                stuck = t.stuck + 1;
                eligible = t.eligible + 1;
                since_max = raise_since t.since_max obs.1;
              }
              else record t { eligible = t.eligible + 1 })
            repos
    ]

unfoldable pub days_stuck_from_since : Date → Option Date → ℕ
days_stuck_from_since completed none = 0
days_stuck_from_since completed (some since) = completed - since

abbrev pub upstream_stale_eligible_window_days : ℕ
upstream_stale_eligible_window_days = 14

-- The thresholds on a tally.
unfoldable pub judge : Date → Tally → FleetUpstreamStale
judge completed t =
    if ltb t.stuck 3 || ltb (t.stuck * 2) t.eligible
    then record not_stale { stuck_repos = t.stuck; eligible_repos = t.eligible }
    else record {
      active = true;
      since = t.since_max;
      days_stuck = days_stuck_from_since completed t.since_max;
      stuck_repos = t.stuck;
      eligible_repos = t.eligible;
    }

unfoldable pub detect_fleet_upstream_stale :
    Db → ReportVisibility → ℕ → Instant → Bool → Result FleetUpstreamStale
detect_fleet_upstream_stale db scope k now last_sync_ok =
    if k == 0 || not last_sync_ok
    then ok not_stale
    else let completed = day_of now - 1 in
      let cutoff = completed - k in
      let window_start = completed - (upstream_stale_eligible_window_days - 1) in
      tally_from db window_start completed cutoff
        (record { stuck = 0; eligible = 0; since_max = none })
        (list_report_repos db (day_of now) scope)
      >>= λ t. ok (judge completed t)
