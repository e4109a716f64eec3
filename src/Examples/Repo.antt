-- ===== src/Examples/Repo.antt =====
-- A sync whose views fail while its clones arrive.
use gghstats.Base.{List, [], ◌∷◌}
use gghstats.Base.Text.{Text, lit}
use gghstats.Base.Results.{Result, ok, err}
use gghstats.Github.Types.{DailyStat}
use gghstats.Store.{empty_db}
use gghstats.Store.Traffic.{views_metric, clones_metric}
use gghstats.Store.Traffic.Failure.{state_of}
use gghstats.Sync.Repo.{TrafficRun, sync_repo_traffic}
use gghstats.Sync.Repo.Isolation.{Outcome, sync_repo_traffic-Outcome}

abbrev Stats : Type 0
Stats = Result (List DailyStat)

abbrev no_views : Text → Stats
no_views name = err (lit "HTTP 502")

abbrev some_clones : Text → Stats
some_clones name = ok (record { timestamp = 864000; count = 5; uniques = 2 } ∷ [])

abbrev run : TrafficRun
run = sync_repo_traffic no_views some_clones empty_db (lit "o/r") 950400

sync_repo_traffic-Outcome_example :
    Outcome 950400
      (no_views (lit "o/r"))
      (state_of empty_db (lit "o/r") views_metric)
      (state_of run.db (lit "o/r") views_metric)
    × Outcome 950400
        (some_clones (lit "o/r"))
        (state_of empty_db (lit "o/r") clones_metric)
        (state_of run.db (lit "o/r") clones_metric)
sync_repo_traffic-Outcome_example =
    sync_repo_traffic-Outcome no_views some_clones empty_db (lit "o/r") 950400
