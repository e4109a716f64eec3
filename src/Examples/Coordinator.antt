-- ===== src/Examples/Coordinator.antt =====
-- Two requests, of which one is let in, and the first run's end.
use gghstats.Base.{true, false, [], ◌∷◌, some, ◌≡◌, refl, if◌then◌else◌, All}
use gghstats.Base.Text.{lit}
use gghstats.Sync.Stats.{RunResult}
use gghstats.Sync.Coordinator.{new_coordinator, mark_running, begin_run}
use gghstats.Sync.Coordinator.Steps.{working, System, start, enter, refuse, Reach, here, next}
use gghstats.Sync.Coordinator.Single.{working_count, IsNamed, Reach-single}

abbrev result : RunResult
result = record {
  success = true;
  repos_attempted = 3;
  repos_failed = 0;
  failed_repos = [];
  unreachable = false;
  rate_limit_remaining = some 4990;
}

abbrev busy : System
busy = record {
  coordinator = mark_running new_coordinator (lit "all") [] 100;
  runs = working (lit "all") [] ∷ [];
  reported = [];
  accepted = 1;
  refused = 1;
}

let_in : Reach start (record busy { refused = 0 })
unfolding begin_run
let_in =
    next here
      (enter start (mark_running new_coordinator (lit "all") [] 100) (lit "all") [] 100 refl)

Reach-busy : Reach start busy
unfolding begin_run
Reach-busy = next let_in (refuse (record busy { refused = 0 }) (lit "repo") (lit "o/r") 101 refl)

Reach-single_example :
    (working_count busy.runs ≡ (if busy.coordinator.running then 1 else 0))
    × All (IsNamed busy.coordinator) busy.runs
Reach-single_example = Reach-single busy Reach-busy
