-- ===== src/Sync/Coordinator/Steps.antt =====
-- The callers of a coordinator as interleaved steps. A run that was let in works outside the
-- mutex, finishes, and then calls `afterSync` with its result, again outside the mutex.
use gghstats.Base.{ℕ, List, [], ◌∷◌, ◌++◌, Option, ◌≡◌}
use gghstats.Base.Text.{Text}
use gghstats.Base.Results.{ok, err}
use gghstats.Store.{Instant}
use gghstats.Sync.Stats.{RunResult}
use gghstats.Sync.Coordinator.{
  Coordinator, new_coordinator, err_in_progress, begin_run, finish_run, settle,
}

-- A run that works, or that has finished and is about to report its result.
pub data Run : Type 0 where
  working : Text → Text → Run
  reporting : RunResult → Run

-- `reported` lists the results handed to `afterSync`, the latest first; `accepted` counts the runs
-- that were let in.
pub record System : Type 0 where
  pub coordinator : Coordinator
  pub runs : List Run
  pub reported : List RunResult
  pub accepted : ℕ
  pub refused : ℕ

abbrev pub start : System
start = record {
  coordinator = new_coordinator;
  runs = [];
  reported = [];
  accepted = 0;
  refused = 0;
}

pub data Step : System → System → Type 0 where
  -- `Run`, `Start` or `StartRepo` is called while no run works.
  enter :
      (s : System) (c : Coordinator) (scope repo : Text) (now : Instant)
      → begin_run s.coordinator scope repo now ≡ ok c
      → Step s (record s {
        coordinator = c;
        runs = working scope repo ∷ s.runs;
        accepted = ℕ.suc s.accepted;
      })
  -- It is called while one does.
  refuse :
      (s : System) (scope repo : Text) (now : Instant)
      → begin_run s.coordinator scope repo now ≡ err err_in_progress
      → Step s (record s { refused = ℕ.suc s.refused })
  -- A working run returns, with a result and perhaps an error, and takes the mutex.
  finish :
      (s : System) (before after : List Run) (scope repo : Text) (result : RunResult)
      (error : Option Text) (now : Instant)
      → s.runs ≡ before ++ working scope repo ∷ after
      → Step s (record s {
        coordinator = finish_run s.coordinator error now;
        runs = before ++ reporting (settle result error) ∷ after;
      })
  -- The callback of a finished run returns.
  report :
      (s : System) (before after : List Run) (result : RunResult)
      → s.runs ≡ before ++ reporting result ∷ after
      → Step s (record s { runs = before ++ after; reported = result ∷ s.reported })

pub data Reach : System → System → Type 0 where
  here : {s : System} → Reach s s
  next : {s t u : System} → Reach s t → Step t u → Reach s u
