-- ===== src/Sync/Coordinator.antt =====
-- The coordinator of sync runs, internal/sync/coordinator.go. A method is the code between two
-- uses of its mutex; `Coordinator.Steps` has the interleavings of the callers.
pub mod Steps
pub mod Single
pub mod Progress
use gghstats.Base.{ℕ, Bool, true, false, ◌==◌, if◌then◌else◌, List, [], Option, none, some}
use gghstats.Base.Text.{Text, lit}
use gghstats.Base.Results.{Result, ok, err}
use gghstats.Store.{Instant}
use gghstats.Sync.Stats.{RunResult}

-- The zero instant stands for a time that is not set.
pub record Coordinator : Type 0 where
  pub running : Bool
  pub scope : Text
  pub repo : Text
  pub sync_started_at : Instant
  pub last_started_at : Instant
  pub last_finished_at : Instant
  pub last_error : Text

abbrev pub new_coordinator : Coordinator
new_coordinator = record {
  running = false;
  scope = [];
  repo = [];
  sync_started_at = 0;
  last_started_at = 0;
  last_finished_at = 0;
  last_error = [];
}

pub record Status : Type 0 where
  pub running : Bool
  pub scope : Text
  pub repo : Text
  pub last_started_at : Option Instant
  pub last_finished_at : Option Instant
  pub last_error : Text

abbrev opt_instant : Instant → Option Instant
opt_instant t = if t == 0 then none else some t

unfoldable pub status : Coordinator → Status
status c = record {
  running = c.running;
  scope = c.scope;
  repo = c.repo;
  last_started_at = opt_instant c.last_started_at;
  last_finished_at = opt_instant c.last_finished_at;
  last_error = c.last_error;
}

unfoldable pub mark_running : Coordinator → Text → Text → Instant → Coordinator
mark_running c scope repo now = record c {
  running = true;
  scope = scope;
  repo = repo;
  sync_started_at = now;
  last_started_at = now;
  last_error = [];
}

abbrev pub err_in_progress : Text
err_in_progress = lit "sync already in progress"

-- The guarded section that `runBlocking` and `startBackground` begin with.
unfoldable pub begin_run : Coordinator → Text → Text → Instant → Result Coordinator
unfolding mark_running
begin_run c scope repo now =
    if c.running then err err_in_progress else ok (mark_running c scope repo now)

-- The guarded section of `finishRun`.
unfoldable pub finish_run : Coordinator → Option Text → Instant → Coordinator
finish_run c error now = record c {
  running = false;
  scope = [];
  repo = [];
  last_finished_at = now;
  last_error = elim error [ none ↦ c.last_error | some e ↦ e ];
}

-- `if err != nil { result.Success = false }`.
unfoldable pub settle : RunResult → Option Text → RunResult
settle result error = elim error [ none ↦ result | some e ↦ record result { success = false } ]
