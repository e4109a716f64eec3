-- ===== src/Sync/Workers.antt =====
-- The worker pool of a sync cycle, internal/sync/worker.go, and the result that `Run` of
-- internal/sync/sync.go makes of it. The goroutines are interleaved steps on the pool's state: the
-- feeder hands repositories over the unbuffered channel `jobs`, and each worker checks the context,
-- works, and counts the outcome.
pub mod Account
pub mod Progress
use gghstats.Base.{
  ℕ, suc, ◌-◌, Bool, true, false, ◌==◌, ltb, if◌then◌else◌, List, [], ◌∷◌, ◌++◌, Option, none, some,
  ◌≡◌, ◌<◌, length,
}
use gghstats.Base.Text.{Text, lit}
use gghstats.Github.Types.{Repo}
use gghstats.Sync.Stats.{RunResult, RepoFailCounter, new_repo_fail_counter, note_fail, snapshot}

unfoldable pub worker_count : ℕ → ℕ
worker_count n = if ltb n 1 then 1 else n

-- `pending` is what the feeder has not handed over. A worker is idle, has received a repository,
-- or works on one; `exited` workers found the context cancelled. `succeeded` and `errors` are the
-- observations "success" and "error" of the metrics, and `dropped` what a cancelled pool gave up.
pub record Pool : Type 0 where
  pub pending : List Repo
  pub idle : ℕ
  pub received : List Repo
  pub working : List Repo
  pub exited : ℕ
  pub cancelled : Bool
  pub counter : RepoFailCounter
  pub succeeded : ℕ
  pub errors : ℕ
  pub processed : List Repo
  pub dropped : List Repo

abbrev pub initial : List Repo → ℕ → Pool
initial repos workers = record {
  pending = repos;
  idle = worker_count workers;
  received = [];
  working = [];
  exited = 0;
  cancelled = false;
  counter = new_repo_fail_counter;
  succeeded = 0;
  errors = 0;
  processed = [];
  dropped = [];
}

pub data Step : Pool → Pool → Type 0 where
  -- The feeder sends the next repository to a worker that waits.
  hand :
      (s : Pool) (r : Repo) (rest : List Repo) (free : ℕ)
      → s.pending ≡ r ∷ rest
      → s.idle ≡ suc free
      → Step s (record s { pending = rest; idle = free; received = r ∷ s.received })
  -- The context is not done, so the worker begins.
  check :
      (s : Pool) (before after : List Repo) (r : Repo)
      → s.received ≡ before ++ r ∷ after
      → s.cancelled ≡ false
      → Step s (record s { received = before ++ after; working = r ∷ s.working })
  -- The context is done, so the worker returns.
  exit :
      (s : Pool) (before after : List Repo) (r : Repo)
      → s.received ≡ before ++ r ∷ after
      → s.cancelled ≡ true
      → Step s
          (record s { received = before ++ after; exited = suc s.exited; dropped = r ∷ s.dropped })
  -- `Work` returns nil.
  succeed :
      (s : Pool) (before after : List Repo) (r : Repo)
      → s.working ≡ before ++ r ∷ after
      → Step s (record s {
        working = before ++ after;
        idle = suc s.idle;
        succeeded = suc s.succeeded;
        processed = r ∷ s.processed;
      })
  -- `Work` returns an error.
  fail :
      (s : Pool) (before after : List Repo) (r : Repo)
      → s.working ≡ before ++ r ∷ after
      → Step s (record s {
        working = before ++ after;
        idle = suc s.idle;
        counter = note_fail s.counter r.full_name;
        errors = suc s.errors;
        processed = r ∷ s.processed;
      })
  -- The context is cancelled from outside, which happens once.
  cancel : (s : Pool) → s.cancelled ≡ false → Step s (record s { cancelled = true })
  -- The feeder sees it where it would send, and closes the channel.
  close :
      (s : Pool) (r : Repo) (rest : List Repo)
      → s.pending ≡ r ∷ rest
      → s.cancelled ≡ true
      → Step s (record s { pending = []; dropped = s.pending ++ s.dropped })

pub data Reach (s : Pool) : Pool → Type 0 where
  here : Reach s s
  next : {t u : Pool} → Reach s t → Step t u → Reach s u

-- `wg.Wait()` returns: nothing is pending or in a worker's hands.
pub record IsDone (s : Pool) : Type 0 where
  pub no_pending : s.pending ≡ []
  pub no_received : s.received ≡ []
  pub no_working : s.working ≡ []

-- The end of `Run`, from the repositories and the counter that the pool leaves.
unfoldable pub cycle_result : List Repo → RepoFailCounter → Option ℕ → RunResult
cycle_result repos counter rate = record {
  success = (snapshot counter).0 == 0;
  repos_attempted = length repos;
  repos_failed = (snapshot counter).0;
  failed_repos = (snapshot counter).1;
  unreachable = false;
  rate_limit_remaining = rate;
}
