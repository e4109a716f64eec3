-- ===== src/Sync/Coordinator/Progress.antt =====
-- A coordinator is never stuck: the steps that a reachable state allows lead back to a state
-- where a new run is let in.
use gghstats.Base.{ℕ, suc, List, [], ◌∷◌, ◌++◌, Option, ◌≡◌, refl, arith, inl, inr, Bool-cases}
use gghstats.Base.Text.{Text}
use gghstats.Base.Results.{ok}
use gghstats.Store.{Instant}
use gghstats.Sync.Stats.{RunResult}
use gghstats.Sync.Coordinator.{Coordinator, begin_run, finish_run, mark_running, settle}
use gghstats.Sync.Coordinator.Steps.{
  Run, working, reporting, System, start, finish, Reach, here, next,
}
use gghstats.Sync.Coordinator.Single.{working_count, Reach-single}

-- The place of the working run in a list that has one.
find_working :
    (rs : List Run) (n : ℕ)
    → working_count rs ≡ suc n
    → (before : List Run) × (scope : Text) × (repo : Text) × (after : List Run) × (rs
        ≡ before ++ working scope repo ∷ after)
find_working [] n h = absurd (omega arith)
find_working (working scope repo ∷ rs) n h = ([], scope, repo, rs, refl)
find_working (reporting r ∷ rs) n h =
    let (before, scope, repo, after, e) = find_working rs n h in
    (reporting r ∷ before, scope, repo, after, cc e)

-- From every reachable state some steps lead to a state that lets a run in, for every request: at
-- once, or after the working run has finished with any given result and error.
pub Reach-open :
    (s : System) (result : RunResult) (error : Option Text) (now : Instant)
    → Reach start s
    → (t : System) × Reach s t
      × ((scope repo : Text) (at : Instant)
          → (c : Coordinator) × (begin_run t.coordinator scope repo at ≡ ok c)
            × (c.scope ≡ scope)
            × (c.repo ≡ repo))
unfolding begin_run finish_run
Reach-open s result error now r = elim (Bool-cases s.coordinator.running) [
  | inl busy ↦
      let (before, scope, repo, after, e) =
        find_working s.runs 0 (rw busy at (Reach-single s r).0) in
      (
        record s {
          coordinator = finish_run s.coordinator error now;
          runs = before ++ reporting (settle result error) ∷ after;
        },
        next here (finish s before after scope repo result error now e),
        λ scope' repo' at.
            (mark_running (finish_run s.coordinator error now) scope' repo' at, refl, refl, refl),
      )
  | inr idle ↦ (
    s,
    here,
    λ scope repo at. (mark_running s.coordinator scope repo at, ground arith, refl, refl),
  )
]
