-- ===== src/Sync/Stats.antt =====
-- internal/sync/stats.go: what a sync cycle reports, and the counter of failed repositories.
use gghstats.Base.{ℕ, ◌+◌, ltb, if◌then◌else◌, Bool, List, [], ◌∷◌, ◌++◌, Option, length}
use gghstats.Base.Text.{Text}

-- `rate_limit_remaining` is `none` for -1, unknown.
pub record RunResult : Type 0 where
  pub success : Bool
  pub repos_attempted : ℕ
  pub repos_failed : ℕ
  pub failed_repos : List Text
  pub unreachable : Bool
  pub rate_limit_remaining : Option ℕ

pub record RepoFailCounter : Type 0 where
  pub failed : ℕ
  pub names : List Text
  pub max_name : ℕ

abbrev pub new_repo_fail_counter : RepoFailCounter
new_repo_fail_counter = record { failed = 0; names = []; max_name = 5 }

unfoldable pub note_fail : RepoFailCounter → Text → RepoFailCounter
note_fail c name = record c {
  failed = c.failed + 1;
  names = if ltb (length c.names) c.max_name then c.names ++ name ∷ [] else c.names;
}

unfoldable pub snapshot : RepoFailCounter → ℕ × List Text
snapshot c = (c.failed, c.names)
