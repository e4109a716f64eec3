-- ===== src/Store.antt =====
-- The persisted state (internal/store): the tables of the SQLite database as one record of row
-- lists. A date YYYY-MM-DD is its day number and an instant its number of seconds, both counted
-- from the zero `time.Time`, so that the order of the texts is the order of the numbers; a date
-- column that may hold '' is an `Option`. The statements are those of the SQL texts in the source.
pub mod Table
pub mod Stars
pub mod Repos
pub mod Traffic
pub mod Stale
pub mod Debounce
pub mod Visibility
use gghstats.Base.{ℕ, Bool, Option, List, [], ◌/◌}
use gghstats.Base.Text.{Text}

abbrev pub Date : Type 0
Date = ℕ

abbrev pub Instant : Type 0
Instant = ℕ

-- `t.UTC().Format("2006-01-02")`.
abbrev pub day_of : Instant → Date
day_of t = t / 86400

-- A row of `repos`. `last_seen_star_count` is `none` for the column's default -1, and an empty
-- `last_starred_at` is the zero instant.
pub record RepoRow : Type 0 where
  pub name : Text
  pub description : Text
  pub stars : ℕ
  pub forks : ℕ
  pub watchers : ℕ
  pub issues : ℕ
  pub prs : ℕ
  pub fork : Bool
  pub archived : Bool
  pub hidden : Bool
  pub parent_full_name : Text
  pub last_seen_star_count : Option ℕ
  pub last_starred_at : Instant
  pub github_visibility : Text
  pub report_policy : Text

-- A row of `views` or of `clones`.
pub record TrafficRow : Type 0 where
  pub repo : Text
  pub date : Date
  pub count : ℕ
  pub uniques : ℕ

pub record StarRow : Type 0 where
  pub repo : Text
  pub date : Date
  pub total : ℕ

-- A row of `traffic_metric_state`.
pub record MetricState : Type 0 where
  pub repo : Text
  pub metric : Text
  pub last_success_at : Option Instant
  pub latest_observed_date : Option Date
  pub coverage_from : Option Date
  pub coverage_to : Option Date
  pub last_status : Text
  pub last_error : Text

-- A row of `traffic_metric_coverage`.
pub record CoverageRow : Type 0 where
  pub repo : Text
  pub metric : Text
  pub date : Date
  pub seen_at : Instant

-- The texts that `alert_debounce.stamp` holds: a date, the word `fired`, or the decimal of the
-- counter of failed runs.
pub data Stamp : Type 0 where
  on_day : Date → Stamp
  fired : Stamp
  failures : ℕ → Stamp

-- A row of `alert_debounce`.
pub record DebounceRow : Type 0 where
  pub rule_key : Text
  pub stamp : Stamp

pub record Db : Type 0 where
  pub repos : List RepoRow
  pub views : List TrafficRow
  pub clones : List TrafficRow
  pub stars : List StarRow
  pub metric_states : List MetricState
  pub coverage : List CoverageRow
  pub debounce : List DebounceRow
  pub pins : List Text

abbrev pub empty_db : Db
empty_db = record {
  repos = [];
  views = [];
  clones = [];
  stars = [];
  metric_states = [];
  coverage = [];
  debounce = [];
  pins = [];
}
