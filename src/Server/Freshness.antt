-- ===== src/Server/Freshness.antt =====
-- How fresh the traffic of an endpoint is, and the rows that a chart may show,
-- internal/server/traffic_freshness.go. Statements on the database succeed; an error is that of an
-- unknown metric. `now` lies more than a day after the zero time.
pub mod Days
pub mod Verdict
pub mod Chart
use gghstats.Base.{
  ℕ, zero, suc, ◌+◌, ◌-◌, Bool, true, false, not, ◌&&◌, ◌||◌, ◌==◌, leb, ltb, if◌then◌else◌, List,
  [], ◌∷◌, Option, none, some, keep, no_items,
}
use gghstats.Base.Text.{Text, lit, text_eq}
use gghstats.Base.Results.{Result, ok, err, ◌>>=◌}
use gghstats.Store.{Db, Date, Instant, MetricState, day_of}
use gghstats.Store.Traffic.{
  DayRow, traffic_metric_state, traffic_coverage_dates, views_metric, clones_metric,
}

pub data Status : Type 0 where
  fresh : Status
  delayed : Status
  missing : Status
  failed : Status
  never : Status

-- A date or a time that is not set is `none` for ''.
pub record TrafficFreshness : Type 0 where
  pub metric : Text
  pub status : Status
  pub fetched_at : Option Instant
  pub latest_observed_day : Option Date
  pub latest_completed_utc_day : Date
  pub missing_completed_days : List Date
  pub error : Text

-- `coverageTo != "" && day > coverageTo`.
unfoldable pub is_past : Option Date → Date → Bool
is_past none d = false
is_past (some to) d = ltb to d

-- The loop over the days from `d` on, with `left` days left up to yesterday.
unfoldable pub missing_from : (Date → Bool) → Option Date → ℕ → Date → List Date
missing_from covered to zero d = []
missing_from covered to (suc left) d =
    let rest = missing_from covered to left (suc d) in
    if is_past to d then [] else if covered d then rest else d ∷ rest

unfoldable pub missing_days : (Date → Bool) → Option Date → Option Date → Date → List Date
missing_days covered none to yesterday = []
missing_days covered (some from) to yesterday = missing_from covered to (suc yesterday - from) from

-- `LatestObservedDate < completed`; '' is less than every date.
unfoldable pub is_behind : Option Date → Date → Bool
is_behind none completed = true
is_behind (some d) completed = ltb d completed

unfoldable pub freshness_of : Text → MetricState → Date → TrafficFreshness
freshness_of metric st completed = record {
  metric = metric;
  status = never;
  fetched_at = st.last_success_at;
  latest_observed_day = st.latest_observed_date;
  latest_completed_utc_day = completed;
  missing_completed_days = [];
  error = st.last_error;
}

-- The end of `trafficFreshnessFor`, for a response that was stored.
unfoldable pub judge_coverage :
    TrafficFreshness → MetricState → Date → (Date → Bool) → TrafficFreshness
judge_coverage f st completed coverage =
    let days = missing_days coverage st.coverage_from st.coverage_to completed in
    record f {
      missing_completed_days = days;
      status =
          if not (no_items days)
          then missing
          else if is_behind st.latest_observed_date completed
          then delayed
          else fresh;
    }

unfoldable pub traffic_freshness_for : Db → Text → Text → Instant → Result TrafficFreshness
traffic_freshness_for db repo metric now =
    let completed = day_of now - 1 in
    traffic_metric_state db repo metric >>= λ st.
    let f = freshness_of metric st completed in
    if text_eq st.last_status (lit "failed")
    then ok (record f { status = failed })
    else if text_eq st.last_status (lit "never")
    then ok f
    else elim st.last_success_at [
      | none ↦ ok f
      | some at ↦ traffic_coverage_dates db repo metric at >>= λ coverage.
          ok (judge_coverage f st completed coverage)
    ]

unfoldable pub repo_traffic_freshness :
    Db → Text → Instant → Result (TrafficFreshness × TrafficFreshness)
repo_traffic_freshness db repo now = traffic_freshness_for db repo views_metric now >>= λ views.
    traffic_freshness_for db repo clones_metric now >>= λ clones. ok (views, clones)

-- A day of a chart; `none` where GitHub did not report it.
pub record ChartTrafficPoint : Type 0 where
  pub date : Date
  pub counts : Option (ℕ × ℕ)

-- The map `byDate`: the last row of a date.
unfoldable pub by_date : Date → List DayRow → Option (ℕ × ℕ)
by_date date [] = none
by_date date (r ∷ rs) = elim (by_date date rs) [
  | some c ↦ some c
  | none ↦ if r.date == date then some (r.count, r.uniques) else none
]

unfoldable pub points_from : List DayRow → ℕ → Date → List ChartTrafficPoint
points_from rows zero d = []
points_from rows (suc left) d =
    record { date = d; counts = by_date d rows } ∷ points_from rows left (suc d)

unfoldable pub dense_traffic_chart : List DayRow → Date → Date → List ChartTrafficPoint
dense_traffic_chart rows from to = points_from rows (suc to - from) from

-- The test that drops a cached row.
unfoldable pub is_withdrawn : (Date → Bool) → Date → Date → DayRow → Bool
is_withdrawn coverage from to r = leb from r.date && leb r.date to && not (coverage r.date)

unfoldable pub traffic_rows_with_latest_coverage :
    Db → Text → Text → List DayRow → Result (List DayRow)
traffic_rows_with_latest_coverage db repo metric rows =
    traffic_metric_state db repo metric >>= λ st. elim st.last_success_at [
      | none ↦ ok rows
      | some at ↦ elim st.coverage_from [
        | none ↦ ok rows
        | some from ↦ elim st.coverage_to [
          | none ↦ ok rows
          | some to ↦ traffic_coverage_dates db repo metric at >>= λ coverage.
              ok (keep (λ r. not (is_withdrawn coverage from to r)) rows)
        ]
      ]
    ]

unfoldable pub dense_traffic_chart_with_coverage :
    Db → Text → Text → Date → Date → List DayRow → Result (List ChartTrafficPoint)
dense_traffic_chart_with_coverage db repo metric from to rows =
    traffic_rows_with_latest_coverage db repo metric rows >>= λ confirmed.
    ok (dense_traffic_chart confirmed from to)
