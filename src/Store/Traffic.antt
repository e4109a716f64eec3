-- ===== src/Store/Traffic.antt =====
-- Daily traffic with the coverage and the state of each endpoint, internal/store/store.go. Each of
-- the two tables `views` and `clones` belongs to the metric of its name.
pub mod Success
pub mod Failure
pub mod Bounds
use gghstats.Base.{
  ℕ, max, Bool, true, false, not, ◌&&◌, ◌||◌, ◌==◌, leb, ltb, if◌then◌else◌, List, [], ◌∷◌, ◌++◌,
  Option, none, some, any, keep,
}
use gghstats.Base.Text.{Text, lit, text_eq}
use gghstats.Base.Results.{Result, ok, err}
use gghstats.Store.{Db, TrafficRow, MetricState, CoverageRow, Date, Instant}
use gghstats.Store.Table.{find_row, upsert, delete_where}
use gghstats.Store.Repos.{sum_where, in_range}

pub record DayRow : Type 0 where
  pub date : Date
  pub count : ℕ
  pub uniques : ℕ

abbrev pub views_metric : Text
views_metric = lit "views"

abbrev pub clones_metric : Text
clones_metric = lit "clones"

unfoldable pub valid_traffic_metric : Text → Bool
valid_traffic_metric metric = text_eq metric views_metric || text_eq metric clones_metric

abbrev pub unsupported_metric : Text → Text
unsupported_metric metric = lit "unsupported traffic metric " ++ metric

-- The key tests of the three tables.
abbrev pub is_day : Text → Date → TrafficRow → Bool
is_day repo date r = text_eq r.repo repo && r.date == date

abbrev pub is_coverage : Text → Text → Date → CoverageRow → Bool
is_coverage repo metric date r = text_eq r.repo repo && text_eq r.metric metric && r.date == date

abbrev pub of_metric : Text → Text → CoverageRow → Bool
of_metric repo metric r = text_eq r.repo repo && text_eq r.metric metric

abbrev pub is_state : Text → Text → MetricState → Bool
is_state repo metric r = text_eq r.repo repo && text_eq r.metric metric

abbrev pub put_counts : DayRow → TrafficRow → TrafficRow
put_counts d r = record r { count = d.count; uniques = d.uniques }

abbrev pub day_of_repo : Text → DayRow → TrafficRow
day_of_repo repo d = record { repo = repo; date = d.date; count = d.count; uniques = d.uniques }

-- DO UPDATE SET count=excluded.count, uniques=excluded.uniques.
unfoldable pub put_day : Text → List TrafficRow → DayRow → List TrafficRow
put_day repo table d = upsert (is_day repo d.date) (put_counts d) (day_of_repo repo d) table

abbrev pub see : Instant → CoverageRow → CoverageRow
see at r = record r { seen_at = at }

abbrev pub coverage_row : Text → Text → Date → Instant → CoverageRow
coverage_row repo metric date at = record {
  repo = repo;
  metric = metric;
  date = date;
  seen_at = at;
}

unfoldable pub put_coverage : Text → Text → Instant → List CoverageRow → DayRow → List CoverageRow
put_coverage repo metric at table d =
    upsert (is_coverage repo metric d.date) (see at) (coverage_row repo metric d.date at) table

-- The statements of the loop over the response's rows, on each table.
unfoldable pub put_days : Text → List TrafficRow → List DayRow → List TrafficRow
put_days repo table [] = table
put_days repo table (d ∷ ds) = put_days repo (put_day repo table d) ds

unfoldable pub put_all_coverage :
    Text → Text → Instant → List CoverageRow → List DayRow → List CoverageRow
put_all_coverage repo metric at table [] = table
put_all_coverage repo metric at table (d ∷ ds) =
    put_all_coverage repo metric at (put_coverage repo metric at table d) ds

-- `if r.Date > latest { latest = r.Date }`; the empty text is `none`.
unfoldable pub later_date : Option Date → Date → Option Date
later_date none d = some d
later_date (some l) d = if ltb l d then some d else some l

unfoldable pub latest_date : Option Date → List DayRow → Option Date
latest_date latest [] = latest
latest_date latest (d ∷ ds) = latest_date (later_date latest d.date) ds

abbrev pub success_state :
    Text → Text → Instant → Option Date → Option Date → Option Date → MetricState
success_state repo metric at latest from to = record {
  repo = repo;
  metric = metric;
  last_success_at = some at;
  latest_observed_date = latest;
  coverage_from = from;
  coverage_to = to;
  last_status = lit "success";
  last_error = [];
}

abbrev pub set_success :
    Instant → Option Date → Option Date → Option Date → MetricState → MetricState
set_success at latest from to r = record r {
  last_success_at = some at;
  latest_observed_date = latest;
  coverage_from = from;
  coverage_to = to;
  last_status = lit "success";
  last_error = [];
}

unfoldable pub record_traffic_metric_success :
    Db → Text → Text → List DayRow → Instant → Option Date → Option Date → Result Db
record_traffic_metric_success db repo metric rows fetched from to =
    if valid_traffic_metric metric
    then ok (record db {
      views = if text_eq metric views_metric then put_days repo db.views rows else db.views;
      clones = if text_eq metric views_metric then db.clones else put_days repo db.clones rows;
      coverage =
          put_all_coverage repo metric fetched (delete_where (of_metric repo metric) db.coverage)
            rows;
      metric_states =
          upsert (is_state repo metric) (set_success fetched (latest_date none rows) from to)
            (success_state repo metric fetched (latest_date none rows) from to) db.metric_states;
    })
    else err (unsupported_metric metric)

-- The columns' defaults, and LastStatus for a pair that has no row.
abbrev pub never_state : Text → Text → MetricState
never_state repo metric = record {
  repo = repo;
  metric = metric;
  last_success_at = none;
  latest_observed_date = none;
  coverage_from = none;
  coverage_to = none;
  last_status = lit "never";
  last_error = [];
}

abbrev pub set_failed : Text → MetricState → MetricState
set_failed message r = record r { last_status = lit "failed"; last_error = message }

-- `error` is the fetch's error, `none` for nil.
unfoldable pub record_traffic_metric_failure : Db → Text → Text → Option Text → Result Db
record_traffic_metric_failure db repo metric error =
    if valid_traffic_metric metric
    then elim error [
      | none ↦ ok db
      | some message ↦ ok (record db {
        metric_states =
            upsert (is_state repo metric) (set_failed message)
              (set_failed message (never_state repo metric)) db.metric_states;
      })
    ]
    else err (unsupported_metric metric)

unfoldable pub traffic_metric_state : Db → Text → Text → Result MetricState
traffic_metric_state db repo metric =
    if valid_traffic_metric metric
    then ok (elim (find_row (is_state repo metric) db.metric_states) [
      | none ↦ never_state repo metric
      | some r ↦ r
    ])
    else err (unsupported_metric metric)

-- The map that `TrafficCoverageDates` returns, as its test.
unfoldable pub reported : Db → Text → Text → Instant → Date → Bool
reported db repo metric seen_at date =
    any (λ (r : CoverageRow). is_coverage repo metric date r && r.seen_at == seen_at) db.coverage

unfoldable pub traffic_coverage_dates : Db → Text → Text → Instant → Result (Date → Bool)
traffic_coverage_dates db repo metric seen_at =
    if valid_traffic_metric metric
    then ok (reported db repo metric seen_at)
    else err (unsupported_metric metric)

-- The stored counts of a day; `DayCount` is their first part, 0 for none.
unfoldable pub day_counts : List TrafficRow → Text → Date → Option (ℕ × ℕ)
day_counts table repo date = elim (find_row (is_day repo date) table) [
  | none ↦ none
  | some r ↦ some (r.count, r.uniques)
]

-- The table of a metric, as `DayCount` and `RecordTrafficMetricSuccess` choose it.
abbrev pub table_of : Db → Text → List TrafficRow
table_of db metric = if text_eq metric views_metric then db.views else db.clones

unfoldable pub day_count : Db → Text → Text → Date → Result ℕ
day_count db metric repo date =
    if valid_traffic_metric metric
    then ok (elim (day_counts (table_of db metric) repo date) [ none ↦ 0 | some c ↦ c.0 ])
    else err (lit "unsupported table " ++ metric)

unfoldable pub bounds_from : Option Date → Option Date → List DayRow → Option Date × Option Date
bounds_from from to [] = (from, to)
bounds_from from to (d ∷ ds) =
    bounds_from
      (elim from [ none ↦ some d.date | some f ↦ if ltb d.date f then some d.date else some f ])
      (later_date to d.date) ds

unfoldable pub traffic_coverage_bounds : List DayRow → Option Date × Option Date
traffic_coverage_bounds rows = bounds_from none none rows
