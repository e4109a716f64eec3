-- ===== src/Examples/Freshness.antt =====
-- A response that leaves out a day between two others.
use gghstats.Base.{
  ℕ, not, ◌&&◌, ◌||◌, ◌==◌, ◌-◌, leb, any, map, no_items, suc, if◌then◌else◌, List, [], ◌∷◌, some,
  ◌≡◌, refl,
}
use gghstats.Base.Text.{Text, lit, text_eq}
use gghstats.Base.Results.{Result, ok, err}
use gghstats.Store.{Db, Date, empty_db, day_of}
use gghstats.Store.Traffic.{
  DayRow, record_traffic_metric_success, valid_traffic_metric, traffic_coverage_bounds, bounds_from,
}
use gghstats.Store.Traffic.Bounds.{has_date}
use gghstats.Server.Freshness.{
  TrafficFreshness, fresh, delayed, missing, traffic_freshness_for, ChartTrafficPoint,
  dense_traffic_chart_with_coverage,
}
use gghstats.Server.Freshness.Verdict.{
  in_span, reaches, store_response, traffic_freshness_for-after_success,
}
use gghstats.Server.Freshness.Chart.{
  days_from, shows, dense_traffic_chart_with_coverage-after_success,
}

abbrev row : ℕ → DayRow
row date = record { date = date; count = 4; uniques = 1 }

abbrev rows : List DayRow
rows = row 10 ∷ row 12 ∷ []

abbrev name : Text
name = lit "o/r"

abbrev clones : Text
clones = lit "clones"

stored : Result Db
stored = store_response empty_db name clones rows 1123200

taken : Result Db → Db
taken (ok d) = d
taken (err e) = empty_db

after : Db
after = taken stored

stored-ok : store_response empty_db name clones rows 1123200 ≡ ok after
unfolding after taken stored record_traffic_metric_success valid_traffic_metric text_eq
    traffic_coverage_bounds bounds_from
stored-ok = refl

traffic_freshness_for-after_success_example :
    (f : TrafficFreshness) × (traffic_freshness_for after name clones 1130000 ≡ ok f)
    × ((x : Date)
        → any (λ m. m == x) f.missing_completed_days
          ≡ (in_span x rows && leb x (day_of 1130000 - 1) && not (has_date x rows)))
    × (f.status ≡ (
        if not (no_items f.missing_completed_days)
        then missing
        else if reaches (day_of 1130000 - 1) rows
        then fresh
        else delayed))
    × (f.fetched_at ≡ some 1123200)
traffic_freshness_for-after_success_example =
    traffic_freshness_for-after_success empty_db after name clones rows 1123200 1130000 stored-ok

dense_traffic_chart_with_coverage-after_success_example :
    (points : List ChartTrafficPoint) × (dense_traffic_chart_with_coverage after name clones 9 12
        (row 9 ∷ row 11 ∷ row 12 ∷ [])
      ≡ ok points)
    × (map (λ (p : ChartTrafficPoint). p.date) points ≡ days_from (suc 12 - 9) 9)
    × (shows 11 points ≡ (
        leb 9 11
        && leb 11 12
        && ((not (in_span 11 rows) || has_date 11 rows)
            && has_date 11 (row 9 ∷ row 11 ∷ row 12 ∷ []))))
dense_traffic_chart_with_coverage-after_success_example =
    dense_traffic_chart_with_coverage-after_success empty_db after name clones rows
      (row 9 ∷ row 11 ∷ row 12 ∷ []) 1123200 9 12 11 stored-ok
