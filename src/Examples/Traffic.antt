-- ===== src/Examples/Traffic.antt =====
-- Two responses of the clones endpoint for one repository.
use gghstats.Base.{inr, ℕ, any, ◌==◌, List, [], ◌∷◌, none, some, ◌≡◌, refl, arith}
use gghstats.Base.Text.{Text, lit, text_eq}
use gghstats.Base.Results.{Result, ok, err}
use gghstats.Store.{Db, empty_db}
use gghstats.Store.Traffic.{
  DayRow, record_traffic_metric_success, record_traffic_metric_failure, valid_traffic_metric,
  reported, day_counts, table_of,
}
use gghstats.Store.Traffic.Success.{success-reported, success-counts, last_of}
use gghstats.Store.Traffic.Failure.{Apart}

abbrev day : ℕ → ℕ → DayRow
day date count = record { date = date; count = count; uniques = 1 }

abbrev name : Text
name = lit "o/r"

abbrev clones : Text
clones = lit "clones"

abbrev rows : List DayRow
rows = day 10 4 ∷ day 11 6 ∷ []

stored : Result Db
stored = record_traffic_metric_success empty_db name clones rows 950400 (some 10) (some 11)

-- The database that the response leaves.
taken : (r : Result Db) → Db
taken (ok d) = d
taken (err e) = empty_db

after : Db
after = taken stored

stored-ok :
    record_traffic_metric_success empty_db name clones rows 950400 (some 10) (some 11) ≡ ok after
unfolding after taken stored record_traffic_metric_success valid_traffic_metric text_eq
stored-ok = refl

success-reported_example :
    reported after name clones 950400 12 ≡ any (λ (d : DayRow). d.date == 12) rows
success-reported_example =
    success-reported empty_db after name clones rows 950400 (some 10) (some 11) 12 stored-ok

success-counts_example :
    (day_counts (table_of after clones) name 11 ≡ elim (last_of 11 rows) [
      | none ↦ day_counts (table_of empty_db clones) name 11
      | some l ↦ some (l.count, l.uniques)
    ])
    × (table_of after (lit "views") ≡ table_of empty_db (lit "views"))
unfolding valid_traffic_metric text_eq
success-counts_example =
    success-counts empty_db after name clones (lit "views") rows 950400 (some 10) (some 11) 11
      stored-ok refl (λ e. ground (arith, e))

apart : Apart name clones name (lit "views")
apart = inr (λ e. ground (arith, e))

failed : Db
failed = taken (record_traffic_metric_failure after name clones (some (lit "timeout")))

failed-ok : record_traffic_metric_failure after name clones (some (lit "timeout")) ≡ ok failed
unfolding failed taken record_traffic_metric_failure valid_traffic_metric text_eq
failed-ok = refl
