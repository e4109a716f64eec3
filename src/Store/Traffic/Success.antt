-- ===== src/Store/Traffic/Success.antt =====
-- What a successful response leaves in the tables.
use gghstats.Base.{
  Bool, true, ◌&&◌, ◌||◌, ◌==◌, if◌then◌else◌, List, [], ◌∷◌, Option, none, some, any, ◌≡◌, ◌≢◌,
  refl, arith, inl, inr, Bool-cases,
}
use gghstats.Base.Text.{Text, text_eq_iff, text_eq_refl}
use gghstats.Base.Results.{ok}
use gghstats.Store.{Db, TrafficRow, CoverageRow, Date, Instant}
use gghstats.Store.Table.{
  delete_where, find_row-upsert_self, find_row-upsert_other, any-upsert_self, any-upsert_other,
  any-delete_self,
}
use gghstats.Store.Traffic.{
  DayRow, views_metric, clones_metric, valid_traffic_metric, is_day, is_coverage, of_metric,
  put_counts, day_of_repo, put_day, see, coverage_row, put_coverage, put_days, put_all_coverage,
  record_traffic_metric_success, reported, day_counts, table_of,
}

-- A row that covers a date, with its stamp.
abbrev covers_at : Text → Text → Instant → Date → CoverageRow → Bool
covers_at repo metric at date r = is_coverage repo metric date r && r.seen_at == at

put_coverage-any :
    (repo metric : Text) (at : Instant) (date : Date) (d : DayRow) (table : List CoverageRow)
    → any (covers_at repo metric at date) (put_coverage repo metric at table d)
      ≡ ((d.date == date) || any (covers_at repo metric at date) table)
unfolding put_coverage
put_coverage-any repo metric at date d table = elim (Bool-cases (d.date == date)) [
  | inl e ↦
      rw
        (any-upsert_self (covers_at repo metric at date) (is_coverage repo metric d.date) (see at)
          (coverage_row repo metric d.date at)
          (ground (arith, text_eq_refl repo, text_eq_refl metric)) (λ r h. ground arith) table)
        (rw e)
  | inr e ↦
      rw
        (any-upsert_other (covers_at repo metric at date) (is_coverage repo metric d.date) (see at)
          (coverage_row repo metric d.date at) (ground arith) (λ r h. ground arith)
          (λ r h. ground arith) table)
        (rw e)
]

put_all_coverage-any :
    (repo metric : Text) (at : Instant) (date : Date) (ds : List DayRow) (table : List CoverageRow)
    → any (covers_at repo metric at date) (put_all_coverage repo metric at table ds)
      ≡ (any (λ d. d.date == date) ds || any (covers_at repo metric at date) table)
unfolding put_all_coverage
put_all_coverage-any repo metric at date [] table = refl
put_all_coverage-any repo metric at date (d ∷ ds) table = ground (
  arith,
  put_all_coverage-any repo metric at date ds (put_coverage repo metric at table d),
  put_coverage-any repo metric at date d table,
)

-- After a response is stored, the dates that count as reported by it are exactly the dates of its
-- rows: what an earlier response reported is forgotten.
pub success-reported :
    (db db' : Db) (repo metric : Text) (rows : List DayRow) (at : Instant) (from to : Option Date)
    (date : Date)
    → record_traffic_metric_success db repo metric rows at from to ≡ ok db'
    → reported db' repo metric at date ≡ any (λ (d : DayRow). d.date == date) rows
unfolding record_traffic_metric_success reported
success-reported db db' repo metric rows at from to date h =
    let d =
      any-delete_self (covers_at repo metric at date) (of_metric repo metric) (λ r e. ground arith)
        db.coverage in
    let e =
      put_all_coverage-any repo metric at date rows
        (delete_where (of_metric repo metric) db.coverage) in
    ground arith

-- The last row of a response for a date.
abbrev pub last_of : Date → List DayRow → Option DayRow
last_of date [] = none
last_of date (d ∷ ds) = elim (last_of date ds) [
  | none ↦ if d.date == date then some d else none
  | some l ↦ some l
]

put_day-counts :
    (repo : Text) (date : Date) (d : DayRow) (table : List TrafficRow)
    → day_counts (put_day repo table d) repo date
      ≡ (if d.date == date then some (d.count, d.uniques) else day_counts table repo date)
unfolding day_counts put_day
put_day-counts repo date d table = elim (Bool-cases (d.date == date)) [
  | inl e ↦
      let same : d.date ≡ date = ground arith in
      let f =
        find_row-upsert_self (is_day repo date) (put_counts d) (day_of_repo repo d)
          (ground (arith, text_eq_refl repo)) (λ r h. h) table in
      ground arith
  | inr e ↦
      let f =
        find_row-upsert_other (is_day repo date) (is_day repo d.date) (put_counts d)
          (day_of_repo repo d) (ground arith) (λ r h. ground arith) (λ r h. ground arith) table in
      ground arith
]

put_days-counts :
    (repo : Text) (date : Date) (ds : List DayRow) (table : List TrafficRow)
    → day_counts (put_days repo table ds) repo date ≡ elim (last_of date ds) [
      | none ↦ day_counts table repo date
      | some l ↦ some (l.count, l.uniques)
    ]
unfolding put_days
put_days-counts repo date [] table = refl
put_days-counts repo date (d ∷ ds) table =
    ground
      (arith, put_days-counts repo date ds (put_day repo table d), put_day-counts repo date d table)

-- After a response is stored, each day that it has a row for holds the counts of its last such row,
-- and every other day of the repository keeps its counts; the table of the other metric is the same.
pub success-counts :
    (db db' : Db) (repo metric other : Text) (rows : List DayRow) (at : Instant)
    (from to : Option Date) (date : Date)
    → record_traffic_metric_success db repo metric rows at from to ≡ ok db'
    → valid_traffic_metric other ≡ true
    → other ≢ metric
    → (day_counts (table_of db' metric) repo date ≡ elim (last_of date rows) [
      | none ↦ day_counts (table_of db metric) repo date
      | some l ↦ some (l.count, l.uniques)
    ])
      × (table_of db' other ≡ table_of db other)
unfolding record_traffic_metric_success valid_traffic_metric
success-counts db db' repo metric other rows at from to date h v n = (
  ground (arith, put_days-counts repo date rows db.views, put_days-counts repo date rows db.clones),
  ground (
    arith,
    text_eq_iff metric views_metric,
    text_eq_iff metric clones_metric,
    text_eq_iff other views_metric,
    text_eq_iff other clones_metric,
  ),
)
