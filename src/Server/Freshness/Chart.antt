-- ===== src/Server/Freshness/Chart.antt =====
-- What a chart shows after a response was stored.
use gghstats.Base.{
  ℕ, zero, suc, ◌+◌, ◌-◌, Bool, true, false, not, ◌&&◌, ◌||◌, ◌==◌, leb, ltb, List, [], ◌∷◌, Option,
  none, some, any, keep, map, length, ◌≡◌, refl, sym, ap, ◌∙◌, arith, Bool-cases, Option-cases, inl,
  inr,
}
use gghstats.Base.Text.{Text}
use gghstats.Base.Results.{ok}
use gghstats.Store.{Db, Date, Instant}
use gghstats.Store.Traffic.{
  DayRow, valid_traffic_metric, traffic_metric_state, traffic_coverage_dates,
  traffic_coverage_bounds, reported, bounds_from,
}
use gghstats.Store.Traffic.Success.{success-reported}
use gghstats.Store.Traffic.Failure.{state_of, success-state}
use gghstats.Store.Traffic.Bounds.{traffic_coverage_bounds-tight, has_date}
use gghstats.Server.Freshness.{
  is_withdrawn, traffic_rows_with_latest_coverage, dense_traffic_chart, points_from, by_date,
  ChartTrafficPoint, dense_traffic_chart_with_coverage,
}
use gghstats.Server.Freshness.Verdict.{in_span, store_response, valid_of_ok, low-eq, high-eq}

-- The dates of a chart, from the first on.
abbrev pub days_from : ℕ → Date → List Date
days_from zero d = []
days_from (suc left) d = d ∷ days_from left (suc d)

keep-same :
    (p q : DayRow → Bool) → ((r : DayRow) → p r ≡ q r) → (xs : List DayRow) → keep p xs ≡ keep q xs
keep-same p q h [] = refl
keep-same p q h (x ∷ xs) = rw (h x, keep-same p q h xs) refl

keep-all : (p : DayRow → Bool) → ((r : DayRow) → p r ≡ true) → (xs : List DayRow) → keep p xs ≡ xs
keep-all p h [] = refl
keep-all p h (x ∷ xs) = rw (h x, keep-all p h xs) refl

withdrawn_eq : (low high seen : Bool) → not (low && high && not seen) ≡ (not (low && high) || seen)
withdrawn_eq true true true = refl
withdrawn_eq true true false = refl
withdrawn_eq true false seen = refl
withdrawn_eq false high seen = refl

filtered :
    (db : Db) (repo metric : Text) (cached : List DayRow) (at : Instant) (a b : Date)
    → valid_traffic_metric metric ≡ true
    → (state_of db repo metric).last_success_at ≡ some at
    → (state_of db repo metric).coverage_from ≡ some a
    → (state_of db repo metric).coverage_to ≡ some b
    → traffic_rows_with_latest_coverage db repo metric cached
      ≡ ok (keep (λ r. not (is_withdrawn (reported db repo metric at) a b r)) cached)
unfolding traffic_rows_with_latest_coverage traffic_metric_state traffic_coverage_dates
filtered db repo metric cached at a b v t from to = ground (arith, v, t, from, to)

unfiltered :
    (db : Db) (repo metric : Text) (cached : List DayRow)
    → valid_traffic_metric metric ≡ true
    → (state_of db repo metric).coverage_from ≡ none
    → traffic_rows_with_latest_coverage db repo metric cached ≡ ok cached
unfolding traffic_rows_with_latest_coverage traffic_metric_state
unfiltered db repo metric cached v from =
    elim (Option-cases (state_of db repo metric).last_success_at) [
      | inl e ↦ ground (arith, v, e)
      | inr (at, e) ↦ ground (arith, v, from, e)
    ]

-- Once a response is stored, of any cached rows those stay whose day lies outside the span of the
-- response or has a row in the response, in their order.
pub traffic_rows_with_latest_coverage-after_success :
    (db db' : Db) (repo metric : Text) (rows cached : List DayRow) (at : Instant)
    → store_response db repo metric rows at ≡ ok db'
    → traffic_rows_with_latest_coverage db' repo metric cached
      ≡ ok (keep (λ r. not (in_span r.date rows) || has_date r.date rows) cached)
unfolding traffic_rows_with_latest_coverage is_withdrawn traffic_metric_state traffic_coverage_dates
    traffic_coverage_bounds bounds_from
traffic_rows_with_latest_coverage-after_success db db' repo metric [] cached at h =
    let v = valid_of_ok db db' repo metric [] at h in
    let (t, l, from, to, s, e, apart) =
      success-state db db' repo metric (0 ∷ repo) metric [] at none none h (
        inl (λ q. let n : length repo ≡ suc (length repo) = ap length q in absurd (omega arith))) in
    unfiltered db' repo metric cached v from ∙ ap ok (sym (keep-all _ (λ r. refl) cached))
traffic_rows_with_latest_coverage-after_success db db' repo metric (d ∷ ds) cached at h =
    let rows = d ∷ ds in
    let bounds = traffic_coverage_bounds rows in
    let v = valid_of_ok db db' repo metric rows at h in
    let (t, l, from, to, s, e, apart) =
      success-state db db' repo metric (0 ∷ repo) metric rows at bounds.0 bounds.1 h (
        inl (λ q. let n : length repo ≡ suc (length repo) = ap length q in absurd (omega arith))) in
    let (a, b, b_eq, all, at_a, at_b) = traffic_coverage_bounds-tight d ds in
    let from' : (state_of db' repo metric).coverage_from ≡ some a =
      from ∙ ap (λ (p : Option Date × Option Date). p.0) b_eq in
    let to' : (state_of db' repo metric).coverage_to ≡ some b =
      to ∙ ap (λ (p : Option Date × Option Date). p.1) b_eq in
    let seen = λ (x : Date). success-reported db db' repo metric rows at bounds.0 bounds.1 x h in
    filtered db' repo metric cached at a b v t from' to'
    ∙ ap ok (
        keep-same _ _
          (λ r.
            rw (seen r.date, low-eq rows a b r.date all at_a, high-eq rows a b r.date all at_b)
              (withdrawn_eq (leb a r.date) (leb r.date b) (has_date r.date rows)))
          cached)

abbrev pub is_counted : Option (ℕ × ℕ) → Bool
is_counted none = false
is_counted (some c) = true

abbrev pub shows : Date → List ChartTrafficPoint → Bool
shows x points = any (λ (p : ChartTrafficPoint). p.date == x && is_counted p.counts) points

by_date-has_date : (x : Date) (rows : List DayRow) → is_counted (by_date x rows) ≡ has_date x rows
unfolding by_date
by_date-has_date x [] = refl
by_date-has_date x (r ∷ rs) = elim (Option-cases (by_date x rs)) [
  | inl e ↦ ground (arith, e, by_date-has_date x rs)
  | inr (c, e) ↦ ground (arith, e, by_date-has_date x rs)
]

points_from-shows :
    (rows : List DayRow) (left d x : ℕ)
    → shows x (points_from rows left d)
      ≡ (leb d x && ltb x (d + left) && is_counted (by_date x rows))
unfolding points_from
points_from-shows rows zero d x = ground arith
points_from-shows rows (suc left) d x = elim (Bool-cases (d == x)) [
  | inl e ↦
      let same : d ≡ x = ground arith in
      rw same (ground (arith, points_from-shows rows left (suc x) x))
  | inr e ↦ ground (arith, points_from-shows rows left (suc d) x)
]

points_from-days :
    (rows : List DayRow) (left d : ℕ)
    → map (λ (p : ChartTrafficPoint). p.date) (points_from rows left d) ≡ days_from left d
unfolding points_from
points_from-days rows zero d = refl
points_from-days rows (suc left) d = ap (λ ds. d ∷ ds) (points_from-days rows left (suc d))

chart_bounds :
    (from to x : ℕ) (b : Bool)
    → (leb from x && ltb x (from + (suc to - from)) && b) ≡ (leb from x && leb x to && b)
chart_bounds from to x b = ground arith

has_date-keep :
    (x : Date) (p : Date → Bool) (rows : List DayRow)
    → has_date x (keep (λ r. p r.date) rows) ≡ (p x && has_date x rows)
has_date-keep x p [] = ground arith
has_date-keep x p (r ∷ rs) = elim (Bool-cases (r.date == x)) [
  | inl e ↦ let same : r.date ≡ x = ground arith in ground (arith, ap p same, has_date-keep x p rs)
  | inr e ↦ ground (arith, has_date-keep x p rs)
]

-- After a response was stored, the chart of some cached rows from a day to a day has one point
-- for each of these days, and the point of a day shows counts exactly when a cached row has them
-- and the day lies outside the span of the response or has a row in it.
pub dense_traffic_chart_with_coverage-after_success :
    (db db' : Db) (repo metric : Text) (rows cached : List DayRow) (at : Instant) (from to x : Date)
    → store_response db repo metric rows at ≡ ok db'
    → (points : List ChartTrafficPoint) × (dense_traffic_chart_with_coverage db' repo metric from to
          cached
        ≡ ok points)
      × (map (λ (p : ChartTrafficPoint). p.date) points ≡ days_from (suc to - from) from)
      × (shows x points ≡ (
          leb from x
          && leb x to
          && ((not (in_span x rows) || has_date x rows) && has_date x cached)))
unfolding dense_traffic_chart_with_coverage dense_traffic_chart
dense_traffic_chart_with_coverage-after_success db db' repo metric rows cached at from to x h =
    let kept = λ (d : Date). not (in_span d rows) || has_date d rows in
    let confirmed = keep (λ r. kept r.date) cached in
    let e = traffic_rows_with_latest_coverage-after_success db db' repo metric rows cached at h in
    (
      points_from confirmed (suc to - from) from,
      rw e refl,
      points_from-days confirmed (suc to - from) from,
      points_from-shows confirmed (suc to - from) from x
          ∙ rw (by_date-has_date x confirmed, has_date-keep x kept cached)
              (chart_bounds from to x _),
    )
