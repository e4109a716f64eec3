-- ===== src/Store/Traffic/Bounds.antt =====
-- The span of one response.
use gghstats.Base.{
  ◌≤◌, ltb, if◌then◌else◌, List, [], ◌∷◌, Option, none, some, ◌≡◌, refl, arith, All, any, ◌==◌,
  Bool, true, false, ◌⊎◌, inl,
}
use gghstats.Store.{Date}
use gghstats.Store.Traffic.{DayRow, later_date, latest_date, bounds_from, traffic_coverage_bounds}

bounds_from-to :
    (rows : List DayRow) (from to : Option Date)
    → (bounds_from from to rows).1 ≡ latest_date to rows
unfolding bounds_from latest_date
bounds_from-to [] from to = refl
bounds_from-to (d ∷ ds) from to = bounds_from-to ds _ (later_date to d.date)

-- The upper bound that a sync computes is the last date that the store finds in the same rows.
pub bounds-latest : (rows : List DayRow) → (traffic_coverage_bounds rows).1 ≡ latest_date none rows
unfolding traffic_coverage_bounds
bounds-latest rows = bounds_from-to rows none none

if-some : (b : Bool) (x y : Date) → (if b then some x else some y) ≡ some (if b then x else y)
if-some true x y = refl
if-some false x y = refl

-- A row of this date.
abbrev pub has_date : Date → List DayRow → Bool
has_date date rows = any (λ (d : DayRow). d.date == date) rows

bounds_within :
    (rows : List DayRow) (f t : Date)
    → (a : Date) × (b : Date) × (bounds_from (some f) (some t) rows ≡ (some a, some b))
      × (a ≤ f)
      × (t ≤ b)
      × All (λ d. (a ≤ d.date) × (d.date ≤ b)) rows
      × ((a ≡ f) ⊎ (has_date a rows ≡ true))
      × ((b ≡ t) ⊎ (has_date b rows ≡ true))
unfolding bounds_from later_date
bounds_within [] f t = (f, t, refl, omega arith, omega arith, tt, inl refl, inl refl)
bounds_within (d ∷ ds) f t =
    let f' = if ltb d.date f then d.date else f in
    let t' = if ltb t d.date then d.date else t in
    let (a, b, e, lo, hi, all, at_a, at_b) = bounds_within ds f' t' in
    (
      a,
      b,
      rw (if-some (ltb d.date f) d.date f, if-some (ltb t d.date) d.date t) e,
      ground arith,
      ground arith,
      ((ground arith, ground arith), all),
      ground arith,
      ground arith,
    )

-- The bounds of a response with at least one row are the dates of two of its rows, and every row's
-- date lies between them.
pub traffic_coverage_bounds-tight :
    (d : DayRow) (ds : List DayRow)
    → (a : Date) × (b : Date) × (traffic_coverage_bounds (d ∷ ds) ≡ (some a, some b))
      × All (λ r. (a ≤ r.date) × (r.date ≤ b)) (d ∷ ds)
      × (has_date a (d ∷ ds) ≡ true)
      × (has_date b (d ∷ ds) ≡ true)
unfolding traffic_coverage_bounds bounds_from later_date
traffic_coverage_bounds-tight d ds =
    let (a, b, e, lo, hi, all, at_a, at_b) = bounds_within ds d.date d.date in
    (a, b, e, ((lo, hi), all), ground arith, ground arith)
