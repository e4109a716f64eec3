-- ===== src/Server/Freshness/Verdict.antt =====
-- What the pages say of an endpoint after a response was stored.
use gghstats.Base.{
  suc, ◌-◌, ◌≤◌, Bool, true, false, not, ◌&&◌, ◌==◌, leb, if◌then◌else◌, List, [], ◌∷◌, Option,
  none, some, any, no_items, All, length, ◌≡◌, refl, sym, ap, ◌∙◌, arith, Bool-cases, inl, inr,
}
use gghstats.Base.Text.{Text, lit, text_eq, text_eq_iff}
use gghstats.Base.Results.{Result, ok}
use gghstats.Store.{Db, Date, Instant, day_of}
use gghstats.Store.Traffic.{
  DayRow, valid_traffic_metric, record_traffic_metric_success, traffic_metric_state,
  traffic_coverage_dates, traffic_coverage_bounds, reported, latest_date, bounds_from,
}
use gghstats.Store.Traffic.Success.{success-reported}
use gghstats.Store.Traffic.Failure.{state_of, success-state}
use gghstats.Store.Traffic.Bounds.{bounds-latest, traffic_coverage_bounds-tight, has_date}
use gghstats.Server.Freshness.{
  TrafficFreshness, fresh, delayed, missing, is_behind, is_past, missing_days, freshness_of,
  judge_coverage, traffic_freshness_for,
}
use gghstats.Server.Freshness.Days.{missing_days-any}

judged :
    (db : Db) (repo metric : Text) (now at : Instant)
    → valid_traffic_metric metric ≡ true
    → (state_of db repo metric).last_status ≡ lit "success"
    → (state_of db repo metric).last_success_at ≡ some at
    → let st = state_of db repo metric in
      traffic_freshness_for db repo metric now
      ≡ ok (
          judge_coverage
            (freshness_of metric st (day_of now - 1))
            st
            (day_of now - 1)
            (reported db repo metric at))
unfolding traffic_freshness_for traffic_metric_state traffic_coverage_dates
judged db repo metric now at v s t =
    let f = text_eq_iff (state_of db repo metric).last_status (lit "failed") in
    let n = text_eq_iff (state_of db repo metric).last_status (lit "never") in
    let f' : text_eq (state_of db repo metric).last_status (lit "failed") ≡ false =
      ground (arith, f) in
    let n' : text_eq (state_of db repo metric).last_status (lit "never") ≡ false =
      ground (arith, n) in
    ground (arith, f', n', v, t)

-- Some row is not later, or not earlier, than a day.
abbrev pub from_before : Date → List DayRow → Bool
from_before x rows = any (λ (r : DayRow). leb r.date x) rows

abbrev pub reaches : Date → List DayRow → Bool
reaches x rows = any (λ (r : DayRow). leb x r.date) rows

-- The day lies in the span of the rows.
abbrev pub in_span : Date → List DayRow → Bool
in_span x rows = from_before x rows && reaches x rows

low-le :
    (rows : List DayRow) (a b x : Date)
    → All (λ r. (a ≤ r.date) × (r.date ≤ b)) rows
    → from_before x rows ≡ true
    → a ≤ x
low-le [] a b x h q = cc
low-le (r ∷ rs) a b x ((lo, hi), h) q = ground (arith, low-le rs a b x h)

le-low :
    (rows : List DayRow) (a x : Date) → has_date a rows ≡ true → a ≤ x → from_before x rows ≡ true
le-low [] a x h q = cc
le-low (r ∷ rs) a x h q = ground (arith, le-low rs a x)

high-le :
    (rows : List DayRow) (a b x : Date)
    → All (λ r. (a ≤ r.date) × (r.date ≤ b)) rows
    → reaches x rows ≡ true
    → x ≤ b
high-le [] a b x h q = cc
high-le (r ∷ rs) a b x ((lo, hi), h) q = ground (arith, high-le rs a b x h)

le-high : (rows : List DayRow) (b x : Date) → has_date b rows ≡ true → x ≤ b → reaches x rows ≡ true
le-high [] b x h q = cc
le-high (r ∷ rs) b x h q = ground (arith, le-high rs b x)

pub low-eq :
    (rows : List DayRow) (a b x : Date)
    → All (λ r. (a ≤ r.date) × (r.date ≤ b)) rows
    → has_date a rows ≡ true
    → from_before x rows ≡ leb a x
low-eq rows a b x all h = elim (Bool-cases (from_before x rows)) [
  | inl e ↦ let q = low-le rows a b x all e in rw e (ground arith)
  | inr e ↦ ground (arith, e, le-low rows a x h)
]

pub high-eq :
    (rows : List DayRow) (a b x : Date)
    → All (λ r. (a ≤ r.date) × (r.date ≤ b)) rows
    → has_date b rows ≡ true
    → reaches x rows ≡ leb x b
high-eq rows a b x all h = elim (Bool-cases (reaches x rows)) [
  | inl e ↦ let q = high-le rows a b x all e in rw e (ground arith)
  | inr e ↦ ground (arith, e, le-high rows b x h)
]

no_items-any : (xs : List Date) → ((x : Date) → any (λ m. m == x) xs ≡ false) → no_items xs ≡ true
unfolding no_items
no_items-any [] h = refl
no_items-any (x ∷ xs) h = absurd (ground (arith, h x))

span_step :
    (d : DayRow) (ds : List DayRow) (covered : Date → Bool) (yesterday x a b : Date)
    → traffic_coverage_bounds (d ∷ ds) ≡ (some a, some b)
    → latest_date none (d ∷ ds) ≡ some b
    → in_span x (d ∷ ds) ≡ (leb a x && leb x b)
    → reaches yesterday (d ∷ ds) ≡ leb yesterday b
    → any (λ m. m == x) (missing_days covered (some a) (some b) yesterday)
      ≡ (leb a x && leb x yesterday && not (is_past (some b) x) && not (covered x))
    → (any
          (λ m. m == x)
          (missing_days covered
            (traffic_coverage_bounds (d ∷ ds)).0
            (traffic_coverage_bounds (d ∷ ds)).1
            yesterday)
        ≡ (in_span x (d ∷ ds) && leb x yesterday && not (covered x)))
      × (is_behind (latest_date none (d ∷ ds)) yesterday ≡ not (reaches yesterday (d ∷ ds)))
unfolding is_past is_behind
span_step d ds covered yesterday x a b e upper spans reach m =
    (rw (e, spans) (m ∙ ground arith), rw (upper, reach) (ground arith))

-- `missing_days` and `is_behind` on the bounds of a response.
span-missing :
    (rows : List DayRow) (covered : Date → Bool) (yesterday x : Date)
    → let bounds = traffic_coverage_bounds rows in
      (any (λ m. m == x) (missing_days covered bounds.0 bounds.1 yesterday)
        ≡ (in_span x rows && leb x yesterday && not (covered x)))
      × (is_behind (latest_date none rows) yesterday ≡ not (reaches yesterday rows))
unfolding missing_days is_past is_behind traffic_coverage_bounds bounds_from latest_date
span-missing [] covered yesterday x = (refl, refl)
span-missing (d ∷ ds) covered yesterday x =
    let (a, b, e, all, at_a, at_b) = traffic_coverage_bounds-tight d ds in
    let m = missing_days-any covered a (some b) yesterday x in
    let l = bounds-latest (d ∷ ds) in
    let upper : latest_date none (d ∷ ds) ≡ some b =
      sym l ∙ ap (λ (p : Option Date × Option Date). p.1) e in
    let spans : in_span x (d ∷ ds) ≡ (leb a x && leb x b) =
      rw (low-eq (d ∷ ds) a b x all at_a, high-eq (d ∷ ds) a b x all at_b) refl in
    let reach = high-eq (d ∷ ds) a b yesterday all at_b in
    span_step d ds covered yesterday x a b e upper spans reach m

choose_status :
    (lacks reached : Bool)
    → (if lacks then missing else if not reached then delayed else fresh)
      ≡ (if lacks then missing else if reached then fresh else delayed)
choose_status true reached = refl
choose_status false true = refl
choose_status false false = refl

-- A response at a time, as the sync stores it, with the bounds of its rows.
abbrev pub store_response : Db → Text → Text → List DayRow → Instant → Result Db
store_response db repo metric rows at =
    let bounds = traffic_coverage_bounds rows in
    record_traffic_metric_success db repo metric rows at bounds.0 bounds.1

pub valid_of_ok :
    (db db' : Db) (repo metric : Text) (rows : List DayRow) (at : Instant)
    → store_response db repo metric rows at ≡ ok db'
    → valid_traffic_metric metric ≡ true
unfolding record_traffic_metric_success
valid_of_ok db db' repo metric rows at h = ground (arith, h)

-- After a response is stored the endpoint is fresh, delayed or missing: a completed day is missing
-- exactly when it lies between two rows of the response and has no row, and the endpoint is fresh
-- exactly when no day is missing and some row is of yesterday or later.
pub traffic_freshness_for-after_success :
    (db db' : Db) (repo metric : Text) (rows : List DayRow) (at now : Instant)
    → store_response db repo metric rows at ≡ ok db'
    → (f : TrafficFreshness) × (traffic_freshness_for db' repo metric now ≡ ok f)
      × ((x : Date)
          → any (λ m. m == x) f.missing_completed_days
            ≡ (in_span x rows && leb x (day_of now - 1) && not (has_date x rows)))
      × (f.status ≡ (
          if not (no_items f.missing_completed_days)
          then missing
          else if reaches (day_of now - 1) rows
          then fresh
          else delayed))
      × (f.fetched_at ≡ some at)
unfolding judge_coverage freshness_of
traffic_freshness_for-after_success db db' repo metric rows at now h =
    let bounds = traffic_coverage_bounds rows in
    let v = valid_of_ok db db' repo metric rows at h in
    let (t, l, from, to, s, e, apart) =
      success-state db db' repo metric (0 ∷ repo) metric rows at bounds.0 bounds.1 h (
        inl (λ q. let n : length repo ≡ suc (length repo) = ap length q in absurd (omega arith))) in
    let seen = λ (x : Date). success-reported db db' repo metric rows at bounds.0 bounds.1 x h in
    let days = λ (x : Date). span-missing rows (reported db' repo metric at) (day_of now - 1) x in
    (
      judge_coverage (freshness_of metric (state_of db' repo metric) (day_of now - 1))
          (state_of db' repo metric) (day_of now - 1) (reported db' repo metric at),
      judged db' repo metric now at v s t,
      (λ x. rw (from, to) ((days x).0 ∙ rw (seen x) refl)),
      rw (l, (days 0).1) (choose_status (not (no_items _)) (reaches (day_of now - 1) rows)),
      t,
    )
