-- ===== src/Sync/Repo/Isolation.antt =====
-- The two traffic endpoints do not disturb each other.
use gghstats.Base.{
  append-nil, no_items, not, ◌&&◌, ◌||◌, Bool, true, false, List, [], ◌∷◌, ◌++◌, map, none, some,
  ◌≡◌, ◌≢◌, refl, sym, ap, subst, ◌∙◌, arith, inr,
}
use gghstats.Base.Text.{Text, lit, text_eq}
use gghstats.Base.Results.{Result, ok, err}
use gghstats.Github.Types.{DailyStat}
use gghstats.Store.{Db, Instant, MetricState}
use gghstats.Store.Traffic.{
  views_metric, clones_metric, valid_traffic_metric, record_traffic_metric_success,
  record_traffic_metric_failure, traffic_coverage_bounds, latest_date, set_failed,
}
use gghstats.Store.Traffic.Failure.{state_of, success-state, failure-state}
use gghstats.Sync.Repo.{
  day_row, TrafficRun, after_failure, after_success, store_metric, sync_repo_traffic,
}

-- What a response at a time makes of its endpoint's state.
abbrev pub Outcome : Instant → Result (List DailyStat) → MetricState → MetricState → Type 0
Outcome now (err e) old new = new ≡ set_failed e old
Outcome now (ok stats) old new =
    (new.last_success_at ≡ some now)
    × (new.latest_observed_date ≡ latest_date none (map day_row stats))
    × (new.coverage_from ≡ (traffic_coverage_bounds (map day_row stats)).0)
    × (new.coverage_to ≡ (traffic_coverage_bounds (map day_row stats)).1)
    × (new.last_status ≡ lit "success")
    × (new.last_error ≡ [])

stored_ok :
    (db : Db) (name metric : Text) (stats : List DailyStat) (now : Instant)
    → valid_traffic_metric metric ≡ true
    → let rows = map day_row stats in
      let bounds = traffic_coverage_bounds rows in
      (db' : Db) × (record_traffic_metric_success db name metric rows now bounds.0 bounds.1
        ≡ ok db')
unfolding record_traffic_metric_success
stored_ok db name metric stats now v = rw v (_, refl)

failed_ok :
    (db : Db) (name metric e : Text)
    → valid_traffic_metric metric ≡ true
    → (db' : Db) × (record_traffic_metric_failure db name metric (some e) ≡ ok db')
unfolding record_traffic_metric_failure
failed_ok db name metric e v = rw v (_, refl)

store_metric-Outcome :
    (name metric other : Text) (now : Instant) (r : Result (List DailyStat)) (run : TrafficRun)
    → valid_traffic_metric metric ≡ true
    → metric ≢ other
    → Outcome now r
        (state_of run.db name metric)
        (state_of (store_metric name metric now r run).db name metric)
      × (state_of (store_metric name metric now r run).db name other ≡ state_of run.db name other)
unfolding store_metric after_failure after_success
store_metric-Outcome name metric other now (err e) run v n =
    let (db', h) = failed_ok run.db name metric e v in
    let (a, b, p, q, t) = failure-state run.db db' name metric name other e h (inr n) in rw h (a, b)
store_metric-Outcome name metric other now (ok stats) run v n =
    let (db', h) = stored_ok run.db name metric stats now v in
    let bounds = traffic_coverage_bounds (map day_row stats) in
    let (a, b, c, d, e, f, g) =
      success-state run.db db' name metric name other (map day_row stats) now bounds.0 bounds.1 h
        (inr n) in
    rw h ((a, b, c, d, e, f), g)

metrics_facts :
    (valid_traffic_metric views_metric ≡ true) × (valid_traffic_metric clones_metric ≡ true)
unfolding valid_traffic_metric text_eq
metrics_facts = (refl, refl)

-- After the traffic of a repository is synced, each of the two endpoints has the state that its own
-- response makes of its own old state: after an error the old state marked as failed, after a
-- response a success at that time with the last date of its days, their coverage bounds and no error.
-- A failure of one neither hides nor undoes the other.
pub sync_repo_traffic-Outcome :
    (views clones : Text → Result (List DailyStat)) (db : Db) (name : Text) (now : Instant)
    → let after = (sync_repo_traffic views clones db name now).db in
      Outcome now (views name) (state_of db name views_metric) (state_of after name views_metric)
      × Outcome now
          (clones name)
          (state_of db name clones_metric)
          (state_of after name clones_metric)
unfolding sync_repo_traffic
sync_repo_traffic-Outcome views clones db name now =
    let (v, c) = metrics_facts in
    let first : TrafficRun = record { db = db; kinds = []; errors = [] } in
    let mid = store_metric name views_metric now (views name) first in
    let last = store_metric name clones_metric now (clones name) mid in
    let (o1, kept1) =
      store_metric-Outcome name views_metric clones_metric now (views name) first v
        (λ e. ground (arith, e)) in
    let (o2, kept2) =
      store_metric-Outcome name clones_metric views_metric now (clones name) mid c
        (λ e. ground (arith, e)) in
    (
      subst (λ (m : MetricState). Outcome now (views name) (state_of db name views_metric) m)
          (sym kept2) o1,
      subst (λ (m : MetricState). Outcome now (clones name) m (state_of last.db name clones_metric))
          kept1 o2,
    )

abbrev pub is_failure : {A : Type 0} → Result A → Bool
is_failure (err e) = true
is_failure (ok a) = false

abbrev pub failed_kind : {A : Type 0} → Text → Result A → List Text
failed_kind metric (err e) = metric ∷ []
failed_kind metric (ok a) = []

no_items-snoc : (xs : List Text) (x : Text) → no_items (xs ++ x ∷ []) ≡ false
unfolding no_items
no_items-snoc [] x = refl
no_items-snoc (y ∷ xs) x = refl

store_metric-errors :
    (name metric : Text) (now : Instant) (r : Result (List DailyStat)) (run : TrafficRun)
    → valid_traffic_metric metric ≡ true
    → ((store_metric name metric now r run).kinds ≡ run.kinds ++ failed_kind metric r)
      × (no_items (store_metric name metric now r run).errors
          ≡ (no_items run.errors && not (is_failure r)))
unfolding store_metric after_success
store_metric-errors name metric now (err e) run v =
    let s = no_items-snoc run.errors (metric ++ (lit ": " ++ e)) in (refl, ground arith)
store_metric-errors name metric now (ok stats) run v =
    let (db', h) = stored_ok run.db name metric stats now v in
    rw h (sym (append-nil run.kinds), ground arith)

-- The traffic of a repository is synced without an error exactly when both endpoints answered, and
-- the kinds recorded are those of the endpoints that failed, the views first.
pub sync_repo_traffic-errors :
    (views clones : Text → Result (List DailyStat)) (db : Db) (name : Text) (now : Instant)
    → let run = sync_repo_traffic views clones db name now in
      (no_items run.errors ≡ not (is_failure (views name) || is_failure (clones name)))
      × (run.kinds
          ≡ failed_kind views_metric (views name) ++ failed_kind clones_metric (clones name))
unfolding sync_repo_traffic no_items
sync_repo_traffic-errors views clones db name now =
    let (v, c) = metrics_facts in
    let first : TrafficRun = record { db = db; kinds = []; errors = [] } in
    let mid = store_metric name views_metric now (views name) first in
    let (k1, e1) = store_metric-errors name views_metric now (views name) first v in
    let (k2, e2) = store_metric-errors name clones_metric now (clones name) mid c in
    (ground (arith, e1, e2), k2 ∙ ap (λ ks. ks ++ failed_kind clones_metric (clones name)) k1)
