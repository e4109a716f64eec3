-- ===== src/Store/Traffic/Failure.antt =====
-- The state of an endpoint after successes and failures, and what a failure keeps.
use gghstats.Base.{true, false, List, [], Option, none, some, ◌≡◌, ◌≢◌, arith, ◌⊎◌}
use gghstats.Base.Text.{Text, lit, text_eq_iff, text_eq_refl}
use gghstats.Base.Results.{ok}
use gghstats.Store.{Db, MetricState, Date, Instant}
use gghstats.Store.Table.{find_row, find_row-upsert_self, find_row-upsert_other}
use gghstats.Store.Traffic.{
  DayRow, is_state, latest_date, success_state, set_success, never_state, set_failed,
  record_traffic_metric_success, record_traffic_metric_failure,
}

-- The state of a pair of repository and metric.
abbrev pub state_of : Db → Text → Text → MetricState
state_of db repo metric = elim (find_row (is_state repo metric) db.metric_states) [
  | none ↦ never_state repo metric
  | some r ↦ r
]

-- Two pairs of repository and metric differ.
abbrev pub Apart : Text → Text → Text → Text → Type 0
Apart repo metric repo' metric' = (repo ≢ repo') ⊎ (metric ≢ metric')

is_state-Apart :
    (repo metric repo' metric' : Text) (r : MetricState)
    → Apart repo metric repo' metric'
    → is_state repo metric r ≡ true
    → is_state repo' metric' r ≡ false
is_state-Apart repo metric repo' metric' r h e = ground (
  arith,
  text_eq_iff r.repo repo,
  text_eq_iff r.repo repo',
  text_eq_iff r.metric metric,
  text_eq_iff r.metric metric',
)

is_state_self : (r : MetricState) → is_state r.repo r.metric r ≡ true
is_state_self r = ground (arith, text_eq_refl r.repo, text_eq_refl r.metric)

-- After a response is stored, the state of its endpoint is a success at that time with the last
-- date of its rows and the given bounds, and no error; every other endpoint keeps its state.
pub success-state :
    (db db' : Db) (repo metric repo' metric' : Text) (rows : List DayRow) (at : Instant)
    (from to : Option Date)
    → record_traffic_metric_success db repo metric rows at from to ≡ ok db'
    → Apart repo metric repo' metric'
    → ((state_of db' repo metric).last_success_at ≡ some at)
      × ((state_of db' repo metric).latest_observed_date ≡ latest_date none rows)
      × ((state_of db' repo metric).coverage_from ≡ from)
      × ((state_of db' repo metric).coverage_to ≡ to)
      × ((state_of db' repo metric).last_status ≡ lit "success")
      × ((state_of db' repo metric).last_error ≡ [])
      × (state_of db' repo' metric' ≡ state_of db repo' metric')
unfolding record_traffic_metric_success
success-state db db' repo metric repo' metric' rows at from to h apart =
    let set = set_success at (latest_date none rows) from to in
    let new = success_state repo metric at (latest_date none rows) from to in
    let f =
      find_row-upsert_self (is_state repo metric) set new (is_state_self new) (λ r e. e)
        db.metric_states in
    (
      ground arith,
      ground arith,
      ground arith,
      ground arith,
      ground arith,
      ground arith,
      (let g =
            find_row-upsert_other (is_state repo' metric') (is_state repo metric) set new
              (is_state-Apart repo metric repo' metric' new apart (is_state_self new))
              (λ r e. is_state-Apart repo metric repo' metric' r apart e)
              (λ r e. is_state-Apart repo metric repo' metric' (set r) apart e) db.metric_states in
          ground arith),
    )

-- A failed fetch marks its endpoint failed with the error, and keeps the time, the last date and
-- the bounds of the last success; every other endpoint keeps its state, and the daily rows and the
-- reported dates stay.
pub failure-state :
    (db db' : Db) (repo metric repo' metric' : Text) (message : Text)
    → record_traffic_metric_failure db repo metric (some message) ≡ ok db'
    → Apart repo metric repo' metric'
    → (state_of db' repo metric ≡ set_failed message (state_of db repo metric))
      × (state_of db' repo' metric' ≡ state_of db repo' metric')
      × (db'.views ≡ db.views)
      × (db'.clones ≡ db.clones)
      × (db'.coverage ≡ db.coverage)
unfolding record_traffic_metric_failure
failure-state db db' repo metric repo' metric' message h apart =
    let set = set_failed message in
    let new = set_failed message (never_state repo metric) in
    let f =
      find_row-upsert_self (is_state repo metric) set new (is_state_self new) (λ r e. e)
        db.metric_states in
    (
      ground arith,
      (let g =
            find_row-upsert_other (is_state repo' metric') (is_state repo metric) set new
              (is_state-Apart repo metric repo' metric' new apart (is_state_self new))
              (λ r e. is_state-Apart repo metric repo' metric' r apart e)
              (λ r e. is_state-Apart repo metric repo' metric' (set r) apart e) db.metric_states in
          ground arith),
      ground arith,
      ground arith,
      ground arith,
    )
