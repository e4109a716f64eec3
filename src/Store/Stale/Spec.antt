-- ===== src/Store/Stale/Spec.antt =====
-- When the fleet counts as stuck, by counting repositories.
use gghstats.Base.{
  ℕ, ◌+◌, ◌-◌, ◌*◌, ◌≤◌, ◌<◌, Bool, true, false, ◌&&◌, ◌||◌, ◌==◌, leb, ltb, if◌then◌else◌, List,
  [], ◌∷◌, Option, none, some, ◌≡◌, ◌↔◌, refl, arith, count, ◌⊎◌, inl, inr, Bool-cases,
  Option-cases, ◌∙◌,
}
use gghstats.Base.Text.{Text, lit, text_eq}
use gghstats.Base.Results.{ok}
use gghstats.Store.{Db, Date, Instant, day_of}
use gghstats.Store.Repos.{RepoSummary}
use gghstats.Store.Traffic.{traffic_metric_state, valid_traffic_metric, views_metric, clones_metric}
use gghstats.Store.Traffic.Failure.{state_of}
use gghstats.Store.Visibility.{ReportVisibility, list_report_repos}
use gghstats.Store.Stale.{
  FleetUpstreamStale, not_stale, metric_is_upstream_stale, repo_has_non_zero_traffic_in_window,
  raise_since, repo_upstream_stale_obs, Tally, tally_from, days_stuck_from_since, judge,
  detect_fleet_upstream_stale,
}

-- The endpoint's last fetch succeeded, and the last date that it reported is no later than the cutoff.
abbrev pub metric_stuck : Db → Date → Text → Text → Bool
metric_stuck db cutoff repo metric =
    text_eq (state_of db repo metric).last_status (lit "success")
    && elim (state_of db repo metric).latest_observed_date [ none ↦ false | some d ↦ leb d cutoff ]

-- A repository is stuck if it had traffic in the window and an endpoint of it is stuck.
abbrev pub had_traffic : Db → Date → Date → RepoSummary → Bool
had_traffic db from to s = repo_has_non_zero_traffic_in_window db s.name from to

abbrev pub repo_stuck : Db → Date → Date → Date → RepoSummary → Bool
repo_stuck db from to cutoff s =
    had_traffic db from to s
    && (metric_stuck db cutoff s.name clones_metric || metric_stuck db cutoff s.name views_metric)

-- A watermark no later than the cutoff.
abbrev pub Behind : Date → Option Date → Type 0
Behind cutoff o = (d : Date) × (o ≡ some d) × (d ≤ cutoff)

stale_metric :
    (db : Db) (repo metric : Text) (cutoff : Date)
    → valid_traffic_metric metric ≡ true
    → (o : Option Date) × (metric_is_upstream_stale db repo metric cutoff
        ≡ ok (metric_stuck db cutoff repo metric, o))
      × (metric_stuck db cutoff repo metric ≡ true → Behind cutoff o)
unfolding metric_is_upstream_stale traffic_metric_state
stale_metric db repo metric cutoff v =
    let st = state_of db repo metric in
    elim (Bool-cases (text_eq st.last_status (lit "success"))) [
      | inl s ↦ elim (Option-cases st.latest_observed_date) [
        | inl n ↦ (none, ground arith, λ h. absurd (ground arith))
        | inr (d, e) ↦ (some d, ground arith, λ h. (d, refl, ground arith))
      ]
      | inr s ↦ (none, ground arith, λ h. absurd (ground arith))
    ]

views_valid : valid_traffic_metric views_metric ≡ true
unfolding valid_traffic_metric text_eq
views_valid = refl

clones_valid : valid_traffic_metric clones_metric ≡ true
unfolding valid_traffic_metric text_eq
clones_valid = refl

raise-Behind :
    (cutoff : Date) (o p : Option Date)
    → (o ≡ none) ⊎ Behind cutoff o
    → Behind cutoff p
    → Behind cutoff (raise_since o p)
unfolding raise_since
raise-Behind cutoff none p h (d, e, le) = (d, ground arith, le)
raise-Behind cutoff (some s) p (inl n) q = cc
raise-Behind cutoff (some s) p (inr (c, g, l)) (d, e, le) =
    (if ltb s d then d else s, ground arith, ground arith)

stale_repo :
    (db : Db) (repo : Text) (cutoff : Date)
    → let stuck =
        metric_stuck db cutoff repo clones_metric || metric_stuck db cutoff repo views_metric in
      (o : Option Date) × (repo_upstream_stale_obs db repo cutoff ≡ ok (stuck, o))
      × (stuck ≡ true → Behind cutoff o)
unfolding repo_upstream_stale_obs
stale_repo db repo cutoff =
    let (c, ce, cb) = stale_metric db repo clones_metric cutoff clones_valid in
    let (v, ve, vb) = stale_metric db repo views_metric cutoff views_valid in
    elim (Bool-cases (metric_stuck db cutoff repo clones_metric)) [
      | inl a ↦ elim (Bool-cases (metric_stuck db cutoff repo views_metric)) [
        | inl b ↦ (raise_since c v, ground arith, λ h. raise-Behind cutoff c v (inr (cb a)) (vb b))
        | inr b ↦ (c, ground arith, λ h. cb a)
      ]
      | inr a ↦ elim (Bool-cases (metric_stuck db cutoff repo views_metric)) [
        | inl b ↦
            (raise_since none v, ground arith, λ h. raise-Behind cutoff none v (inl refl) (vb b))
        | inr b ↦ (none, ground arith, λ h. absurd (ground arith))
      ]
    ]

-- The tally so far is consistent: a watermark is behind the cutoff, and there is one once some
-- repository is stuck.
abbrev IsTally : Date → Tally → Type 0
IsTally cutoff t = ((t.stuck ≡ 0) × (t.since_max ≡ none)) ⊎ Behind cutoff t.since_max

IsTally-start :
    (cutoff : Date) (t : Tally)
    → IsTally cutoff t
    → (t.since_max ≡ none) ⊎ Behind cutoff t.since_max
IsTally-start cutoff t (inl h) = inl h.1
IsTally-start cutoff t (inr h) = inr h

tally_lem :
    (db : Db) (from to cutoff : Date) (repos : List RepoSummary) (t : Tally)
    → IsTally cutoff t
    → (t' : Tally) × (tally_from db from to cutoff t repos ≡ ok t')
      × (t'.stuck ≡ t.stuck + count (repo_stuck db from to cutoff) repos)
      × (t'.eligible ≡ t.eligible + count (had_traffic db from to) repos)
      × IsTally cutoff t'
unfolding tally_from
tally_lem db from to cutoff [] t h = (t, refl, omega arith, omega arith, h)
tally_lem db from to cutoff (r ∷ rs) t h = elim (Bool-cases (had_traffic db from to r)) [
  | inr no_traffic ↦
      let (t', e, a, b, i) = tally_lem db from to cutoff rs t h in
      (t', rw (no_traffic, tally_from) e, ground arith, ground arith, i)
  | inl traffic ↦
      let (o, oe, ob) = stale_repo db r.name cutoff in
      let stuck =
        metric_stuck db cutoff r.name clones_metric || metric_stuck db cutoff r.name views_metric in
      elim (Bool-cases stuck) [
        | inl s ↦
            let next : Tally = record {
              stuck = t.stuck + 1;
              eligible = t.eligible + 1;
              since_max = raise_since t.since_max o;
            } in
            let (t', e, a, b, i) =
              tally_lem db from to cutoff rs next
                (inr (raise-Behind cutoff t.since_max o (IsTally-start cutoff t h) (ob s))) in
            (t', rw (traffic, oe, s, tally_from) e, ground arith, ground arith, i)
        | inr s ↦
            let next : Tally = record t { eligible = t.eligible + 1 } in
            let (t', e, a, b, i) = tally_lem db from to cutoff rs next h in
            (t', rw (traffic, oe, s, tally_from) e, ground arith, ground arith, i)
      ]
]

-- The two counts at a time and a threshold of days.
module _ (db : Db) (scope : ReportVisibility) (k : ℕ) (now : Instant) where
  abbrev pub stuck_count : ℕ
  stuck_count =
      count (repo_stuck db (day_of now - 1 - 13) (day_of now - 1) (day_of now - 1 - k))
        (list_report_repos db (day_of now) scope)

  abbrev pub eligible_count : ℕ
  eligible_count =
      count (had_traffic db (day_of now - 1 - 13) (day_of now - 1))
        (list_report_repos db (day_of now) scope)

judge_lem :
    (completed cutoff : Date) (k : ℕ) (t : Tally)
    → cutoff ≡ completed - k
    → k ≤ completed
    → IsTally cutoff t
    → (((judge completed t).active ≡ true) ↔ ((3 ≤ t.stuck) × (t.eligible ≤ 2 * t.stuck)))
      × ((judge completed t).stuck_repos ≡ t.stuck)
      × ((judge completed t).eligible_repos ≡ t.eligible)
      × ((judge completed t).active ≡ true → k ≤ (judge completed t).days_stuck)
unfolding judge days_stuck_from_since
judge_lem completed cutoff k t c le (inl (z, n)) = ground arith
judge_lem completed cutoff k t c le (inr (d, e, l)) = ground arith

-- With a threshold of at least one day, after a successful sync, the detection counts the reported
-- repositories that had traffic in the fourteen days up to yesterday, and those of them that have an
-- endpoint stuck for the threshold; it is active exactly when at least three are stuck and they are
-- at least half; and then the days that it reports are at least the threshold.
pub detect-active :
    (db : Db) (scope : ReportVisibility) (k : ℕ) (now : Instant)
    → 0 < k
    → k < day_of now
    → (r : FleetUpstreamStale) × (detect_fleet_upstream_stale db scope k now true ≡ ok r)
      × ((r.active ≡ true) ↔ (
          (3 ≤ stuck_count db scope k now)
          × (eligible_count db scope k now ≤ 2 * stuck_count db scope k now)))
      × (r.stuck_repos ≡ stuck_count db scope k now)
      × (r.eligible_repos ≡ eligible_count db scope k now)
      × ((r.active ≡ false) ⊎ (k ≤ r.days_stuck))
unfolding detect_fleet_upstream_stale
detect-active db scope k now pos early =
    let completed = day_of now - 1 in
    let cutoff = completed - k in
    let (t, e, a, b, i) =
      tally_lem db (completed - 13) completed cutoff (list_report_repos db (day_of now) scope)
        (record { stuck = 0; eligible = 0; since_max = none }) (inl (refl, refl)) in
    let (act, st, el, days) = judge_lem completed cutoff k t refl (omega arith) i in
    let test : (k == 0) ≡ false = ground arith in
    let stuck : t.stuck ≡ stuck_count db scope k now = omega (arith, a) in
    let eligible : t.eligible ≡ eligible_count db scope k now = omega (arith, b) in
    let lasts : ((judge completed t).active ≡ false) ⊎ (k ≤ (judge completed t).days_stuck) =
      elim (Bool-cases (judge completed t).active) [ inl on ↦ inr (days on) | inr off ↦ inl off ] in
    (
      judge completed t,
      rw (test, e),
      rw (← stuck, ← eligible) act,
      st ∙ stuck,
      el ∙ eligible,
      lasts,
    )

-- It is off with the threshold 0 and after a sync that failed.
pub detect_off :
    (db : Db) (scope : ReportVisibility) (k : ℕ) (now : Instant) (sync_ok : Bool)
    → (k ≡ 0) ⊎ (sync_ok ≡ false)
    → detect_fleet_upstream_stale db scope k now sync_ok ≡ ok not_stale
unfolding detect_fleet_upstream_stale
detect_off db scope k now sync_ok h = ground arith
