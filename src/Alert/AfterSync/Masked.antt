-- ===== src/Alert/AfterSync/Masked.antt =====
-- Failures that the alert rules do not see.
use gghstats.Base.{
  ℕ, ◌≤◌, Bool, true, false, List, [], ◌∷◌, keep, length, no_items, Option, ◌≡◌, arith,
}
use gghstats.Base.Text.{Text}
use gghstats.Github.Types.{Repo}
use gghstats.Store.{Db, Date, Instant, day_of}
use gghstats.Store.Visibility.{ReportVisibility}
use gghstats.Sync.Stats.{RunResult}
use gghstats.Sync.Workers.{Pool, Reach, IsDone, initial, cycle_result}
use gghstats.Sync.Workers.Account.{cycle_result-success}
use gghstats.Alert.{FloatOps}
use gghstats.Alert.Delivery.{World}
use gghstats.Alert.Traffic.{EvalConfig}
use gghstats.Alert.Ops.{stamp_count}
use gghstats.Alert.Run.Counter.{counter, runs-counter}
use gghstats.Alert.AfterSync.{is_reported, reportable_failed_repos, alert_snapshot, after_sync}

-- A run that fails without naming a repository, as one does that cannot list the repositories,
-- resets the counter of failed runs, whatever it was.
pub after_sync-aborted :
    {F : Type 0} (ops : FloatOps F) (format_day : Date → Text) (stale_days : ℕ) (cfg : EvalConfig F)
    (result : RunResult) (w : World)
    → no_items cfg.senders ≡ false
    → no_items cfg.rules ≡ false
    → result.failed_repos ≡ []
    → stamp_count (counter (after_sync ops format_day stale_days cfg result w)) ≡ 0
unfolding after_sync alert_snapshot reportable_failed_repos no_items
after_sync-aborted ops format_day stale_days cfg result w hs hr h =
    let snap = alert_snapshot format_day w.db cfg.report_visibility stale_days cfg.now result in
    let seen : snap.success ≡ true = ground (arith, h) in
    ground (arith, seen, runs-counter ops cfg (snap ∷ []) w hs hr)

length-keep : (p : Text → Bool) (xs : List Text) → length (keep p xs) ≤ length xs
length-keep p [] = omega arith
length-keep p (x ∷ xs) = let ih = length-keep p xs in ground arith

-- However many repositories a cycle fails on, the rules are told of at most five.
pub alert_snapshot-sampled :
    (format_day : Date → Text) (db : Db) (scope : ReportVisibility) (stale_days : ℕ) (now : Instant)
    (repos : List Repo) (workers : ℕ) (s : Pool) (rate : Option ℕ)
    → Reach (initial repos workers) s
    → IsDone s
    → s.cancelled ≡ false
    → (alert_snapshot format_day db scope stale_days now
        (cycle_result repos s.counter rate)).repos_failed
      ≤ 5
unfolding alert_snapshot reportable_failed_repos
alert_snapshot-sampled format_day db scope stale_days now repos workers s rate r d c =
    let (a, b, e) = cycle_result-success repos workers s rate r d c in
    let l =
      length-keep (is_reported db (day_of now) scope)
        (cycle_result repos s.counter rate).failed_repos in
    ground (arith, l, e)
