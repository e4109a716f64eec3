-- ===== src/Alert/Ops.antt =====
-- Rules on the sync itself, internal/alert/evaluate_ops.go.
pub mod Episodes
use gghstats.Base.{
  ℕ, suc, Bool, true, false, not, ◌&&◌, ◌||◌, if◌then◌else◌, List, [], ◌∷◌, ◌++◌, no_items, Option,
  none, some,
}
use gghstats.Base.Text.{Text, lit, text_eq, is_empty}
use gghstats.Base.Results.{Result, ok, err, ◌>>=◌}
use gghstats.Base.Decimal.{itoa}
use gghstats.Store.{Db, Stamp, on_day, fired, failures, day_of}
use gghstats.Store.Debounce.{alert_debounce_get, alert_debounce_set, alert_debounce_delete}
use gghstats.Alert.{FloatOps, RuleSpec, Payload, empty_payload, kind_ops}
use gghstats.Alert.Rules.{debounce_mode, identity_key}
use gghstats.Alert.Delivery.{World, fire_payload}
use gghstats.Alert.Traffic.{EvalConfig, compare}

abbrev pub consecutive_key : Text
consecutive_key = lit "ops|sync_failed|consecutive_count"

-- `rate_limit_remaining` is `none` for a negative number.
pub record SyncSnapshot : Type 0 where
  pub success : Bool
  pub repos_attempted : ℕ
  pub repos_failed : ℕ
  pub failed_repos : List Text
  pub unreachable : Bool
  pub rate_limit_remaining : Option ℕ
  pub upstream_stale : Bool
  pub upstream_stale_since : Text

-- The number that `Atoi` reads in the stamp; 0 for no stamp and for one that is not a number.
unfoldable pub stamp_count : Option Stamp → ℕ
stamp_count none = 0
stamp_count (some (on_day d)) = 0
stamp_count (some fired) = 0
stamp_count (some (failures n)) = n

unfoldable pub update_consecutive_failures : Db → Bool → ℕ × Db
update_consecutive_failures db success =
    let n = suc (stamp_count (alert_debounce_get db consecutive_key)) in
    if success
    then (0, alert_debounce_set db consecutive_key (failures 0))
    else (n, alert_debounce_set db consecutive_key (failures n))

unfoldable pub join_names : List Text → Text
join_names [] = []
join_names (n ∷ []) = n
join_names (n ∷ m ∷ ns) = n ++ (lit ", " ++ join_names (m ∷ ns))

unfoldable pub default_ops_level : Text → Text
default_ops_level event =
    if text_eq event (lit "sync_failed") || text_eq event (lit "github_unreachable")
    then lit "crit"
    else lit "warn"

-- `count`, `detail` and `outWindow`; `none` for `skip`.
pub record EventMetrics : Type 0 where
  pub count : ℕ
  pub detail : Text
  pub window : Text

abbrev pub this_sync : Text
this_sync = lit "this_sync"

unfoldable pub ops_event_metrics : Text → SyncSnapshot → ℕ → Text → Result (Option EventMetrics)
ops_event_metrics event snap consecutive window =
    if text_eq event (lit "repo_fetch_failed")
    then (let ratio =
          itoa snap.repos_failed ++ (b'/' ∷ (itoa snap.repos_attempted ++ lit " repos failed")) in
        let sample : Text = elim snap.failed_repos [
          | [] ↦ []
          | n ∷ ns ↦ lit " sample=[" ++ (join_names (n ∷ ns) ++ lit "]")
        ] in
        if not (text_eq window this_sync)
        then err (lit "repo_fetch_failed window must be this_sync")
        else ok (
            some (record { count = snap.repos_failed; detail = ratio ++ sample; window = window })))
    else if text_eq event (lit "sync_failed")
    then (if text_eq window (lit "consecutive_runs")
        then ok (
            some (record {
              count = consecutive;
              detail = lit "consecutive_failed_runs=" ++ itoa consecutive;
              window = window;
            }))
        else if snap.success
        then ok none
        else ok (some (record { count = 1; detail = lit "this sync failed"; window = this_sync })))
    else if text_eq event (lit "github_unreachable")
    then (if not snap.unreachable
        then ok none
        else ok (
            some (record {
              count = 1;
              detail = lit "github unreachable (resolve/network)";
              window = this_sync;
            })))
    else if text_eq event (lit "rate_limit")
    then elim snap.rate_limit_remaining [
      | none ↦ ok none
      | some n ↦
          ok (some (record { count = n; detail = lit "remaining=" ++ itoa n; window = window }))
    ]
    else if text_eq event (lit "upstream_stale")
    then (if not snap.upstream_stale
        then ok none
        else ok (
            some (record {
              count = 1;
              detail =
                  if is_empty snap.upstream_stale_since
                  then lit "fleet upstream traffic stuck"
                  else lit "fleet upstream traffic stuck since " ++ snap.upstream_stale_since;
              window = this_sync;
            })))
    else err (lit "unknown ops event")

module _ {F : Type 0} where
  unfoldable pub ops_debounce_mode : RuleSpec F → Text
  ops_debounce_mode r =
      if not (is_empty r.debounce)
      then debounce_mode r
      else if text_eq r.event (lit "upstream_stale")
      then lit "once"
      else if text_eq r.event (lit "sync_failed") && text_eq r.level (lit "crit")
      then lit "every_sync"
      else if text_eq r.event (lit "github_unreachable")
          && (text_eq r.level (lit "crit") || is_empty r.level)
      then lit "every_sync"
      else lit "once_per_utc_day"

  -- `none` when the rule does not fire.
  unfoldable pub evaluate_ops_rule :
      FloatOps F → EvalConfig F → RuleSpec F → SyncSnapshot → ℕ → Result (Option Payload)
  evaluate_ops_rule ops cfg r snap consecutive =
      ops_event_metrics r.event snap consecutive (if is_empty r.window then this_sync else r.window)
      >>= λ found. elim found [
        | none ↦ ok none
        | some m ↦
            let c = compare ops r.op (ops.of_int m.count) r.value in
            ok (
              if c.0
              then some (record empty_payload {
                kind = kind_ops;
                version = cfg.version;
                at = cfg.now;
                level = if is_empty r.level then default_ops_level r.event else r.level;
                event = r.event;
                count = c.1;
                threshold = r.op ++ (b' ' ∷ ops.format_g r.value);
                window = m.window;
                detail = m.detail;
              })
              else none)
      ]

  abbrev pub is_stale_rule : RuleSpec F → Bool
  is_stale_rule r = text_eq r.kind kind_ops && text_eq r.event (lit "upstream_stale")

  unfoldable pub clear_upstream_stale_debounce : FloatOps F → List (RuleSpec F) → Db → Db
  clear_upstream_stale_debounce ops [] db = db
  clear_upstream_stale_debounce ops (r ∷ rs) db =
      clear_upstream_stale_debounce ops rs
        (if is_stale_rule r then alert_debounce_delete db (identity_key ops r r.event) else db)

  -- What becomes of a rule's payload, or of its error.
  unfoldable pub fire_event :
      FloatOps F → EvalConfig F → RuleSpec F → World → Result (Option Payload) → World
  fire_event ops cfg r w (err e) = w
  fire_event ops cfg r w (ok none) = w
  fire_event ops cfg r w (ok (some p)) =
      fire_payload cfg.senders (identity_key ops r r.event) (ops_debounce_mode r) (day_of cfg.now) p
        w

  -- The loop over the rules: one of another kind is skipped, and so is one that fails.
  unfoldable pub ops_rules_from :
      FloatOps F → EvalConfig F → SyncSnapshot → ℕ → List (RuleSpec F) → World → World
  ops_rules_from ops cfg snap consec [] w = w
  ops_rules_from ops cfg snap consec (r ∷ rs) w =
      let skip = ops_rules_from ops cfg snap consec rs w in
      let next =
        ops_rules_from ops cfg snap consec rs
          (fire_event ops cfg r w (evaluate_ops_rule ops cfg r snap consec)) in
      if text_eq r.kind kind_ops then next else skip

  -- The two updates that precede the rules.
  unfoldable pub before_rules : FloatOps F → EvalConfig F → SyncSnapshot → Db → Db
  before_rules ops cfg snap db =
      let counted = (update_consecutive_failures db snap.success).1 in
      if snap.upstream_stale then counted else clear_upstream_stale_debounce ops cfg.rules counted

  unfoldable pub run_ops_rules : FloatOps F → EvalConfig F → SyncSnapshot → World → World
  run_ops_rules ops cfg snap w =
      let consec = (update_consecutive_failures w.db snap.success).0 in
      let ready = record w { db = before_rules ops cfg snap w.db } in
      if no_items cfg.senders || no_items cfg.rules
      then w
      else ops_rules_from ops cfg snap consec cfg.rules ready
