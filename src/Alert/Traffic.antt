-- ===== src/Alert/Traffic.antt =====
-- Rules on traffic, internal/alert/evaluate.go. Statements on the database succeed; an error is
-- that of a rule that the code refuses.
use gghstats.Base.{
  ℕ, ◌-◌, max, Bool, false, not, ◌&&◌, ◌||◌, ◌==◌, if◌then◌else◌, List, [], ◌∷◌, ◌++◌, no_items,
  Option, none, some,
}
use gghstats.Base.Text.{Text, lit, text_eq, is_empty, trim_space}
use gghstats.Base.Results.{Result, ok, err, ◌>>=◌}
use gghstats.Base.Decimal.{itoa}
use gghstats.Store.{Db, Date, Instant, day_of}
use gghstats.Store.Repos.{RepoSummary, sum_where, in_range, repo_by_name}
use gghstats.Store.Traffic.{day_count}
use gghstats.Store.Visibility.{
  ReportVisibility, report_repo_by_name, list_report_repos, sum_report_clones_all,
  sum_report_views_all,
}
use gghstats.Alert.{FloatOps, RuleSpec, Payload, empty_payload, kind_traffic, kind_ops}
use gghstats.Alert.Rules.{is_milestone, debounce_mode, identity_key}
use gghstats.Alert.Delivery.{Sender, World, fire_payload}

-- The fields of `EvalConfig` but its database, with `version.Version` and `Now` set.
pub record EvalConfig (F : Type 0) : Type 0 where
  pub rules : List (RuleSpec F)
  pub senders : List Sender
  pub public_url : Text
  pub report_visibility : ReportVisibility
  pub now : Instant
  pub version : Text

-- strings.TrimRight(s, "/").
unfoldable pub trim_slashes : Text → Text
trim_slashes [] = []
trim_slashes (c ∷ s) =
    let rest = trim_slashes s in if is_empty rest && c == b'/' then [] else c ∷ rest

unfoldable pub repo_dashboard_url : Text → Text → Text
repo_dashboard_url public_url repo =
    let base = trim_slashes (trim_space public_url) in
    let name = trim_space repo in
    if is_empty base || is_empty name then [] else base ++ (b'/' ∷ name)

-- `firstNonEmpty` of two values.
unfoldable pub first_non_empty : Text → Text → Text
first_non_empty a b =
    if not (is_empty (trim_space a)) then a else if not (is_empty (trim_space b)) then b else []

-- The days are counted back from the day of `now`, which has more than fourteen days before it.
unfoldable pub sum_range : Db → Text → Text → Instant → ℕ → ℕ → ℕ
sum_range db table repo now days_back_end span_days =
    let end = day_of now - days_back_end in
    let start = end - (span_days - 1) in
    if text_eq table (lit "clones")
    then sum_where (in_range repo start end) (λ r. r.count) db.clones
    else sum_where (in_range repo start end) (λ r. r.count) db.views

abbrev pub at_most_one : Option Payload → Result (List Payload)
at_most_one one = ok (elim one [ none ↦ [] | some p ↦ p ∷ [] ])

module _ {F : Type 0} where
  unfoldable pub compare : FloatOps F → Text → F → F → Bool × Text
  compare ops op value threshold =
      if text_eq op (lit "gte")
      then (ops.le threshold value, ops.format_num value)
      else if text_eq op (lit "gt")
      then (ops.lt threshold value, ops.format_num value)
      else if text_eq op (lit "lte")
      then (ops.le value threshold, ops.format_num value)
      else if text_eq op (lit "lt")
      then (ops.lt value threshold, ops.format_num value)
      else if text_eq op (lit "eq")
      then (ops.eq value threshold, ops.format_num value)
      else if text_eq op (lit "drop_pct")
      then (ops.le threshold value, ops.format_drop value)
      else (false, ops.format_num value)

  unfoldable pub wow_drop_pct : FloatOps F → Db → Text → Text → Instant → F × Text
  wow_drop_pct ops db metric repo now =
      let cur = sum_range db metric repo now 0 7 in
      let prev = max 1 (sum_range db metric repo now 7 7) in
      (ops.drop_pct cur prev, lit "this_week=" ++ (itoa cur ++ (lit " last_week=" ++ itoa prev)))

  -- The repository's totals; 0 for one that is not in the table or hidden.
  unfoldable pub lifetime_repo : FloatOps F → Db → Date → Text → Text → F × Text
  lifetime_repo ops db today metric repo = elim (repo_by_name db today repo) [
    | none ↦ (ops.of_int 0, [])
    | some sum ↦ (
      if text_eq metric (lit "clones")
          then ops.of_int sum.total_clones
          else ops.of_int sum.total_views,
      [],
    )
  ]

  unfoldable pub lifetime_all_repos_scoped :
      FloatOps F → Db → Date → ReportVisibility → Text → Result (F × Text)
  lifetime_all_repos_scoped ops db today scope metric =
      if text_eq metric (lit "clones")
      then ok (ops.of_int (sum_report_clones_all db today scope), [])
      else if text_eq metric (lit "views")
      then ok (ops.of_int (sum_report_views_all db today scope), [])
      else err (lit "lifetime all_repos unsupported metric")

  unfoldable pub metric_value_scoped :
      FloatOps F → Db → ReportVisibility → RuleSpec F → Text → Instant → Result (F × Text)
  metric_value_scoped ops db scope r repo now =
      if text_eq r.scope (lit "all_repos") && text_eq r.window (lit "lifetime")
      then lifetime_all_repos_scoped ops db (day_of now) scope r.metric
      else if is_empty repo && not (text_eq r.scope (lit "all_repos"))
      then err (lit "repo required")
      else if not (text_eq r.metric (lit "clones")) && not (text_eq r.metric (lit "views"))
      then err (lit "unsupported metric")
      else if text_eq r.window (lit "1d")
      then day_count db r.metric repo (day_of now) >>= (λ n. ok (ops.of_int n, []))
      else if text_eq r.window (lit "7d")
      then ok (ops.of_int (sum_range db r.metric repo now 0 7), [])
      else if text_eq r.window (lit "30d")
      then ok (ops.of_int (sum_range db r.metric repo now 0 30), [])
      else if text_eq r.window (lit "lifetime")
      then ok (lifetime_repo ops db (day_of now) r.metric repo)
      else if text_eq r.window (lit "wow")
      then ok (wow_drop_pct ops db r.metric repo now)
      else err (lit "unsupported window")

  -- The payload for a value that fires.
  unfoldable pub traffic_payload :
      FloatOps F → EvalConfig F → RuleSpec F → Text → Text → Text → Payload
  traffic_payload ops cfg r repo display detail =
      let rule = r.op ++ (b' ' ∷ ops.format_g r.value) in
      let all = text_eq r.scope (lit "all_repos") in
      record empty_payload {
        kind = kind_traffic;
        version = cfg.version;
        at = cfg.now;
        metric = r.metric;
        window = r.window;
        value = display;
        rule = if is_empty detail then rule else rule ++ (lit " (" ++ (detail ++ lit ")"));
        scope = if all then lit "all_repos" else [];
        repo = if all then [] else repo;
        dash =
            if all || is_empty cfg.public_url then [] else repo_dashboard_url cfg.public_url repo;
      }

  -- `none` when the rule does not fire.
  unfoldable pub eval_one_scoped :
      FloatOps F → EvalConfig F → Db → RuleSpec F → Text → Result (Option Payload)
  eval_one_scoped ops cfg db r repo =
      metric_value_scoped ops db cfg.report_visibility r repo cfg.now >>= λ v.
      let c = compare ops r.op v.0 r.value in
      ok (if c.0 then some (traffic_payload ops cfg r repo c.1 v.1) else none)

  -- The loop of the scope `each_repo`, which an error ends.
  unfoldable pub eval_each :
      FloatOps F → EvalConfig F → Db → RuleSpec F → List RepoSummary → Result (List Payload)
  eval_each ops cfg db r [] = ok []
  eval_each ops cfg db r (rs ∷ repos) = eval_one_scoped ops cfg db r rs.name >>= λ one.
      eval_each ops cfg db r repos >>= λ rest. ok (elim one [ none ↦ rest | some p ↦ p ∷ rest ])

  unfoldable pub evaluate_traffic_rule_scoped :
      FloatOps F → EvalConfig F → Db → RuleSpec F → Result (List Payload)
  evaluate_traffic_rule_scoped ops cfg db r =
      if text_eq r.scope (lit "all_repos")
      then eval_one_scoped ops cfg db r [] >>= at_most_one
      else if text_eq r.scope (lit "each_repo")
      then eval_each ops cfg db r (list_report_repos db (day_of cfg.now) cfg.report_visibility)
      else if is_empty r.repo
      then err (lit "repo required when scope unset")
      else elim (report_repo_by_name db (day_of cfg.now) cfg.report_visibility r.repo) [
        | none ↦ ok []
        | some s ↦ eval_one_scoped ops cfg db r r.repo >>= at_most_one
      ]

  -- The loop over a rule's payloads.
  unfoldable pub fire_all : FloatOps F → EvalConfig F → RuleSpec F → List Payload → World → World
  fire_all ops cfg r [] w = w
  fire_all ops cfg r (p ∷ ps) w = fire_all ops cfg r ps (
      fire_payload cfg.senders (identity_key ops r (first_non_empty p.repo p.scope))
        (debounce_mode r) (day_of cfg.now) p w)

  -- What becomes of a rule's payloads, or of its error.
  unfoldable pub fire_result :
      FloatOps F → EvalConfig F → RuleSpec F → World → Result (List Payload) → World
  fire_result ops cfg r w (err e) = w
  fire_result ops cfg r w (ok ps) = fire_all ops cfg r ps w

  -- The loop over the rules; a rule that fails is skipped.
  unfoldable pub traffic_rules_from : FloatOps F → EvalConfig F → List (RuleSpec F) → World → World
  traffic_rules_from ops cfg [] w = w
  traffic_rules_from ops cfg (r ∷ rs) w =
      let skip = traffic_rules_from ops cfg rs w in
      let next =
        traffic_rules_from ops cfg rs
          (fire_result ops cfg r w (evaluate_traffic_rule_scoped ops cfg w.db r)) in
      if is_milestone r || text_eq r.kind kind_ops then skip else next

  -- Without senders or rules nothing happens.
  unfoldable pub run_traffic_rules : FloatOps F → EvalConfig F → World → World
  run_traffic_rules ops cfg w =
      if no_items cfg.senders || no_items cfg.rules
      then w
      else traffic_rules_from ops cfg cfg.rules w
