-- ===== src/Alert/Rules.antt =====
-- internal/alert/rules.go: normalisation of rules, debounce modes and identity keys.
pub mod Keys
pub mod Ladder
use gghstats.Base.{
  ℕ, ◌+◌, ◌-◌, Bool, true, false, not, ◌&&◌, ◌||◌, ◌==◌, leb, ltb, if◌then◌else◌, List, [], ◌∷◌,
  ◌++◌, map, any, Option, none, some,
}
use gghstats.Base.Text.{Text, lit, text_eq, is_empty, trim_space}
use gghstats.Base.Results.{Result, ok, err}
use gghstats.Base.Sort.{sort_by}
use gghstats.Base.Decimal.{itoa}
use gghstats.Alert.{FloatOps, RuleSpec, kind_traffic, kind_ops}

-- unicode.ToLower on what it maps into ASCII: the letters A to Z, and the two code points U+0130
-- and U+212A. Other letters are left, which no comparison with a word of the program sees.
unfoldable pub lower_code : ℕ → ℕ
lower_code c =
    if leb b'A' c && leb c b'Z'
    then c + 32
    else if c == 0x130
    then b'i'
    else if c == 0x212a
    then b'k'
    else c

unfoldable pub to_lower : Text → Text
to_lower s = map lower_code s

unfoldable pub lower_trimmed : Text → Text
lower_trimmed s = to_lower (trim_space s)

-- The loop of `normalizeMilestoneRule`: 0 is refused, and a threshold seen before is skipped.
unfoldable pub clean_thresholds : List ℕ → List ℕ → Result (List ℕ)
clean_thresholds cleaned [] = ok cleaned
clean_thresholds cleaned (t ∷ ts) =
    let skip = clean_thresholds cleaned ts in
    let take_it = clean_thresholds (cleaned ++ t ∷ []) ts in
    if t == 0
    then err (lit "milestone thresholds must be positive")
    else if any (λ c. c == t) cleaned
    then skip
    else take_it

module _ {F : Type 0} where
  unfoldable pub is_milestone : RuleSpec F → Bool
  is_milestone r = elim r.milestones [ [] ↦ false | t ∷ ts ↦ true ]

  unfoldable pub debounce_mode : RuleSpec F → Text
  debounce_mode r =
      if is_milestone r
      then lit "once"
      else if text_eq r.fire (lit "once") || text_eq r.debounce (lit "once")
      then lit "once"
      else if is_empty r.debounce || text_eq r.debounce (lit "once_per_utc_day")
      then lit "once_per_utc_day"
      else if text_eq r.debounce (lit "every_sync")
      then lit "every_sync"
      else r.debounce

  -- "%s|%s|%s|%s|%s|%g|%s".
  unfoldable pub identity_key : FloatOps F → RuleSpec F → Text → Text
  identity_key ops r repo_or_scope =
      r.kind
      ++ (b'|'
          ∷ (repo_or_scope
              ++ (b'|'
                  ∷ (r.metric
                      ++ (b'|'
                          ∷ (r.window
                              ++ (b'|'
                                  ∷ (r.op
                                      ++ (b'|'
                                          ∷ (ops.format_g r.value
                                              ++ (b'|' ∷ debounce_mode r)))))))))))

  -- "milestone|%s|stars|%d|once".
  unfoldable pub milestone_identity_key : RuleSpec F → ℕ → Text
  milestone_identity_key r threshold =
      lit "milestone|" ++ (r.repo ++ (lit "|stars|" ++ (itoa threshold ++ lit "|once")))

  unfoldable pub normalize_milestone_rule : RuleSpec F → Result (RuleSpec F)
  normalize_milestone_rule r =
      let metric = if is_empty r.metric then lit "stars" else r.metric in
      if not (text_eq r.kind kind_traffic) && not (is_empty r.kind)
      then err (lit "milestone rules must be kind traffic")
      else if not (text_eq metric (lit "stars"))
      then err (lit "milestones only support metric=stars")
      else if is_empty r.repo
      then err (lit "milestone rule requires repo")
      else elim (clean_thresholds [] r.milestones) [
        | err e ↦ err e
        | ok [] ↦ err (lit "milestones must list at least one positive threshold")
        | ok (t ∷ ts) ↦ ok (record r {
          kind = kind_traffic;
          metric = metric;
          milestones = sort_by (λ (n : ℕ). n) (t ∷ ts);
          fire = lit "once";
          debounce = lit "once";
          window = lit "milestone";
        })
      ]

  -- The lower-cased and trimmed fields.
  unfoldable pub trimmed_rule : RuleSpec F → RuleSpec F
  trimmed_rule r =
      let kind = lower_trimmed r.kind in
      record r {
        kind = if is_empty kind then kind_traffic else kind;
        metric = lower_trimmed r.metric;
        window = lower_trimmed r.window;
        op = lower_trimmed r.op;
        scope = lower_trimmed r.scope;
        debounce = lower_trimmed r.debounce;
        fire = lower_trimmed r.fire;
        repo = trim_space r.repo;
        event = lower_trimmed r.event;
        level = lower_trimmed r.level;
      }

  unfoldable pub check_traffic_rule : RuleSpec F → Result (RuleSpec F)
  check_traffic_rule r =
      if is_empty r.metric
      then err (lit "metric is required")
      else if is_empty r.window
      then err (lit "window is required")
      else if is_empty r.op
      then err (lit "op is required")
      else if is_empty r.repo && is_empty r.scope
      then err (lit "repo or scope is required")
      else if text_eq r.scope (lit "all_repos") && not (text_eq r.window (lit "lifetime"))
      then err (lit "scope only supports window lifetime")
      else ok r

  unfoldable pub check_rule : RuleSpec F → Result (RuleSpec F)
  check_rule r =
      if is_milestone r
      then normalize_milestone_rule r
      else if text_eq r.kind kind_traffic
      then check_traffic_rule r
      else if text_eq r.kind kind_ops
      then (if is_empty r.event then err (lit "ops rule requires event") else ok r)
      else err (lit "unknown kind")

  unfoldable pub normalize_rule : RuleSpec F → Result (RuleSpec F)
  normalize_rule r = check_rule (trimmed_rule r)
