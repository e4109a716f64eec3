-- ===== src/Alert/Milestones.antt =====
-- Star ladders, internal/alert/evaluate_milestones.go.
pub mod Rungs
use gghstats.Base.{
  ℕ, ◌||◌, no_items, Bool, true, false, leb, ltb, if◌then◌else◌, List, [], ◌∷◌, ◌++◌, Option, none,
  some, keep,
}
use gghstats.Base.Text.{Text, lit, is_empty}
use gghstats.Base.Results.{Result, ok, err}
use gghstats.Base.Decimal.{itoa}
use gghstats.Store.{Db, day_of}
use gghstats.Store.Visibility.{report_repo_by_name}
use gghstats.Alert.{RuleSpec, Payload, empty_payload, kind_traffic}
use gghstats.Alert.Rules.{is_milestone, milestone_identity_key}
use gghstats.Alert.Delivery.{World, fire_payload}
use gghstats.Alert.Traffic.{EvalConfig, repo_dashboard_url}

-- The first threshold above one, as a text; empty without one.
unfoldable pub next_threshold : ℕ → List ℕ → Text
next_threshold threshold [] = []
next_threshold threshold (t ∷ ts) =
    let rest = next_threshold threshold ts in if ltb threshold t then itoa t else rest

module _ {F : Type 0} where
  unfoldable pub crossed_milestones_scoped : EvalConfig F → Db → RuleSpec F → Result (List ℕ)
  crossed_milestones_scoped cfg db r =
      elim (report_repo_by_name db (day_of cfg.now) cfg.report_visibility r.repo) [
        | none ↦ err (lit "repo not found")
        | some sum ↦ ok (keep (λ t. leb t sum.stars) r.milestones)
      ]

  unfoldable pub milestone_payload : EvalConfig F → RuleSpec F → ℕ → Payload
  milestone_payload cfg r threshold =
      let next = next_threshold threshold r.milestones in
      record empty_payload {
        kind = kind_traffic;
        version = cfg.version;
        at = cfg.now;
        repo = r.repo;
        metric = lit "stars";
        window = lit "milestone";
        value = itoa threshold;
        rule =
            lit "crossed "
            ++ (itoa threshold
                ++ (if is_empty next then lit " (final)" else lit " (next " ++ (next ++ lit ")")));
        dash = if is_empty cfg.public_url then [] else repo_dashboard_url cfg.public_url r.repo;
      }

  -- The loop over the rungs that are reached.
  unfoldable pub fire_rungs : EvalConfig F → RuleSpec F → List ℕ → World → World
  fire_rungs cfg r [] w = w
  fire_rungs cfg r (t ∷ ts) w = fire_rungs cfg r ts (
      fire_payload cfg.senders (milestone_identity_key r t) (lit "once") (day_of cfg.now)
        (milestone_payload cfg r t) w)

  -- What becomes of the rungs that are reached, or of the error.
  unfoldable pub fire_crossings : EvalConfig F → RuleSpec F → World → Result (List ℕ) → World
  fire_crossings cfg r w (err e) = w
  fire_crossings cfg r w (ok ts) = fire_rungs cfg r ts w

  unfoldable pub milestone_rules_from : EvalConfig F → List (RuleSpec F) → World → World
  milestone_rules_from cfg [] w = w
  milestone_rules_from cfg (r ∷ rs) w =
      let skip = milestone_rules_from cfg rs w in
      let next =
        milestone_rules_from cfg rs
          (fire_crossings cfg r w (crossed_milestones_scoped cfg w.db r)) in
      if is_milestone r then next else skip

  unfoldable pub run_milestone_rules : EvalConfig F → World → World
  run_milestone_rules cfg w =
      if no_items cfg.senders || no_items cfg.rules then w else milestone_rules_from cfg cfg.rules w
