-- ===== src/Alert/Run/Counter.antt =====
-- The counter of failed runs, over whole runs of all the rules.
use gghstats.Base.{
  ℕ, suc, Bool, false, if◌then◌else◌, List, [], ◌∷◌, no_items, Option, none, some, ◌≡◌, ◌≢◌, refl,
  ap, ◌∙◌, arith,
}
use gghstats.Base.Text.{Text, lit}
use gghstats.Base.Results.{Result, ok, err}
use gghstats.Store.{Stamp, failures, day_of}
use gghstats.Store.Debounce.{alert_debounce_get}
use gghstats.Alert.{FloatOps, RuleSpec, Payload}
use gghstats.Alert.Rules.{debounce_mode, identity_key, milestone_identity_key}
use gghstats.Alert.Delivery.{World, fire_payload}
use gghstats.Alert.Delivery.Debounce.{fire_payload-other_key}
use gghstats.Alert.Traffic.{
  EvalConfig, evaluate_traffic_rule_scoped, first_non_empty, fire_all, fire_result,
  traffic_rules_from, run_traffic_rules,
}
use gghstats.Alert.Milestones.{
  crossed_milestones_scoped, milestone_payload, fire_rungs, fire_crossings, milestone_rules_from,
  run_milestone_rules,
}
use gghstats.Alert.Ops.{
  SyncSnapshot, consecutive_key, stamp_count, update_consecutive_failures, before_rules,
  evaluate_ops_rule, ops_debounce_mode, fire_event, ops_rules_from, run_ops_rules,
}
use gghstats.Alert.Ops.Episodes.{identity_key-counter, before_rules-counter}
use gghstats.Alert.Run.{run_all_rules}

-- The counter's stamp.
abbrev pub counter : World → Option Stamp
counter w = alert_debounce_get w.db consecutive_key

module _ {F : Type 0} (ops : FloatOps F) where
  fire_key :
      (cfg : EvalConfig F) (r : RuleSpec F) (s mode : Text) (p : Payload) (w : World)
      → counter (fire_payload cfg.senders (identity_key ops r s) mode (day_of cfg.now) p w)
        ≡ counter w
  fire_key cfg r s mode p w =
      fire_payload-other_key cfg.senders (identity_key ops r s) consecutive_key mode
        (day_of cfg.now) p w (identity_key-counter ops r s)

  fire_all-counter :
      (cfg : EvalConfig F) (r : RuleSpec F) (ps : List Payload) (w : World)
      → counter (fire_all ops cfg r ps w) ≡ counter w
  unfolding fire_all
  fire_all-counter cfg r [] w = refl
  fire_all-counter cfg r (p ∷ ps) w =
      let s = first_non_empty p.repo p.scope in
      fire_all-counter cfg r ps
        (fire_payload cfg.senders (identity_key ops r s) (debounce_mode r) (day_of cfg.now) p w)
      ∙ fire_key cfg r s (debounce_mode r) p w

  fire_result-counter :
      (cfg : EvalConfig F) (r : RuleSpec F) (w : World) (x : Result (List Payload))
      → counter (fire_result ops cfg r w x) ≡ counter w
  unfolding fire_result
  fire_result-counter cfg r w (err e) = refl
  fire_result-counter cfg r w (ok ps) = fire_all-counter cfg r ps w

  traffic-counter :
      (cfg : EvalConfig F) (rs : List (RuleSpec F)) (w : World)
      → counter (traffic_rules_from ops cfg rs w) ≡ counter w
  unfolding traffic_rules_from
  traffic-counter cfg [] w = refl
  traffic-counter cfg (r ∷ rs) w =
      let x = evaluate_traffic_rule_scoped ops cfg w.db r in
      let one = fire_result-counter cfg r w x in
      ground
        (arith, one, traffic-counter cfg rs w, traffic-counter cfg rs (fire_result ops cfg r w x))

  fire_event-counter :
      (cfg : EvalConfig F) (r : RuleSpec F) (w : World) (x : Result (Option Payload))
      → counter (fire_event ops cfg r w x) ≡ counter w
  unfolding fire_event
  fire_event-counter cfg r w (err e) = refl
  fire_event-counter cfg r w (ok none) = refl
  fire_event-counter cfg r w (ok (some p)) = fire_key cfg r r.event (ops_debounce_mode r) p w

  ops-counter :
      (cfg : EvalConfig F) (snap : SyncSnapshot) (n : ℕ) (rs : List (RuleSpec F)) (w : World)
      → counter (ops_rules_from ops cfg snap n rs w) ≡ counter w
  unfolding ops_rules_from
  ops-counter cfg snap n [] w = refl
  ops-counter cfg snap n (r ∷ rs) w =
      let x = evaluate_ops_rule ops cfg r snap n in
      let one = fire_event-counter cfg r w x in
      ground (
        arith,
        one,
        ops-counter cfg snap n rs w,
        ops-counter cfg snap n rs (fire_event ops cfg r w x),
      )

module _ {F : Type 0} where
  milestone_key-counter : (r : RuleSpec F) (t : ℕ) → milestone_identity_key r t ≢ consecutive_key
  unfolding milestone_identity_key
  milestone_key-counter r t e = ground (arith, e)

  rungs-counter :
      (cfg : EvalConfig F) (r : RuleSpec F) (ts : List ℕ) (w : World)
      → counter (fire_rungs cfg r ts w) ≡ counter w
  unfolding fire_rungs
  rungs-counter cfg r [] w = refl
  rungs-counter cfg r (t ∷ ts) w =
      rungs-counter cfg r ts (
        fire_payload cfg.senders (milestone_identity_key r t) (lit "once") (day_of cfg.now)
          (milestone_payload cfg r t) w)
      ∙ fire_payload-other_key cfg.senders (milestone_identity_key r t) consecutive_key (lit "once")
          (day_of cfg.now) (milestone_payload cfg r t) w (milestone_key-counter r t)

  fire_crossings-counter :
      (cfg : EvalConfig F) (r : RuleSpec F) (w : World) (x : Result (List ℕ))
      → counter (fire_crossings cfg r w x) ≡ counter w
  unfolding fire_crossings
  fire_crossings-counter cfg r w (err e) = refl
  fire_crossings-counter cfg r w (ok ts) = rungs-counter cfg r ts w

  milestones-counter :
      (cfg : EvalConfig F) (rs : List (RuleSpec F)) (w : World)
      → counter (milestone_rules_from cfg rs w) ≡ counter w
  unfolding milestone_rules_from
  milestones-counter cfg [] w = refl
  milestones-counter cfg (r ∷ rs) w =
      let x = crossed_milestones_scoped cfg w.db r in
      let one = fire_crossings-counter cfg r w x in
      ground (
        arith,
        one,
        milestones-counter cfg rs w,
        milestones-counter cfg rs (fire_crossings cfg r w x),
      )

-- The number of failed syncs since the last successful one, before which `n` had failed.
abbrev pub failures_in_row : ℕ → List SyncSnapshot → ℕ
failures_in_row n [] = n
failures_in_row n (s ∷ ss) = failures_in_row (if s.success then 0 else suc n) ss

module _ {F : Type 0} (ops : FloatOps F) where
  -- One run of all the rules after each sync; the database may change between two of them only by
  -- the rules.
  abbrev pub runs : EvalConfig F → List SyncSnapshot → World → World
  runs cfg [] w = w
  runs cfg (s ∷ ss) w = runs cfg ss (run_all_rules ops cfg s w)

  success_rules : EvalConfig F → Bool → World → World
  success_rules cfg success after =
      if success then run_milestone_rules cfg (run_traffic_rules ops cfg after) else after

  success-counter :
      (cfg : EvalConfig F) (success : Bool) (w : World)
      → counter (success_rules cfg success w) ≡ counter w
  unfolding success_rules run_milestone_rules run_traffic_rules
  success-counter cfg success w =
      let t = traffic_rules_from ops cfg cfg.rules w in
      ground (
        arith,
        traffic-counter ops cfg cfg.rules w,
        milestones-counter cfg cfg.rules w,
        milestones-counter cfg cfg.rules t,
      )

  run_ops-counter :
      (cfg : EvalConfig F) (snap : SyncSnapshot) (w : World)
      → no_items cfg.senders ≡ false
      → no_items cfg.rules ≡ false
      → counter (run_ops_rules ops cfg snap w)
        ≡ some (failures (if snap.success then 0 else suc (stamp_count (counter w))))
  unfolding run_ops_rules
  run_ops-counter cfg snap w hs hr =
      let (seen, kept) = before_rules-counter ops cfg snap w.db in
      let n = (update_consecutive_failures w.db snap.success).0 in
      let ready : World = record w { db = before_rules ops cfg snap w.db } in
      let o = ops-counter ops cfg snap n cfg.rules ready in ground (arith, seen, kept, o)

  -- With senders and rules, the counter after the runs that follow a series of syncs is the number
  -- of syncs that failed since the last successful one, whatever rules there are, the deliveries
  -- they make and the stamps they leave.
  pub runs-counter :
      (cfg : EvalConfig F) (snaps : List SyncSnapshot) (w : World)
      → no_items cfg.senders ≡ false
      → no_items cfg.rules ≡ false
      → stamp_count (counter (runs cfg snaps w)) ≡ failures_in_row (stamp_count (counter w)) snaps
  unfolding run_all_rules success_rules stamp_count
  runs-counter cfg [] w hs hr = refl
  runs-counter cfg (s ∷ ss) w hs hr =
      let after = run_ops_rules ops cfg s w in
      let one : counter (run_all_rules ops cfg s w)
          ≡ some (failures (if s.success then 0 else suc (stamp_count (counter w)))) =
        success-counter cfg s.success after ∙ run_ops-counter cfg s w hs hr in
      runs-counter cfg ss (run_all_rules ops cfg s w) hs hr
      ∙ ap (λ o. failures_in_row (stamp_count o) ss) one
