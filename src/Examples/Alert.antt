-- ===== src/Examples/Alert.antt =====
-- Alerts with two destinations, on rules whose numbers are natural.
use gghstats.Base.{
  ℕ, leb, ltb, ◌==◌, Bool, true, false, List, [], ◌∷◌, ◌++◌, none, some, inl, no_items, ◌≡◌, refl,
  arith,
}
use gghstats.Base.Text.{Text, lit, text_eq, is_empty}
use gghstats.Base.Results.{ok}
use gghstats.Base.Decimal.{itoa}
use gghstats.Base.Sort.{sort_by}
use gghstats.Store.{empty_db}
use gghstats.Store.Table.{find_row}
use gghstats.Store.Debounce.{alert_debounce_get}
use gghstats.Sync.Stats.{RunResult}
use gghstats.Alert.AfterSync.{after_sync}
use gghstats.Alert.AfterSync.Masked.{after_sync-aborted}
use gghstats.Alert.{FloatOps, RuleSpec, Payload, empty_payload}
use gghstats.Alert.Rules.{identity_key, normalize_milestone_rule, clean_thresholds}
use gghstats.Alert.Delivery.{
  Sender, World, fan_out, send_all, all_delivered, should_fire, stamp_is_day, fire_payload,
}
use gghstats.Alert.Delivery.Debounce.{Attempt, attempts, once, IsDaily, fire_payload-once}
use gghstats.Alert.Traffic.{EvalConfig}
use gghstats.Alert.Milestones.{fire_rungs}
use gghstats.Alert.Milestones.Rungs.{due_deliveries, fire_rungs-due}
use gghstats.Alert.Ops.{SyncSnapshot, stamp_count, before_rules, is_stale_rule}
use gghstats.Alert.Ops.Episodes.{before_rules-episode}
use gghstats.Alert.Run.Counter.{counter, failures_in_row, runs, runs-counter}

abbrev ops : FloatOps ℕ
ops = record {
  le = leb;
  lt = ltb;
  eq = λ a b. a == b;
  of_int = λ n. n;
  drop_pct = λ a b. 0;
  format_num = itoa;
  format_drop = itoa;
  format_g = itoa;
}

abbrev good : Sender
good = record { type = lit "slack"; send = λ p. none }

abbrev bad : Sender
bad = record { type = lit "webhook"; send = λ p. some (lit "timeout") }

abbrev world : World
world = record { db = empty_db; sent = [] }

abbrev key : Text
key = lit "ops||rate_limit"

abbrev daily : Text
daily = lit "once_per_utc_day"

abbrev payload : Payload
payload = record empty_payload { metric = lit "stars" }

delivered : (fan_out (good ∷ []) payload).1 ≡ true
unfolding fan_out all_delivered send_all
delivered = refl

not_delivered : (fan_out (good ∷ bad ∷ []) payload).1 ≡ false
unfolding fan_out all_delivered send_all
not_delivered = refl

due : should_fire empty_db key daily 9 ≡ true
unfolding should_fire alert_debounce_get find_row stamp_is_day text_eq
due = refl

daily-IsDaily : IsDaily daily
daily-IsDaily = (λ e. ground (arith, e), λ e. ground (arith, e))

abbrev later : Attempt
later = record { senders = good ∷ bad ∷ []; today = 30; payload = payload }

fire_payload-once_example :
    attempts key once (later ∷ later ∷ []) (fire_payload (good ∷ []) key once 9 payload world)
    ≡ fire_payload (good ∷ []) key once 9 payload world
fire_payload-once_example =
    fire_payload-once (good ∷ []) key 9 payload world (later ∷ later ∷ []) delivered

abbrev rule : RuleSpec ℕ
rule = record {
  kind = [];
  repo = lit "o/r";
  scope = [];
  metric = [];
  window = [];
  op = [];
  value = 0;
  debounce = [];
  fire = [];
  level = [];
  event = [];
  milestones = 100 ∷ 50 ∷ 100 ∷ [];
}

abbrev ladder : RuleSpec ℕ
ladder = record rule {
  kind = lit "traffic";
  metric = lit "stars";
  window = lit "milestone";
  fire = lit "once";
  debounce = lit "once";
  milestones = sort_by (λ (n : ℕ). n) (100 ∷ 50 ∷ []);
}

accepted : normalize_milestone_rule rule ≡ ok ladder
unfolding normalize_milestone_rule clean_thresholds text_eq is_empty
accepted = refl

abbrev cfg : List Sender → List (RuleSpec ℕ) → EvalConfig ℕ
cfg senders rules = record {
  rules = rules;
  senders = senders;
  public_url = [];
  report_visibility = record { include_private = true };
  now = 8683200;
  version = lit "dev";
}

abbrev rung_config : EvalConfig ℕ
rung_config = cfg (good ∷ []) (ladder ∷ [])

fire_rungs-due_example :
    (fire_rungs rung_config ladder (50 ∷ 100 ∷ []) world).sent
    ≡ [] ++ due_deliveries rung_config ladder empty_db (50 ∷ 100 ∷ [])
fire_rungs-due_example = fire_rungs-due rung_config ladder (50 ∷ 100 ∷ []) world refl

always : (p : Payload) → (fan_out (good ∷ []) p).1 ≡ true
unfolding fan_out all_delivered send_all
always p = refl

abbrev stale_rule : RuleSpec ℕ
stale_rule = record rule {
  kind = lit "ops";
  event = lit "upstream_stale";
  op = lit "gte";
  value = 1;
  milestones = [];
}

abbrev snap : Bool → SyncSnapshot
snap success = record {
  success = success;
  repos_attempted = 4;
  repos_failed = 0;
  failed_repos = [];
  unreachable = false;
  rate_limit_remaining = none;
  upstream_stale = false;
  upstream_stale_since = [];
}

abbrev ops_config : EvalConfig ℕ
ops_config = cfg (good ∷ []) (stale_rule ∷ [])

stale_rule_is_one : is_stale_rule stale_rule ≡ true
unfolding text_eq
stale_rule_is_one = refl

before_rules-episode_example :
    should_fire
      (before_rules ops ops_config (snap true) empty_db)
      (identity_key ops stale_rule stale_rule.event)
      once
      9
    ≡ true
before_rules-episode_example =
    before_rules-episode ops ops_config (snap true) empty_db stale_rule once 9 (inl refl)
      stale_rule_is_one refl

runs-counter_example :
    stamp_count
      (counter (runs ops ops_config (snap false ∷ snap true ∷ snap false ∷ snap false ∷ []) world))
    ≡ failures_in_row
        (stamp_count (counter world))
        (snap false ∷ snap true ∷ snap false ∷ snap false ∷ [])
unfolding no_items
runs-counter_example =
    runs-counter ops ops_config (snap false ∷ snap true ∷ snap false ∷ snap false ∷ []) world refl
      refl

-- A sync that could not list the repositories.
abbrev aborted : RunResult
aborted = record {
  success = false;
  repos_attempted = 0;
  repos_failed = 0;
  failed_repos = [];
  unreachable = true;
  rate_limit_remaining = none;
}

after_sync-aborted_example :
    stamp_count (
      counter (
        after_sync ops
          (λ d. [])
          3
          ops_config
          aborted
          (runs ops ops_config (snap false ∷ []) world)))
    ≡ 0
unfolding no_items
after_sync-aborted_example =
    after_sync-aborted ops (λ d. []) 3 ops_config aborted
      (runs ops ops_config (snap false ∷ []) world) refl refl refl
