-- ===== src/Alert/Run.antt =====
-- `RunAllRules` of internal/alert/evaluate_ops.go.
pub mod Counter
use gghstats.Base.{if◌then◌else◌}
use gghstats.Alert.{FloatOps}
use gghstats.Alert.Delivery.{World}
use gghstats.Alert.Traffic.{EvalConfig, run_traffic_rules}
use gghstats.Alert.Milestones.{run_milestone_rules}
use gghstats.Alert.Ops.{SyncSnapshot, run_ops_rules}

unfoldable pub run_all_rules :
    {F : Type 0} → FloatOps F → EvalConfig F → SyncSnapshot → World → World
run_all_rules ops cfg snap w =
    let after = run_ops_rules ops cfg snap w in
    if snap.success then run_milestone_rules cfg (run_traffic_rules ops cfg after) else after
