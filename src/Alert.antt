-- ===== src/Alert.antt =====
-- Alert rules and their delivery (internal/alert). Go's float64 is a parameter: a type `F` with
-- the operations that the rules use.
pub mod Rules
pub mod Delivery
pub mod Traffic
pub mod Milestones
pub mod Ops
pub mod Run
pub mod AfterSync
pub mod Config
pub mod Http
pub mod Body
use gghstats.Base.{ℕ, Bool, List, Option}
use gghstats.Base.Text.{Text, lit}
use gghstats.Store.{Instant}

-- Comparison, conversion from int, `(1.0 - float64(cur)/float64(prev)) * 100.0`, `formatNum`,
-- the text "-%.0f%%" of a rounded drop, and "%g".
pub record FloatOps (F : Type 0) : Type 0 where
  pub le : F → F → Bool
  pub lt : F → F → Bool
  pub eq : F → F → Bool
  pub of_int : ℕ → F
  pub drop_pct : ℕ → ℕ → F
  pub format_num : F → Text
  pub format_drop : F → Text
  pub format_g : F → Text

abbrev pub kind_traffic : Text
kind_traffic = lit "traffic"

abbrev pub kind_ops : Text
kind_ops = lit "ops"

-- A threshold of a ladder is not negative here; 0 stands for every number that is refused.
pub record RuleSpec (F : Type 0) : Type 0 where
  pub kind : Text
  pub repo : Text
  pub scope : Text
  pub metric : Text
  pub window : Text
  pub op : Text
  pub value : F
  pub debounce : Text
  pub fire : Text
  pub level : Text
  pub event : Text
  pub milestones : List ℕ

pub record Payload : Type 0 where
  pub kind : Text
  pub version : Text
  pub at : Instant
  pub repo : Text
  pub scope : Text
  pub metric : Text
  pub window : Text
  pub value : Text
  pub rule : Text
  pub dash : Text
  pub level : Text
  pub event : Text
  pub count : Text
  pub threshold : Text
  pub detail : Text

abbrev pub empty_payload : Payload
empty_payload = record {
  kind = List.[];
  version = List.[];
  at = 0;
  repo = List.[];
  scope = List.[];
  metric = List.[];
  window = List.[];
  value = List.[];
  rule = List.[];
  dash = List.[];
  level = List.[];
  event = List.[];
  count = List.[];
  threshold = List.[];
  detail = List.[];
}
