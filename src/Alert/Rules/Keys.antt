-- ===== src/Alert/Rules/Keys.antt =====
-- The debounce keys of a ladder's rungs.
use gghstats.Base.{ℕ, ◌≡◌}
use mathlib.Core.List.{append_cancel_left, append_cancel_right}
use gghstats.Base.Text.{lit}
use gghstats.Base.Decimal.{itoa, itoa-injective}
use gghstats.Alert.{RuleSpec}
use gghstats.Alert.Rules.{milestone_identity_key}

-- Each rung of a ladder has a debounce key of its own.
pub milestone_identity_key-injective :
    {F : Type 0} (r : RuleSpec F) (t u : ℕ)
    → milestone_identity_key r t ≡ milestone_identity_key r u
    → t ≡ u
unfolding milestone_identity_key
milestone_identity_key-injective r t u e = itoa-injective t u (
    append_cancel_right (itoa t) (itoa u) (lit "|once") (
      append_cancel_left (lit "|stars|") _ _
        (append_cancel_left r.repo _ _ (append_cancel_left (lit "milestone|") _ _ e))))
