-- ===== src/Sync/Workers/Progress.antt =====
-- The pool is never stuck, and every schedule ends.
use gghstats.Base.{ℕ, suc, ◌+◌, ◌*◌, ◌≤◌, ◌<◌, List, length, arith, ap, if◌then◌else◌}
use gghstats.Github.Types.{Repo}
use gghstats.Sync.Workers.{
  Pool, initial, Step, hand, check, exit, succeed, fail, cancel, close, Reach, here, next,
}
use gghstats.Sync.Workers.Account.{length_middle}

-- The moves that are left: those for the repositories that are not processed, and the cancellation.
abbrev moves_left : Pool → ℕ
moves_left s =
    3 * length s.pending + 2 * length s.received + length s.working + (if s.cancelled then 0 else 1)

Step-lowers : {s t : Pool} → Step s t → moves_left t < moves_left s
Step-lowers (hand s r rest free e i) = ground (arith, ap length e)
Step-lowers (check s before after r e c) = ground (arith, length_middle s.received before after r e)
Step-lowers (exit s before after r e c) = ground (arith, length_middle s.received before after r e)
Step-lowers (succeed s before after r e) = ground (arith, length_middle s.working before after r e)
Step-lowers (fail s before after r e) = ground (arith, length_middle s.working before after r e)
Step-lowers (cancel s c) = ground (arith, c)
Step-lowers (close s r rest e c) = ground (arith, ap length e)

-- The number of steps of a schedule.
abbrev pub steps : {s t : Pool} → Reach s t → ℕ
steps here = 0
steps (next r st) = suc (steps r)

schedule : {s t : Pool} (r : Reach s t) → steps r + moves_left t ≤ moves_left s
schedule here = omega arith
schedule (next r st) = omega (arith, schedule r, Step-lowers st)

-- Every schedule ends, whatever the interleaving: from the start, a schedule takes at most three
-- steps for each repository and one for the cancellation.
pub Reach-steps :
    (repos : List Repo) (workers : ℕ) (s : Pool) (r : Reach (initial repos workers) s)
    → steps r ≤ 3 * length repos + 1
Reach-steps repos workers s r = omega (arith, schedule r)
