-- ===== src/Sync/Coordinator/Single.antt =====
-- At most one run works at any time, and the coordinator's state says which.
use gghstats.Base.{
  ℕ, suc, ◌+◌, ap, length-append, true, false, List, [], ◌∷◌, ◌++◌, Option, ◌≡◌, refl, arith,
  length, if◌then◌else◌, All,
}
use gghstats.Base.Text.{Text}
use gghstats.Base.Results.{ok}
use gghstats.Sync.Coordinator.{Coordinator, begin_run, finish_run, settle}
use gghstats.Sync.Coordinator.Steps.{
  Run, working, reporting, System, start, Step, enter, refuse, finish, report, Reach, here, next,
}

-- The number of runs that work.
abbrev pub working_count : List Run → ℕ
working_count [] = 0
working_count (working scope repo ∷ rs) = suc (working_count rs)
working_count (reporting result ∷ rs) = working_count rs

pub working_count-append :
    (xs ys : List Run) → working_count (xs ++ ys) ≡ working_count xs + working_count ys
working_count-append [] ys = omega arith
working_count-append (working a b ∷ xs) ys = omega (arith, working_count-append xs ys)
working_count-append (reporting r ∷ xs) ys = working_count-append xs ys

-- A run that works is the one that the coordinator names.
abbrev pub IsNamed : Coordinator → Run → Type 0
IsNamed c (working scope repo) = (c.scope ≡ scope) × (c.repo ≡ repo)
IsNamed c (reporting result) = Unit {0}

pub record Inv (s : System) : Type 0 where
  pub single : working_count s.runs ≡ (if s.coordinator.running then 1 else 0)
  pub named : All (IsNamed s.coordinator) s.runs
  pub conserved : s.accepted ≡ length s.runs + length s.reported

none_working : (c : Coordinator) (rs : List Run) → working_count rs ≡ 0 → All (IsNamed c) rs
none_working c [] h = tt
none_working c (working a b ∷ rs) h = absurd (omega arith)
none_working c (reporting r ∷ rs) h = (tt, none_working c rs h)

begin_facts :
    (c c' : Coordinator) (scope repo : Text) (now : ℕ)
    → begin_run c scope repo now ≡ ok c'
    → (c.running ≡ false) × (c'.running ≡ true) × (c'.scope ≡ scope) × (c'.repo ≡ repo)
unfolding begin_run
begin_facts c c' scope repo now h = ground arith

-- A working run in the list is the only one.
middle_single :
    (c : Coordinator) (before after : List Run) (scope repo : Text) (rs : List Run)
    → rs ≡ before ++ working scope repo ∷ after
    → working_count rs ≡ (if c.running then 1 else 0)
    → (working_count before ≡ 0) × (working_count after ≡ 0)
middle_single c before after scope repo rs e h =
    let q = working_count-append before (working scope repo ∷ after) in
    let w : working_count rs ≡ working_count (before ++ working scope repo ∷ after) =
      ap working_count e in
    ground arith

append-IsNamed :
    (c : Coordinator) (xs ys : List Run)
    → All (IsNamed c) xs
    → All (IsNamed c) ys
    → All (IsNamed c) (xs ++ ys)
append-IsNamed c [] ys hx hy = hy
append-IsNamed c (x ∷ xs) ys hx hy = (hx.0, append-IsNamed c xs ys hx.1 hy)

-- Taking a reporting run out keeps the others named.
remove-IsNamed :
    (c : Coordinator) (xs ys : List Run) (r : Run)
    → All (IsNamed c) (xs ++ r ∷ ys)
    → All (IsNamed c) (xs ++ ys)
remove-IsNamed c [] ys r h = h.1
remove-IsNamed c (x ∷ xs) ys r h = (h.0, remove-IsNamed c xs ys r h.1)

finish_run-idle :
    (c : Coordinator) (error : Option Text) (now : ℕ) → (finish_run c error now).running ≡ false
unfolding finish_run
finish_run-idle c error now = refl

-- Every step keeps the invariant.
pub Step-Inv : {s t : System} → Step s t → Inv s → Inv t
Step-Inv (enter s c scope repo now e) v =
    let f = begin_facts s.coordinator c scope repo now e in
    record {
      single = ground arith;
      named = ((f.2, f.3), none_working c s.runs (ground arith));
      conserved = ground arith;
    }
Step-Inv (refuse s scope repo now e) v = record {
  single = v.single;
  named = v.named;
  conserved = v.conserved;
}
Step-Inv (finish s before after scope repo result error now e) v =
    let m = middle_single s.coordinator before after scope repo s.runs e v.single in
    let done = finish_run s.coordinator error now in
    record {
      single = ground (
        arith,
        working_count-append before (reporting (settle result error) ∷ after),
        finish_run-idle s.coordinator error now,
      );
      named =
          append-IsNamed done before _ (none_working done before m.0)
            (tt, none_working done after m.1);
      conserved = ground (
        arith,
        v.conserved,
        ap length e,
        length-append before (working scope repo ∷ after),
        length-append before (reporting (settle result error) ∷ after),
      );
    }
Step-Inv (report s before after result e) v = record {
  single = ground (
    arith,
    v.single,
    ap working_count e,
    working_count-append before (reporting result ∷ after),
    working_count-append before after,
  );
  named = remove-IsNamed s.coordinator before after (reporting result) (rw e at v.named);
  conserved = ground (
    arith,
    v.conserved,
    ap length e,
    length-append before (reporting result ∷ after),
    length-append before after,
  );
}

start-Inv : Inv start
start-Inv = record { single = refl; named = tt; conserved = refl }

Reach-Inv : {s t : System} → Reach s t → Inv s → Inv t
Reach-Inv here v = v
Reach-Inv (next r st) v = Step-Inv st (Reach-Inv r v)

-- In every state that the callers can reach from a new coordinator, at most one run works: exactly
-- one while the coordinator says `running`, and none otherwise; and it is the run whose scope and
-- repository the coordinator names.
pub Reach-single :
    (s : System)
    → Reach start s
    → (working_count s.runs ≡ (if s.coordinator.running then 1 else 0))
      × All (IsNamed s.coordinator) s.runs
Reach-single s r = let v = Reach-Inv r start-Inv in (v.single, v.named)

-- In every such state the runs let in are those that work or wait to report, and those that have
-- reported their result: none is lost, and none reports twice.
pub Reach-conserved : (s : System) → Reach start s → s.accepted ≡ length s.runs + length s.reported
Reach-conserved s r = (Reach-Inv r start-Inv).conserved
