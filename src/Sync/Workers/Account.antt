-- ===== src/Sync/Workers/Account.antt =====
-- Every repository is accounted for, whatever the interleaving.
use gghstats.Base.{
  ℕ, suc, ◌+◌, ◌≤◌, Bool, true, false, List, [], ◌∷◌, ◌++◌, ap, min, Option, ◌≡◌, refl, ◌↔◌, length,
  length-append, count, count-append, arith,
}
use gghstats.Github.Types.{Repo}
use gghstats.Sync.Stats.{RepoFailCounter, note_fail, snapshot}
use gghstats.Sync.Workers.{
  worker_count, Pool, initial, Step, hand, check, exit, succeed, fail, cancel, close, Reach, here,
  next, IsDone, cycle_result,
}

abbrev at : (Repo → Bool) → Pool → ℕ
at p s =
    count p s.pending
    + count p s.received
    + count p s.working
    + count p s.processed
    + count p s.dropped

pub record Inv (repos : List Repo) (workers : ℕ) (s : Pool) : Type 0 where
  pub conserved : (p : Repo → Bool) → at p s ≡ count p repos
  pub staffed : s.idle + length s.received + length s.working + s.exited ≡ worker_count workers
  pub counted : length s.processed ≡ s.succeeded + s.counter.failed
  pub failures : s.counter.failed ≡ s.errors
  pub names : length s.counter.names ≡ min s.counter.failed 5
  pub capacity : s.counter.max_name ≡ 5
  pub undisturbed : s.cancelled ≡ false → (s.dropped ≡ []) × (s.exited ≡ 0)

note_fail_facts :
    (c : RepoFailCounter) (name : List ℕ)
    → length c.names ≡ min c.failed 5
    → c.max_name ≡ 5
    → ((note_fail c name).failed ≡ suc c.failed)
      × (length (note_fail c name).names ≡ min (suc c.failed) 5)
      × ((note_fail c name).max_name ≡ 5)
unfolding note_fail
note_fail_facts c name h m = ground (arith, length-append c.names (name ∷ []))

-- Counting in a list from whose middle one item goes elsewhere.
count_middle :
    (p : Repo → Bool) (xs before after : List Repo) (r : Repo)
    → xs ≡ before ++ r ∷ after
    → count p xs ≡ count p (before ++ after) + count p (r ∷ [])
count_middle p xs before after r e =
    ground (arith, ap (count p) e, count-append p before (r ∷ after), count-append p before after)

pub length_middle :
    (xs before after : List Repo) (r : Repo)
    → xs ≡ before ++ r ∷ after
    → length xs ≡ suc (length (before ++ after))
length_middle xs before after r e =
    ground (arith, ap length e, length-append before (r ∷ after), length-append before after)

module _ (repos : List Repo) (workers : ℕ) where
  Step-Inv : {s t : Pool} → Step s t → Inv repos workers s → Inv repos workers t
  Step-Inv (hand s r rest free e i) v = record {
    conserved = λ p. ground (arith, v.conserved p, ap (count p) e);
    staffed = ground (arith, v.staffed);
    counted = v.counted;
    failures = v.failures;
    names = v.names;
    capacity = v.capacity;
    undisturbed = v.undisturbed;
  }
  Step-Inv (check s before after r e c) v = record {
    conserved = λ p. ground (arith, v.conserved p, count_middle p s.received before after r e);
    staffed = ground (arith, v.staffed, length_middle s.received before after r e);
    counted = v.counted;
    failures = v.failures;
    names = v.names;
    capacity = v.capacity;
    undisturbed = v.undisturbed;
  }
  Step-Inv (exit s before after r e c) v = record {
    conserved = λ p. ground (arith, v.conserved p, count_middle p s.received before after r e);
    staffed = ground (arith, v.staffed, length_middle s.received before after r e);
    counted = v.counted;
    failures = v.failures;
    names = v.names;
    capacity = v.capacity;
    undisturbed = λ q. cc;
  }
  Step-Inv (succeed s before after r e) v = record {
    conserved = λ p. ground (arith, v.conserved p, count_middle p s.working before after r e);
    staffed = ground (arith, v.staffed, length_middle s.working before after r e);
    counted = ground (arith, v.counted);
    failures = v.failures;
    names = v.names;
    capacity = v.capacity;
    undisturbed = v.undisturbed;
  }
  Step-Inv (fail s before after r e) v =
      let f = note_fail_facts s.counter r.full_name v.names v.capacity in
      record {
        conserved = λ p. ground (arith, v.conserved p, count_middle p s.working before after r e);
        staffed = ground (arith, v.staffed, length_middle s.working before after r e);
        counted = ground (arith, v.counted);
        failures = ground (arith, v.failures);
        names = ground arith;
        capacity = f.2;
        undisturbed = v.undisturbed;
      }
  Step-Inv (cancel s c) v = record {
    conserved = v.conserved;
    staffed = v.staffed;
    counted = v.counted;
    failures = v.failures;
    names = v.names;
    capacity = v.capacity;
    undisturbed = λ q. cc;
  }
  Step-Inv (close s r rest e c) v = record {
    conserved = λ p. ground (arith, v.conserved p, count-append p s.pending s.dropped);
    staffed = v.staffed;
    counted = v.counted;
    failures = v.failures;
    names = v.names;
    capacity = v.capacity;
    undisturbed = λ q. cc;
  }

  initial-Inv : Inv repos workers (initial repos workers)
  initial-Inv = record {
    conserved = λ p. omega arith;
    staffed = omega arith;
    counted = refl;
    failures = refl;
    names = omega arith;
    capacity = refl;
    undisturbed = λ q. (refl, refl);
  }

  pub Reach-Inv : {s : Pool} → Reach (initial repos workers) s → Inv repos workers s
  Reach-Inv here = initial-Inv
  Reach-Inv (next r st) = Step-Inv st (Reach-Inv r)

count_all : (xs : List Repo) → count (λ _. true) xs ≡ length xs
count_all [] = refl
count_all (x ∷ xs) = ap suc (count_all xs)

-- When the pool is done and nobody cancelled it, the processed repositories are exactly those that
-- it was given, each as often as it was given, and each was counted once, as a success or a failure.
pub Reach-processed :
    (repos : List Repo) (workers : ℕ) (s : Pool)
    → Reach (initial repos workers) s
    → IsDone s
    → s.cancelled ≡ false
    → ((p : Repo → Bool) → count p s.processed ≡ count p repos)
      × (s.succeeded + s.counter.failed ≡ length repos)
Reach-processed repos workers s r d c =
    let v = Reach-Inv repos workers r in
    let u = v.undisturbed c in
    let same = λ (p : Repo → Bool).
      let e : count p s.processed ≡ count p repos =
        ground (arith, v.conserved p, d.no_pending, d.no_received, d.no_working, u.0) in
      e in
    (same, omega (arith, same (λ _. true), count_all s.processed, count_all repos, v.counted))

pub cycle_result-success :
    (repos : List Repo) (workers : ℕ) (s : Pool) (rate : Option ℕ)
    → Reach (initial repos workers) s
    → IsDone s
    → s.cancelled ≡ false
    → (((cycle_result repos s.counter rate).success ≡ true) ↔ (s.succeeded ≡ length repos))
      × ((cycle_result repos s.counter rate).repos_failed ≡ s.errors)
      × (length (cycle_result repos s.counter rate).failed_repos ≡ min s.errors 5)
unfolding cycle_result snapshot
cycle_result-success repos workers s rate r d c =
    let v = Reach-Inv repos workers r in
    let p = (Reach-processed repos workers s r d c).1 in
    ((λ e. ground arith, λ e. ground arith), v.failures, ground (arith, v.names, v.failures))

-- At no time do more repositories lie with the workers than there are workers.
pub Reach-capacity :
    (repos : List Repo) (workers : ℕ) (s : Pool)
    → Reach (initial repos workers) s
    → length s.received + length s.working ≤ worker_count workers
Reach-capacity repos workers s r = omega (arith, (Reach-Inv repos workers r).staffed)
