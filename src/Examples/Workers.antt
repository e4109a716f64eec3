-- ===== src/Examples/Workers.antt =====
-- Two workers and two repositories, the second of which fails.
use gghstats.Base.{◌+◌, ◌≤◌, Bool, true, [], ◌∷◌, none, ◌≡◌, refl, count}
use gghstats.Base.Text.{lit}
use gghstats.Github.Types.{Repo, named_repo}
use gghstats.Store.{empty_db}
use gghstats.Alert.AfterSync.{alert_snapshot}
use gghstats.Alert.AfterSync.Masked.{alert_snapshot-sampled}
use gghstats.Sync.Stats.{note_fail, new_repo_fail_counter}
use gghstats.Sync.Workers.{
  worker_count, Pool, initial, Step, hand, check, succeed, fail, Reach, here, next, IsDone,
  cycle_result,
}
use gghstats.Sync.Workers.Account.{Reach-processed}
use gghstats.Sync.Workers.Progress.{steps, Reach-steps}

abbrev one : Repo
one = named_repo (lit "o/one")

abbrev two : Repo
two = named_repo (lit "o/two")

abbrev s0 : Pool
s0 = initial (one ∷ two ∷ []) 2

abbrev s1 : Pool
s1 = record s0 { pending = two ∷ []; idle = 1; received = one ∷ [] }

abbrev s2 : Pool
s2 = record s1 { pending = []; idle = 0; received = two ∷ one ∷ [] }

abbrev s3 : Pool
s3 = record s2 { received = one ∷ []; working = two ∷ [] }

abbrev s4 : Pool
s4 = record s3 { received = []; working = one ∷ two ∷ [] }

abbrev s5 : Pool
s5 = record s4 {
  working = one ∷ [];
  idle = 1;
  counter = note_fail new_repo_fail_counter (lit "o/two");
  errors = 1;
  processed = two ∷ [];
}

abbrev s6 : Pool
s6 = record s5 { working = []; idle = 2; succeeded = 1; processed = one ∷ two ∷ [] }

first-Step : Step s0 s1
unfolding worker_count
first-Step = hand s0 one (two ∷ []) 1 refl refl

Reach-s2 : Reach s0 s2
unfolding worker_count
Reach-s2 = next (next here first-Step) (hand s1 two [] 0 refl refl)

Reach-s6 : Reach s0 s6
Reach-s6 =
    next
      (next
        (next (next Reach-s2 (check s2 [] (one ∷ []) two refl refl)) (check s3 [] [] one refl refl))
        (fail s4 (one ∷ []) [] two refl))
      (succeed s5 [] [] one refl)

s6-IsDone : IsDone s6
s6-IsDone = record { no_pending = refl; no_received = refl; no_working = refl }

Reach-processed_example :
    ((p : Repo → Bool) → count p s6.processed ≡ count p (one ∷ two ∷ []))
    × (s6.succeeded + s6.counter.failed ≡ 2)
Reach-processed_example = Reach-processed (one ∷ two ∷ []) 2 s6 Reach-s6 s6-IsDone refl

Reach-steps_example : steps Reach-s6 ≤ 7
Reach-steps_example = Reach-steps (one ∷ two ∷ []) 2 s6 Reach-s6

alert_snapshot-sampled_example :
    (alert_snapshot
      (λ d. [])
      empty_db
      (record { include_private = true })
      3
      8683200
      (cycle_result (one ∷ two ∷ []) s6.counter none)).repos_failed
    ≤ 5
alert_snapshot-sampled_example =
    alert_snapshot-sampled (λ d. []) empty_db (record { include_private = true }) 3 8683200
      (one ∷ two ∷ []) 2 s6 none Reach-s6 s6-IsDone refl
