-- ===== src/Sync/Stars/History.antt =====
-- The history that the star events leave: on each day that has an event, the number of events up
-- to and including that day.
use gghstats.Base.{
  ℕ, ◌+◌, ◌≤◌, Bool, true, false, ◌==◌, leb, if◌then◌else◌, List, [], ◌∷◌, Option, none, some, max,
  ◌≡◌, refl, inl, inr, any, any-append, count, count-append, All, arith, Bool-cases, length, ◌++◌,
  ◌∙◌,
}
use gghstats.Base.Text.{Text}
use gghstats.Base.Sort.{
  sort_by, sort_by-IsAscending, IsAscending, count-sort_by, any-sort_by, length-sort_by,
}
use gghstats.Github.Types.{Star}
use gghstats.Store.{Db, Date, day_of}
use gghstats.Store.Stars.{upsert_star, star_total, max_star_total}
use gghstats.Store.Stars.Laws.{
  opt_max, star_total-upsert_self, star_total-upsert_other, max_star_total-upsert,
  repos-upsert_star,
}
use gghstats.Sync.Stars.{
  starred, store_ascending, store_star_history, store_from_index, store_star_history_incremental,
}

-- The events of a day, and those up to it.
abbrev pub on_day : Date → Star → Bool
on_day d s = day_of s.starred_at == d

abbrev pub up_to_day : Date → Star → Bool
up_to_day d s = leb (day_of s.starred_at) d

later-on_day :
    (k : ℕ) (d : Date) (ss : List Star)
    → All (λ y. k ≤ starred y) ss
    → any (on_day d) ss ≡ true
    → day_of k ≤ d
later-on_day k d [] h e = cc
later-on_day k d (s ∷ ss) h e = ground (arith, later-on_day k d ss h.1)

none_later :
    (k : ℕ) (d : Date) (ss : List Star)
    → All (λ y. k ≤ starred y) ss
    → any (on_day d) ss ≡ false
    → day_of k ≡ d
    → count (up_to_day d) ss ≡ 0
none_later k d [] h e q = refl
none_later k d (s ∷ ss) h e q = ground (arith, none_later k d ss h.1)

-- What the days' totals become, from a total `base` on.
abbrev pub day_total : ℕ → Date → List Star → Option ℕ
day_total base d ss = if any (on_day d) ss then some (base + count (up_to_day d) ss) else none

store_ascending-total :
    (repo : Text) (d : Date) (ss : List Star) (db : Db) (c : ℕ)
    → IsAscending starred ss
    → star_total (store_ascending repo db c ss) repo d
      ≡ opt_max (star_total db repo d) (day_total c d ss)
unfolding store_ascending
store_ascending-total repo d [] db c h = ground arith
store_ascending-total repo d (s ∷ ss) db c h =
    let next = upsert_star db repo (day_of s.starred_at) (c + 1) in
    let ih = store_ascending-total repo d ss next (c + 1) h.1 in
    elim (Bool-cases (on_day d s)) [
      | inl e ↦ ground (
        arith,
        star_total-upsert_self db repo (day_of s.starred_at) (c + 1),
        none_later s.starred_at d ss h.0,
      )
      | inr e ↦ ground (
        arith,
        star_total-upsert_other db repo repo (day_of s.starred_at) d (c + 1) (inr (ground arith)),
        later-on_day s.starred_at d ss h.0,
      )
    ]

from_index-ascending :
    (repo : Text) (base i : ℕ) (ss : List Star) (db : Db) (c : ℕ)
    → c ≡ base + i
    → store_from_index repo db base i ss ≡ store_ascending repo db c ss
unfolding store_from_index store_ascending
from_index-ascending repo base i [] db c e = refl
from_index-ascending repo base i (s ∷ ss) db c e =
    rw e (from_index-ascending repo base (i + 1) ss _ (base + i + 1) (omega arith))

store_ascending-max :
    (repo : Text) (ss : List Star) (db : Db) (c : ℕ)
    → c ≤ max_star_total db repo
    → max_star_total (store_ascending repo db c ss) repo
      ≡ max (max_star_total db repo) (c + length ss)
unfolding store_ascending
store_ascending-max repo [] db c h = omega arith
store_ascending-max repo (s ∷ ss) db c h =
    let next = upsert_star db repo (day_of s.starred_at) (c + 1) in
    let m = max_star_total-upsert db repo (day_of s.starred_at) (c + 1) in
    omega (arith, m, store_ascending-max repo ss next (c + 1) (omega arith))

-- After `storeStarHistory` a day with star events has the number of events up to and including
-- that day as its total, or its old total where that is larger; any other day keeps its total.
pub store_star_history-total :
    (db : Db) (repo : Text) (stars : List Star) (d : Date)
    → star_total (store_star_history db repo stars) repo d
      ≡ opt_max (star_total db repo d) (day_total 0 d stars)
unfolding store_star_history
store_star_history-total db repo [] d = ground arith
store_star_history-total db repo (s ∷ ss) d =
    rw (← any-sort_by starred (on_day d) (s ∷ ss), ← count-sort_by starred (up_to_day d) (s ∷ ss))
      (store_ascending-total repo d (sort_by starred (s ∷ ss)) db 0
        (sort_by-IsAscending starred (s ∷ ss)))

-- The same for the incremental loop, whose totals start at `base`.
pub store_star_history_incremental-total :
    (db : Db) (repo : Text) (stars : List Star) (base : ℕ) (d : Date)
    → star_total (store_star_history_incremental db repo stars base) repo d
      ≡ opt_max (star_total db repo d) (day_total base d stars)
unfolding store_star_history_incremental
store_star_history_incremental-total db repo [] base d = ground arith
store_star_history_incremental-total db repo (s ∷ ss) base d =
    rw
      (
        from_index-ascending repo base 0 (sort_by starred (s ∷ ss)) db base (omega arith),
        ← any-sort_by starred (on_day d) (s ∷ ss),
        ← count-sort_by starred (up_to_day d) (s ∷ ss),
      )
      (store_ascending-total repo d (sort_by starred (s ∷ ss)) db base
        (sort_by-IsAscending starred (s ∷ ss)))

-- The largest total after `storeStarHistory` is the number of events, or the old maximum.
pub store_star_history-max :
    (db : Db) (repo : Text) (stars : List Star)
    → max_star_total (store_star_history db repo stars) repo
      ≡ max (max_star_total db repo) (length stars)
unfolding store_star_history
store_star_history-max db repo [] = omega arith
store_star_history-max db repo (s ∷ ss) = omega (
  arith,
  store_ascending-max repo (sort_by starred (s ∷ ss)) db 0 (omega arith),
  length-sort_by starred (s ∷ ss),
)

-- Each of the new events is no earlier than each of the old ones.
abbrev pub Follow : List Star → List Star → Type 0
Follow new old = All (λ o. All (λ n. starred o ≤ starred n) new) old

old_before :
    (new old : List Star) (d : Date)
    → Follow new old
    → any (on_day d) new ≡ true
    → count (up_to_day d) old ≡ length old
old_before new [] d h e = refl
old_before new (o ∷ old) d h e =
    ground (arith, later-on_day o.starred_at d new h.0 e, old_before new old d h.1 e)

new_after :
    (new old : List Star) (d : Date)
    → Follow new old
    → any (on_day d) new ≡ false
    → any (on_day d) old ≡ true
    → count (up_to_day d) new ≡ 0
new_after new [] d h e q = cc
new_after new (o ∷ old) d h e q =
    ground (arith, none_later o.starred_at d new h.0 e, new_after new old d h.1 e)

-- Storing the old events, and later the new ones on the number of the old, leaves on every day the
-- total that storing all of them at once leaves, where no new event is earlier than an old one.
pub incremental-eq-full :
    (db : Db) (repo : Text) (new old : List Star) (d : Date)
    → Follow new old
    → star_total
        (store_star_history_incremental (store_star_history db repo old) repo new (length old))
        repo
        d
      ≡ star_total (store_star_history db repo (new ++ old)) repo d
incremental-eq-full db repo new old d h = ground (
  arith,
  store_star_history_incremental-total (store_star_history db repo old) repo new (length old) d,
  store_star_history-total db repo old d,
  store_star_history-total db repo (new ++ old) d,
  any-append (on_day d) new old,
  count-append (up_to_day d) new old,
  old_before new old d h,
  new_after new old d h,
)

-- The incremental loop raises the maximum to `base` and the number of new events, if there are any.
pub store_star_history_incremental-max :
    (db : Db) (repo : Text) (s : Star) (ss : List Star) (base : ℕ)
    → base ≤ max_star_total db repo
    → max_star_total (store_star_history_incremental db repo (s ∷ ss) base) repo
      ≡ max (max_star_total db repo) (base + length (s ∷ ss))
unfolding store_star_history_incremental
store_star_history_incremental-max db repo s ss base h =
    rw
      (
        from_index-ascending repo base 0 (sort_by starred (s ∷ ss)) db base (omega arith),
        ← length-sort_by starred (s ∷ ss),
      )
      (store_ascending-max repo (sort_by starred (s ∷ ss)) db base h)

repos-store_ascending :
    (repo : Text) (ss : List Star) (db : Db) (c : ℕ)
    → (store_ascending repo db c ss).repos ≡ db.repos
unfolding store_ascending
repos-store_ascending repo [] db c = refl
repos-store_ascending repo (s ∷ ss) db c =
    repos-store_ascending repo ss _ (c + 1)
    ∙ repos-upsert_star db repo (day_of s.starred_at) (c + 1)

-- The history is all that the two functions write.
pub repos-store_star_history :
    (db : Db) (repo : Text) (stars : List Star)
    → (store_star_history db repo stars).repos ≡ db.repos
unfolding store_star_history
repos-store_star_history db repo [] = refl
repos-store_star_history db repo (s ∷ ss) = repos-store_ascending repo _ db 0

pub repos-store_incremental :
    (db : Db) (repo : Text) (stars : List Star) (base : ℕ)
    → (store_star_history_incremental db repo stars base).repos ≡ db.repos
unfolding store_star_history_incremental
repos-store_incremental db repo [] base = refl
repos-store_incremental db repo (s ∷ ss) base =
    rw (from_index-ascending repo base 0 (sort_by starred (s ∷ ss)) db base (omega arith))
      (repos-store_ascending repo _ db base)
