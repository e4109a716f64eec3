-- ===== src/Sync/Stars/Cursor.antt =====
-- The cursor protocol of `syncRepoStars`: when a run is skipped, healed or incremental.
use gghstats.Base.{
  ℕ, ◌+◌, ◌-◌, ◌≤◌, ◌<◌, Bool, true, ◌==◌, ltb, if◌then◌else◌, List, [], ◌∷◌, some, max, ◌≡◌, refl,
  sym, ap, ◌∙◌, ◌⊎◌, inl, inr, arith, Bool-cases, Option-cases, length,
}
use gghstats.Base.Text.{Text}
use gghstats.Base.Results.{ok}
use gghstats.Github.Types.{Star, Repo}
use gghstats.Store.{Db, Date, Instant}
use gghstats.Store.Stars.{max_star_total, get_star_sync_cursor}
use gghstats.Store.Stars.Laws.{HasRepo, get_cursor-set_cursor, max_star_total-set_cursor}
use gghstats.Sync.Stars.{
  store_star_history, store_star_history_incremental, newest_starred_at, StarApi, no_faults, Mode,
  skipped, full, full_heal, incremental, star_history_behind_kpi, write_cursor, sync_stars_full,
  sync_stars_incremental, sync_repo_stars,
}
use gghstats.Sync.Stars.History.{
  store_star_history-max, store_star_history_incremental-max, repos-store_star_history,
  repos-store_incremental,
}

-- The run over a store whose cursor is at the present count.
settled_mode :
    (api : StarApi) (db : Db) (repo : Repo) (name : Text) (today : Date) (at : Instant)
    → get_star_sync_cursor db name
      ≡ record { last_seen_star_count = some repo.stargazers_count; last_starred_at = at }
    → (h : ℕ) → max_star_total db name ≡ h
    → repo.stargazers_count ≤ h
    → (sync_repo_stars api no_faults db repo name today true).mode ≡ skipped
unfolding sync_repo_stars star_history_behind_kpi
settled_mode api db repo name today at c h e le = ground arith

-- After a full fetch that succeeds, the cursor is at the count of the metadata.
full-cursor :
    (api : StarApi) (db : Db) (name : Text) (current : ℕ) (behind : Bool) (stars : List Star)
    → HasRepo db name
    → api.stargazers name ≡ ok stars
    → get_star_sync_cursor (sync_stars_full api no_faults db name current behind).db name
      ≡ record { last_seen_star_count = some current; last_starred_at = newest_starred_at stars }
unfolding sync_stars_full write_cursor
full-cursor api db name current behind stars (r, has) e =
    rw (e, sync_stars_full)
      (get_cursor-set_cursor (store_star_history db name stars) name current
        (newest_starred_at stars) (r, rw (repos-store_star_history db name stars) has))

full-max :
    (api : StarApi) (db : Db) (name : Text) (current : ℕ) (behind : Bool) (stars : List Star)
    → api.stargazers name ≡ ok stars
    → max_star_total (sync_stars_full api no_faults db name current behind).db name
      ≡ max (max_star_total db name) (length stars)
unfolding sync_stars_full write_cursor
full-max api db name current behind stars e =
    rw (e, sync_stars_full)
      (max_star_total-set_cursor (store_star_history db name stars) name name current
          (newest_starred_at stars)
        ∙ store_star_history-max db name stars)

-- The run over a store whose cursor is at the present count while the history lags.
lagging_mode :
    (api : StarApi) (db : Db) (repo : Repo) (name : Text) (today : Date) (at : Instant)
    (stars : List Star)
    → api.stargazers name ≡ ok stars
    → get_star_sync_cursor db name
      ≡ record { last_seen_star_count = some repo.stargazers_count; last_starred_at = at }
    → (h : ℕ) → max_star_total db name ≡ h
    → h < repo.stargazers_count
    → (sync_repo_stars api no_faults db repo name today true).mode ≡ full_heal
unfolding sync_repo_stars star_history_behind_kpi sync_stars_full
lagging_mode api db repo name today at stars a c h e lt = ground arith

abbrev pub IsFull : Mode → Type 0
IsFull m = (m ≡ full) ⊎ (m ≡ full_heal)

incremental-not-IsFull :
    (api : StarApi) (db : Db) (name : Text) (current count : ℕ) (at : Instant)
    → ¬ IsFull (sync_stars_incremental api no_faults db name current count at).mode
unfolding sync_stars_incremental
incremental-not-IsFull api db name current count at h = ground arith

-- A run that ends in a full mode was a full fetch.
full_run :
    (api : StarApi) (db : Db) (repo : Repo) (name : Text) (today : Date)
    → IsFull (sync_repo_stars api no_faults db repo name today true).mode
    → (b : Bool) × (sync_repo_stars api no_faults db repo name today true
        ≡ sync_stars_full api no_faults db name repo.stargazers_count b)
unfolding sync_repo_stars
full_run api db repo name today h =
    let cursor = get_star_sync_cursor db name in
    let b = star_history_behind_kpi cursor (max_star_total db name) repo.stargazers_count in
    elim (Option-cases cursor.last_seen_star_count) [
      | inl n ↦ (b, ground arith)
      | inr (last, n) ↦ (
        b,
        ground (
          arith,
          incremental-not-IsFull api db name repo.stargazers_count last cursor.last_starred_at,
        ),
      )
    ]

-- After a full fetch that succeeds, a second run with the same metadata is skipped if the history's
-- old maximum or the number of fetched events reaches the star count, and else fetches all again.
pub sync_repo_stars-after_full :
    (api : StarApi) (db : Db) (repo : Repo) (name : Text) (today : Date) (stars : List Star)
    → HasRepo db name
    → api.stargazers name ≡ ok stars
    → IsFull (sync_repo_stars api no_faults db repo name today true).mode
    → (sync_repo_stars api no_faults
        (sync_repo_stars api no_faults db repo name today true).db
        repo
        name
        today
        true).mode
      ≡ (if ltb (max (max_star_total db name) (length stars)) repo.stargazers_count
          then full_heal
          else skipped)
sync_repo_stars-after_full api db repo name today stars has a h =
    let (b, e) = full_run api db repo name today h in
    let c = full-cursor api db name repo.stargazers_count b stars has a in
    let m = full-max api db name repo.stargazers_count b stars a in
    let next = (sync_stars_full api no_faults db name repo.stargazers_count b).db in
    rw e
      (elim (Bool-cases (ltb (max (max_star_total db name) (length stars)) repo.stargazers_count)) [
        | inl lt ↦ rw lt (lagging_mode api next repo name today _ stars a c _ m (ground arith))
        | inr ge ↦ rw ge (settled_mode api next repo name today _ c _ m (ground arith))
      ])

-- Against a store where no statement fails, the cursor is at the count or an older one afterwards,
-- and a run that is incremental fetched the difference.
incremental_facts :
    (api : StarApi) (db : Db) (repo : Repo) (name : Text) (today : Date)
    → (sync_repo_stars api no_faults db repo name today true).mode ≡ incremental
    → (last : ℕ) × ((get_star_sync_cursor db name).last_seen_star_count ≡ some last)
      × (last < repo.stargazers_count)
      × (last ≤ max_star_total db name)
      × (sync_repo_stars api no_faults db repo name today true
          ≡ sync_stars_incremental api no_faults db name repo.stargazers_count last
              (get_star_sync_cursor db name).last_starred_at)
unfolding sync_repo_stars sync_stars_full star_history_behind_kpi
incremental_facts api db repo name today h =
    let cursor = get_star_sync_cursor db name in
    elim (Option-cases cursor.last_seen_star_count) [
      | inl n ↦ absurd (ground arith)
      | inr (last, n) ↦ (last, n, ground arith, ground arith, ground arith)
    ]

-- What an incremental fetch of at least one event leaves.
incremental_state :
    (api : StarApi) (db : Db) (name : Text) (current last : ℕ) (at : Instant) (s : Star)
    (ss : List Star)
    → HasRepo db name
    → api.stargazers_recent name (current - last) at ≡ ok (s ∷ ss)
    → last ≤ max_star_total db name
    → let next = (sync_stars_incremental api no_faults db name current last at).db in
      (newest : Instant) × (get_star_sync_cursor next name
        ≡ record { last_seen_star_count = some current; last_starred_at = newest })
      × (max_star_total next name ≡ max (max_star_total db name) (last + length (s ∷ ss)))
unfolding sync_stars_incremental write_cursor
incremental_state api db name current last at s ss (r, has) e le =
    let newest = newest_starred_at (s ∷ ss) in
    let stamp = if newest == 0 then at else newest in
    let stored = store_star_history_incremental db name (s ∷ ss) last in
    (
      stamp,
      rw (e, sync_stars_incremental)
          (get_cursor-set_cursor stored name current stamp
            (r, rw (repos-store_incremental db name (s ∷ ss) last) has)),
      rw (e, sync_stars_incremental)
          (max_star_total-set_cursor stored name name current stamp
            ∙ store_star_history_incremental-max db name s ss last le),
    )

incremental_nonempty :
    (api : StarApi) (db : Db) (name : Text) (current last : ℕ) (at : Instant) (stars : List Star)
    → last < current
    → api.stargazers_recent name (current - last) at ≡ ok stars
    → (sync_stars_incremental api no_faults db name current last at).mode ≡ incremental
    → (s : Star) × (ss : List Star) × (stars ≡ s ∷ ss)
unfolding sync_stars_incremental
incremental_nonempty api db name current last at [] lt e h = absurd (ground arith)
incremental_nonempty api db name current last at (s ∷ ss) lt e h = (s, ss, refl)

-- After an incremental fetch a second run with the same metadata is skipped if the old maximum, or
-- the old count with the number of fetched events, reaches the star count; else it fetches all.
pub sync_repo_stars-after_incremental :
    (api : StarApi) (db : Db) (repo : Repo) (name : Text) (today : Date) (last : ℕ)
    (stars all : List Star)
    → HasRepo db name
    → (get_star_sync_cursor db name).last_seen_star_count ≡ some last
    → api.stargazers_recent name
        (repo.stargazers_count - last)
        (get_star_sync_cursor db name).last_starred_at
      ≡ ok stars
    → api.stargazers name ≡ ok all
    → (sync_repo_stars api no_faults db repo name today true).mode ≡ incremental
    → (sync_repo_stars api no_faults
        (sync_repo_stars api no_faults db repo name today true).db
        repo
        name
        today
        true).mode
      ≡ (if ltb (max (max_star_total db name) (last + length stars)) repo.stargazers_count
          then full_heal
          else skipped)
sync_repo_stars-after_incremental api db repo name today last stars all has c recent a h =
    let (last', c', lt, le, e) = incremental_facts api db repo name today h in
    let same : last' ≡ last = cc (sym c' ∙ c) in
    let at = (get_star_sync_cursor db name).last_starred_at in
    let count = repo.stargazers_count in
    let run : sync_repo_stars api no_faults db repo name today true
        ≡ sync_stars_incremental api no_faults db name count last at =
      rw same at e in
    let lt' : last < count = rw same at lt in
    let (s, ss, q) =
      incremental_nonempty api db name count last at stars lt' recent (rw run at h) in
    let (newest, cur, m) =
      incremental_state api db name count last at s ss has (recent ∙ ap ok q) (rw same at le) in
    let next = (sync_stars_incremental api no_faults db name count last at).db in
    rw (run, q)
      (elim (Bool-cases (ltb (max (max_star_total db name) (last + length (s ∷ ss))) count)) [
        | inl l ↦ rw l (lagging_mode api next repo name today newest all a cur _ m (ground arith))
        | inr g ↦ rw g (settled_mode api next repo name today newest cur _ m (ground arith))
      ])
