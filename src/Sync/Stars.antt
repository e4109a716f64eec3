-- ===== src/Sync/Stars.antt =====
-- The star history step of a sync, internal/sync/sync.go: which stargazers are fetched, and how
-- they become daily cumulative totals.
pub mod History
pub mod Cursor
use gghstats.Base.{
  ℕ, suc, ◌+◌, ◌-◌, Bool, true, false, ◌&&◌, ◌||◌, not, ◌==◌, ltb, if◌then◌else◌, List, [], ◌∷◌,
  Option, none, some,
}
use gghstats.Base.Text.{Text, lit}
use gghstats.Base.Results.{Result, ok, err}
use gghstats.Base.Sort.{sort_by}
use gghstats.Github.Types.{Star, Repo}
use gghstats.Store.{Db, Date, Instant, day_of}
use gghstats.Store.Stars.{
  upsert_star, max_star_total, StarSyncCursor, get_star_sync_cursor, set_star_sync_cursor,
}

abbrev pub starred : Star → Instant
starred s = s.starred_at

-- The loop of `storeStarHistory` over the sorted events.
unfoldable pub store_ascending : Text → Db → ℕ → List Star → Db
store_ascending repo db cumulative [] = db
store_ascending repo db cumulative (s ∷ ss) =
    store_ascending repo (upsert_star db repo (day_of s.starred_at) (cumulative + 1))
      (cumulative + 1) ss

unfoldable pub store_star_history : Db → Text → List Star → Db
store_star_history db repo [] = db
store_star_history db repo (s ∷ ss) = store_ascending repo db 0 (sort_by starred (s ∷ ss))

-- The loop of `storeStarHistoryIncremental`, from index `i` on.
unfoldable pub store_from_index : Text → Db → ℕ → ℕ → List Star → Db
store_from_index repo db base i [] = db
store_from_index repo db base i (s ∷ ss) =
    store_from_index repo (upsert_star db repo (day_of s.starred_at) (base + i + 1)) base (i + 1) ss

unfoldable pub store_star_history_incremental : Db → Text → List Star → ℕ → Db
store_star_history_incremental db repo [] base = db
store_star_history_incremental db repo (s ∷ ss) base =
    store_from_index repo db base 0 (sort_by starred (s ∷ ss))

unfoldable pub newest_from : Instant → List Star → Instant
newest_from newest [] = newest
newest_from newest (s ∷ ss) =
    newest_from (if ltb newest s.starred_at then s.starred_at else newest) ss

unfoldable pub newest_starred_at : List Star → Instant
newest_starred_at stars = newest_from 0 stars

-- The cursor claims more than the history holds.
unfoldable pub star_history_behind_kpi : StarSyncCursor → ℕ → ℕ → Bool
star_history_behind_kpi cursor history_max current = elim cursor.last_seen_star_count [
  | none ↦ false
  | some last ↦ ltb history_max current && (last == current || ltb history_max last)
]

-- The two calls of the GitHub client, with what they answer.
pub record StarApi : Type 0 where
  pub stargazers : Text → Result (List Star)
  pub stargazers_recent : Text → ℕ → Instant → Result (List Star)

-- The statements of the store that fail in this run.
pub record StarFaults : Type 0 where
  pub cursor_read : Bool
  pub max_read : Bool
  pub cursor_write : Bool

abbrev pub no_faults : StarFaults
no_faults = record { cursor_read = false; max_read = false; cursor_write = false }

-- What a run did, as its log line says.
pub data Mode : Type 0 where
  snapshot failed skipped full full_heal empty_increment incremental : Mode

-- `errors` are the kinds passed to `recordSyncErr`.
pub record StarRun : Type 0 where
  pub db : Db
  pub errors : List Text
  pub mode : Mode

abbrev pub failed_run : Db → StarRun
failed_run db = record { db = db; errors = lit "stargazers" ∷ []; mode = failed }

abbrev pub done_run : Db → Mode → StarRun
done_run db mode = record { db = db; errors = []; mode = mode }

unfoldable pub write_cursor : StarFaults → Db → Text → ℕ → Instant → Db
write_cursor faults db name count at =
    if faults.cursor_write then db else set_star_sync_cursor db name count at

unfoldable pub sync_stars_full : StarApi → StarFaults → Db → Text → ℕ → Bool → StarRun
sync_stars_full api faults db name current history_behind = elim (api.stargazers name) [
  | err e ↦ failed_run db
  | ok stars ↦
      done_run
        (write_cursor faults (store_star_history db name stars) name current
          (newest_starred_at stars))
        (if history_behind then full_heal else full)
]

-- `count` is `cursor.LastSeenStarCount`.
unfoldable pub sync_stars_incremental : StarApi → StarFaults → Db → Text → ℕ → ℕ → Instant → StarRun
sync_stars_incremental api faults db name current count last_starred_at =
    elim (api.stargazers_recent name (current - count) last_starred_at) [
      | err e ↦ failed_run db
      | ok [] ↦
          if ltb 0 (current - count)
          then done_run db empty_increment
          else done_run (write_cursor faults db name current last_starred_at) incremental
      | ok (s ∷ ss) ↦
          let newest = newest_starred_at (s ∷ ss) in
          done_run
            (write_cursor faults (store_star_history_incremental db name (s ∷ ss) count) name
              current (if newest == 0 then last_starred_at else newest))
            incremental
    ]

unfoldable pub sync_repo_stars : StarApi → StarFaults → Db → Repo → Text → Date → Bool → StarRun
sync_repo_stars api faults db repo name today sync_stars =
    if not sync_stars
    then done_run (upsert_star db name today repo.stargazers_count) snapshot
    else if faults.cursor_read || faults.max_read
    then failed_run db
    else let cursor = get_star_sync_cursor db name in
      let current = repo.stargazers_count in
      let behind = star_history_behind_kpi cursor (max_star_total db name) current in
      elim cursor.last_seen_star_count [
        | none ↦ sync_stars_full api faults db name current behind
        | some last ↦
            if current == last && not behind
            then done_run db skipped
            else if ltb current last || behind
            then sync_stars_full api faults db name current behind
            else sync_stars_incremental api faults db name current last cursor.last_starred_at
      ]
