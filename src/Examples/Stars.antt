-- ===== src/Examples/Stars.antt =====
-- Star histories of a few events.
use gghstats.Base.{ℕ, ◌*◌, ◌+◌, true, false, List, [], ◌∷◌, ◌++◌, none, some, inl, ◌≡◌, refl, arith}
use gghstats.Base.Text.{Text, lit, text_eq}
use gghstats.Base.Results.{ok}
use gghstats.Base.Sort.{sort_by}
use gghstats.Github.Types.{Star, Repo, named_repo}
use gghstats.Store.{Db, RepoRow, empty_db}
use gghstats.Store.Table.{find_row, upsert}
use gghstats.Store.Stars.{
  is_star_of, upsert_star, star_total, max_total, max_star_total, get_star_sync_cursor,
}
use gghstats.Store.Stars.Laws.{HasRepo, opt_max}
use gghstats.Sync.Stars.{
  store_ascending, store_star_history, store_star_history_incremental, newest_from,
  newest_starred_at, StarApi, no_faults, incremental, star_history_behind_kpi, sync_stars_full,
  sync_stars_incremental, sync_repo_stars,
}
use gghstats.Sync.Stars.History.{day_total, store_star_history-total, incremental-eq-full}
use gghstats.Sync.Stars.Cursor.{IsFull}

abbrev name : Text
name = lit "o/r"

abbrev on : ℕ → Star
on day = record { starred_at = day * 86400 + 60 }

abbrev newer : List Star
newer = on 12 ∷ on 11 ∷ []

abbrev older : List Star
older = on 11 ∷ on 9 ∷ []

abbrev row : RepoRow
row = record {
  name = name;
  description = [];
  stars = 2;
  forks = 0;
  watchers = 0;
  issues = 0;
  prs = 0;
  fork = false;
  archived = false;
  hidden = false;
  parent_full_name = [];
  last_seen_star_count = none;
  last_starred_at = 0;
  github_visibility = lit "public";
  report_policy = lit "inherit";
}

abbrev db : Db
db = record empty_db { repos = row ∷ [] }

abbrev api : StarApi
api = record { stargazers = λ n. ok older; stargazers_recent = λ n d at. ok newer }

abbrev repo : ℕ → Repo
repo n = record (named_repo name) { stargazers_count = n }

daily_totals : star_total (store_star_history db name (newer ++ older)) name 11 ≡ some 3
unfolding star_total store_star_history store_ascending upsert_star is_star_of find_row upsert
    sort_by text_eq
daily_totals = refl

store_star_history-total_example :
    star_total (store_star_history db name (newer ++ older)) name 11
    ≡ opt_max (star_total db name 11) (day_total 0 11 (newer ++ older))
store_star_history-total_example = store_star_history-total db name (newer ++ older) 11

incremental-eq-full_example :
    star_total
      (store_star_history_incremental (store_star_history db name older) name newer 2)
      name
      11
    ≡ star_total (store_star_history db name (newer ++ older)) name 11
incremental-eq-full_example = incremental-eq-full db name newer older 11 (omega arith)

db-HasRepo : HasRepo db name
unfolding find_row text_eq
db-HasRepo = (row, refl)

first_run-IsFull : IsFull (sync_repo_stars api no_faults db (repo 2) name 20 true).mode
unfolding sync_repo_stars sync_stars_full get_star_sync_cursor find_row text_eq
    star_history_behind_kpi
first_run-IsFull = inl refl

-- The state after the first run, with the old events stored.
abbrev synced : Db
synced = record db {
  repos = record row { last_seen_star_count = some 2; last_starred_at = 950460 } ∷ [];
  stars = record { repo = name; date = 11; total = 2 } ∷ [];
}

synced-HasRepo : HasRepo synced name
unfolding find_row text_eq
synced-HasRepo = (record row { last_seen_star_count = some 2; last_starred_at = 950460 }, refl)

synced-cursor : (get_star_sync_cursor synced name).last_seen_star_count ≡ some 2
unfolding get_star_sync_cursor find_row text_eq
synced-cursor = refl

second_run_is_incremental :
    (sync_repo_stars api no_faults synced (repo 4) name 20 true).mode ≡ incremental
unfolding sync_repo_stars sync_stars_incremental get_star_sync_cursor find_row text_eq
    star_history_behind_kpi max_star_total max_total newest_starred_at newest_from
second_run_is_incremental = refl
