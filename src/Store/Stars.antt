-- ===== src/Store/Stars.antt =====
-- The star history and its sync cursor, internal/store/store.go.
pub mod Laws
use gghstats.Base.{
  ℕ, Bool, true, false, ◌&&◌, ◌==◌, List, [], ◌∷◌, Option, none, some, max, if◌then◌else◌,
}
use gghstats.Base.Text.{Text, text_eq}
use gghstats.Store.{Db, StarRow, RepoRow, Date, Instant}
use gghstats.Store.Table.{find_row, upsert, update_where}

unfoldable pub is_star_of : Text → Date → StarRow → Bool
is_star_of repo date r = text_eq r.repo repo && r.date == date

-- ON CONFLICT (repo, date) DO UPDATE SET total=MAX(stars.total, excluded.total).
-- The update and the row of the INSERT below.
abbrev pub raise_total : ℕ → StarRow → StarRow
raise_total total r = record r { total = max r.total total }

abbrev pub star_row : Text → Date → ℕ → StarRow
star_row repo date total = record { repo = repo; date = date; total = total }

unfoldable pub upsert_star : Db → Text → Date → ℕ → Db
upsert_star db repo date total = record db {
  stars = upsert (is_star_of repo date) (raise_total total) (star_row repo date total) db.stars;
}

-- The stored total of one day.
unfoldable pub star_total : Db → Text → Date → Option ℕ
star_total db repo date = elim (find_row (is_star_of repo date) db.stars) [
  | none ↦ none
  | some r ↦ some r.total
]

-- MAX(total) of a repository, 0 without rows.
unfoldable pub max_total : Text → List StarRow → ℕ
max_total repo [] = 0
max_total repo (r ∷ rs) =
    let rest = max_total repo rs in if text_eq r.repo repo then max r.total rest else rest

unfoldable pub max_star_total : Db → Text → ℕ
max_star_total db repo = max_total repo db.stars

-- `synced` is false while `last_seen_star_count` is -1, which is `none` here.
pub record StarSyncCursor : Type 0 where
  pub last_seen_star_count : Option ℕ
  pub last_starred_at : Instant

unfoldable pub get_star_sync_cursor : Db → Text → StarSyncCursor
get_star_sync_cursor db repo = elim (find_row (λ (r : RepoRow). text_eq r.name repo) db.repos) [
  | none ↦ record { last_seen_star_count = none; last_starred_at = 0 }
  | some r ↦ record {
    last_seen_star_count = r.last_seen_star_count;
    last_starred_at = r.last_starred_at;
  }
]

unfoldable pub set_star_sync_cursor : Db → Text → ℕ → Instant → Db
set_star_sync_cursor db repo count last_starred_at = record db {
  repos =
      update_where (λ (r : RepoRow). text_eq r.name repo)
        (λ r. record r { last_seen_star_count = some count; last_starred_at = last_starred_at })
        db.repos;
}
