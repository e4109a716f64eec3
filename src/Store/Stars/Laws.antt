-- ===== src/Store/Stars/Laws.antt =====
-- How the statements on the star history and the cursor act on what is read from them.
use gghstats.Base.{
  ℕ, true, false, List, [], ◌∷◌, Option, none, some, max, ◌≡◌, ◌≢◌, refl, arith, Option-cases, inl,
  inr, ◌⊎◌,
}
use gghstats.Base.Text.{Text, text_eq, text_eq_iff, text_eq_refl}
use gghstats.Store.{Db, StarRow, RepoRow, Date, Instant}
use gghstats.Store.Table.{
  find_row, upsert, find_row-upsert_self, find_row-upsert_other, find_row-update_self,
}
use gghstats.Store.Stars.{
  is_star_of, upsert_star, star_total, max_total, raise_total, star_row, max_star_total,
  get_star_sync_cursor, set_star_sync_cursor,
}

-- The larger of two totals, where either may be missing.
abbrev pub opt_max : Option ℕ → Option ℕ → Option ℕ
opt_max none n = n
opt_max (some m) none = some m
opt_max (some m) (some n) = some (max m n)

is_star_of_self :
    (repo : Text) (date : Date) (total : ℕ) → is_star_of repo date (star_row repo date total) ≡ true
unfolding is_star_of
is_star_of_self repo date total = ground (arith, text_eq_refl repo)

raise_stays :
    (repo : Text) (date : Date) (total : ℕ) (r : StarRow)
    → is_star_of repo date r ≡ true
    → is_star_of repo date (raise_total total r) ≡ true
unfolding is_star_of
raise_stays repo date total r e = e

is_star_of_other :
    (repo repo' : Text) (date date' : Date) (r : StarRow)
    → (repo ≢ repo') ⊎ (date ≢ date')
    → is_star_of repo date r ≡ true
    → is_star_of repo' date' r ≡ false
unfolding is_star_of
is_star_of_other repo repo' date date' r h e =
    ground (arith, text_eq_iff r.repo repo, text_eq_iff r.repo repo')

pub star_total-upsert_self :
    (db : Db) (repo : Text) (date : Date) (total : ℕ)
    → star_total (upsert_star db repo date total) repo date
      ≡ opt_max (star_total db repo date) (some total)
unfolding star_total upsert_star
star_total-upsert_self db repo date total =
    let e =
      find_row-upsert_self (is_star_of repo date) (raise_total total) (star_row repo date total)
        (is_star_of_self repo date total) (raise_stays repo date total) db.stars in
    elim (Option-cases (find_row (is_star_of repo date) db.stars)) [
      | inl n ↦ ground arith
      | inr (r, n) ↦ ground arith
    ]

pub star_total-upsert_other :
    (db : Db) (repo repo' : Text) (date date' : Date) (total : ℕ)
    → (repo ≢ repo') ⊎ (date ≢ date')
    → star_total (upsert_star db repo date total) repo' date' ≡ star_total db repo' date'
unfolding star_total upsert_star
star_total-upsert_other db repo repo' date date' total h =
    let e =
      find_row-upsert_other (is_star_of repo' date') (is_star_of repo date) (raise_total total)
        (star_row repo date total)
        (is_star_of_other repo repo' date date' _ h (is_star_of_self repo date total))
        (λ r m. is_star_of_other repo repo' date date' r h m)
        (λ r m.
          is_star_of_other repo repo' date date' (raise_total total r) h
            (raise_stays repo date total r m))
        db.stars in
    ground arith

max_total-upsert :
    (repo : Text) (date : Date) (total : ℕ) (rows : List StarRow)
    → max_total repo
        (upsert (is_star_of repo date) (raise_total total) (star_row repo date total) rows)
      ≡ max (max_total repo rows) total
unfolding max_total upsert is_star_of
max_total-upsert repo date total [] = ground (arith, text_eq_refl repo)
max_total-upsert repo date total (r ∷ rs) = ground (arith, max_total-upsert repo date total rs)

pub max_star_total-upsert :
    (db : Db) (repo : Text) (date : Date) (total : ℕ)
    → max_star_total (upsert_star db repo date total) repo ≡ max (max_star_total db repo) total
unfolding max_star_total upsert_star
max_star_total-upsert db repo date total = max_total-upsert repo date total db.stars

-- `repos` has a row of this name.
abbrev pub HasRepo : Db → Text → Type 0
HasRepo db repo =
    (r : RepoRow) × (find_row (λ (x : RepoRow). text_eq x.name repo) db.repos ≡ some r)

pub get_cursor-set_cursor :
    (db : Db) (repo : Text) (count : ℕ) (at : Instant)
    → HasRepo db repo
    → get_star_sync_cursor (set_star_sync_cursor db repo count at) repo
      ≡ record { last_seen_star_count = some count; last_starred_at = at }
unfolding get_star_sync_cursor set_star_sync_cursor
get_cursor-set_cursor db repo count at (r, e) = ground (
  arith,
  find_row-update_self (λ (x : RepoRow). text_eq x.name repo)
      (λ (x : RepoRow). record x { last_seen_star_count = some count; last_starred_at = at })
      (λ (x : RepoRow). refl) db.repos,
)

-- Writing the cursor leaves the history alone, and writing the history leaves the cursor alone.
pub max_star_total-set_cursor :
    (db : Db) (repo name : Text) (count : ℕ) (at : Instant)
    → max_star_total (set_star_sync_cursor db repo count at) name ≡ max_star_total db name
unfolding max_star_total set_star_sync_cursor
max_star_total-set_cursor db repo name count at = refl

pub cursor-upsert_star :
    (db : Db) (repo name : Text) (date : Date) (total : ℕ)
    → get_star_sync_cursor (upsert_star db repo date total) name ≡ get_star_sync_cursor db name
unfolding get_star_sync_cursor upsert_star
cursor-upsert_star db repo name date total = refl

pub repos-upsert_star :
    (db : Db) (repo : Text) (date : Date) (total : ℕ)
    → (upsert_star db repo date total).repos ≡ db.repos
unfolding upsert_star
repos-upsert_star db repo date total = refl
