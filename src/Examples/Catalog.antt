-- ===== src/Examples/Catalog.antt =====
-- A pin on a repository that the filter leaves out.
use gghstats.Base.{max, ◌≤◌, true, false, ◌||◌, List, [], ◌∷◌, any, count, no_items, ◌≡◌, refl}
use gghstats.Base.Text.{lit, text_eq, is_empty}
use gghstats.Base.Results.{ok}
use gghstats.Github.Types.{Repo, named_repo}
use gghstats.Store.{Db, empty_db}
use gghstats.Sync.Catalog.{Options, ListRepos, resolve_repos, has_name, add_pins, resolve_tracked}
use gghstats.Sync.Catalog.Union.{resolve_tracked-union}

abbrev listed : ListRepos
listed private = ok (named_repo (lit "o/a") ∷ [])

abbrev options : Options
options = record { filter = lit "*"; repos = []; include_private = false }

abbrev db : Db
db = record empty_db { pins = lit "o/b" ∷ lit "o/a" ∷ [] }

abbrev both : List Repo
both = named_repo (lit "o/a") ∷ named_repo (lit "o/b") ∷ []

chosen : resolve_repos listed options ≡ ok (named_repo (lit "o/a") ∷ [])
unfolding resolve_repos no_items is_empty text_eq
chosen = refl

tracked : resolve_tracked listed db options ≡ ok both
unfolding resolve_tracked resolve_repos no_items is_empty text_eq add_pins
tracked = refl

none_explicit : no_items options.repos ≡ true
unfolding no_items
none_explicit = refl

resolve_tracked-union_example :
    (any (has_name (lit "o/b")) both ≡ (
      any (has_name (lit "o/b")) (named_repo (lit "o/a") ∷ [])
      || any (λ p. text_eq p (lit "o/b")) db.pins))
    × (count (has_name (lit "o/b")) both
        ≤ max 1 (count (has_name (lit "o/b")) (named_repo (lit "o/a") ∷ [])))
resolve_tracked-union_example =
    resolve_tracked-union listed db options (named_repo (lit "o/a") ∷ []) both (lit "o/b")
      none_explicit chosen tracked
