-- ===== src/Sync/Catalog.antt =====
-- The repositories that a sync tracks: `resolveRepos` of internal/sync/sync.go and `resolveTracked`
-- of internal/sync/catalog.go. What GitHub lists is a parameter.
pub mod Union
use gghstats.Base.{
  ℕ, Bool, true, false, not, ◌||◌, if◌then◌else◌, List, [], ◌∷◌, ◌++◌, map, any, no_items, Option,
  none, some,
}
use gghstats.Base.Text.{Text, lit, text_eq, is_empty}
use gghstats.Base.Results.{Result, ok, err, ◌>>=◌}
use gghstats.Github.Types.{Repo, named_repo}
use gghstats.Store.{Db}
use gghstats.Sync.Filter.{apply_filter}

-- The fields of `Options` that choose repositories.
pub record Options : Type 0 where
  pub filter : Text
  pub repos : List Text
  pub include_private : Bool

-- `ListRepos`, by whether private repositories are asked for.
abbrev pub ListRepos : Type 0
ListRepos = Bool → Result (List Repo)

unfoldable pub resolve_repos : ListRepos → Options → Result (List Repo)
resolve_repos list_repos opts =
    if not (no_items opts.repos)
    then ok (map named_repo opts.repos)
    else list_repos opts.include_private >>= λ all. ok (
        if is_empty opts.filter || text_eq opts.filter (lit "*")
        then all
        else apply_filter all opts.filter)

abbrev pub has_name : Text → Repo → Bool
has_name name r = text_eq r.full_name name

-- The loop over the pins: a name that is in the list, or was appended, is passed over.
unfoldable pub add_pins : List Repo → List Text → List Repo
add_pins repos [] = repos
add_pins repos (p ∷ ps) =
    let seen = add_pins repos ps in
    let added = add_pins (repos ++ named_repo p ∷ []) ps in
    if any (has_name p) repos then seen else added

unfoldable pub resolve_tracked : ListRepos → Db → Options → Result (List Repo)
resolve_tracked list_repos db opts = resolve_repos list_repos opts >>= λ repos.
    ok (if not (no_items opts.repos) then repos else add_pins repos db.pins)
