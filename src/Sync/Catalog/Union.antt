-- ===== src/Sync/Catalog/Union.antt =====
-- The tracked repositories are the filtered ones and the pins.
use gghstats.Base.{
  max, ◌≤◌, true, false, ◌||◌, List, [], ◌∷◌, ◌++◌, map, any, any-append, count, count-append,
  count-none, no_items, ◌≡◌, arith,
}
use gghstats.Base.Text.{Text, text_eq, text_eq_iff}
use gghstats.Base.Results.{ok}
use gghstats.Github.Types.{Repo, named_repo}
use gghstats.Store.{Db}
use gghstats.Sync.Catalog.{Options, ListRepos, resolve_repos, has_name, add_pins, resolve_tracked}

add_pins-any :
    (ps : List Text) (repos : List Repo) (n : Text)
    → any (has_name n) (add_pins repos ps) ≡ (any (has_name n) repos || any (λ p. text_eq p n) ps)
unfolding add_pins
add_pins-any [] repos n = ground arith
add_pins-any (p ∷ ps) repos n =
    let t = text_eq_iff p n in
    ground (
      arith,
      t,
      any-append (has_name n) repos (named_repo p ∷ []),
      add_pins-any ps repos n,
      add_pins-any ps (repos ++ named_repo p ∷ []) n,
    )

add_pins-count :
    (ps : List Text) (repos : List Repo) (n : Text)
    → count (has_name n) (add_pins repos ps) ≤ max 1 (count (has_name n) repos)
unfolding add_pins
add_pins-count [] repos n = ground arith
add_pins-count (p ∷ ps) repos n =
    let t = text_eq_iff p n in
    ground (
      arith,
      t,
      count-none (has_name n) repos,
      count-append (has_name n) repos (named_repo p ∷ []),
      add_pins-count ps repos n,
      add_pins-count ps (repos ++ named_repo p ∷ []) n,
    )

-- Without an explicit list, a name is tracked exactly when the filter selects it or it is pinned,
-- also where the filter excludes it; and it is tracked once, or as often as GitHub's list has it.
pub resolve_tracked-union :
    (list_repos : ListRepos) (db : Db) (opts : Options) (chosen tracked : List Repo) (n : Text)
    → no_items opts.repos ≡ true
    → resolve_repos list_repos opts ≡ ok chosen
    → resolve_tracked list_repos db opts ≡ ok tracked
    → (any (has_name n) tracked ≡ (any (has_name n) chosen || any (λ p. text_eq p n) db.pins))
      × (count (has_name n) tracked ≤ max 1 (count (has_name n) chosen))
unfolding resolve_tracked
resolve_tracked-union list_repos db opts chosen tracked n e h k =
    let pinned : tracked ≡ add_pins chosen db.pins = ground (arith, e, h, k) in
    rw pinned (add_pins-any db.pins chosen n, add_pins-count db.pins chosen n)

-- With an explicit list exactly its names are tracked, in their order, whatever is pinned and
-- whatever GitHub lists.
pub resolve_tracked-explicit :
    (list_repos : ListRepos) (db : Db) (opts : Options) (tracked : List Repo)
    → no_items opts.repos ≡ false
    → resolve_tracked list_repos db opts ≡ ok tracked
    → tracked ≡ map named_repo opts.repos
unfolding resolve_tracked resolve_repos
resolve_tracked-explicit list_repos db opts tracked e k = ground (arith, e, k)
