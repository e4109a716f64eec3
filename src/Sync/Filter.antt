-- ===== src/Sync/Filter.antt =====
-- The filter expression that chooses the tracked repositories, internal/sync/sync.go.
pub mod Meaning
pub mod Exclusion
use gghstats.Base.{
  ℕ, Bool, true, false, not, ◌&&◌, ◌||◌, List, [], ◌∷◌, ◌++◌, if◌then◌else◌, any, keep, ◌≡◌, refl,
}
use gghstats.Base.Text.{
  Text, lit, text_eq, is_empty, has_prefix, has_suffix, drop_last, drop_front, trim_space, split,
}
use gghstats.Github.Types.{Repo, named_repo}

pub record Rules : Type 0 where
  pub includes : List Text
  pub excludes : List Text
  pub exclude_fork : Bool
  pub exclude_archived : Bool

abbrev pub no_rules : Rules
no_rules = record { includes = []; excludes = []; exclude_fork = false; exclude_archived = false }

-- One round of the loop of `parseFilterRules`, on the trimmed rule.
unfoldable pub add_rule : Rules → Text → Rules
add_rule r rule =
    if is_empty rule
    then r
    else if text_eq rule (lit "!fork")
    then record r { exclude_fork = true }
    else if text_eq rule (lit "!archived")
    then record r { exclude_archived = true }
    else if has_prefix rule (lit "!")
    then record r { excludes = r.excludes ++ drop_front 1 rule ∷ [] }
    else record r { includes = r.includes ++ rule ∷ [] }

unfoldable pub add_rules : Rules → List Text → Rules
add_rules r [] = r
add_rules r (raw ∷ rest) = add_rules (add_rule r (trim_space raw)) rest

unfoldable pub parse_filter_rules : Text → Rules
parse_filter_rules filter = add_rules no_rules (split b',' filter)

unfoldable pub has_non_wildcard_include : List Text → Bool
has_non_wildcard_include includes = any (λ inc. not (text_eq inc (lit "*"))) includes

-- The test of one pattern that `matchesAny` and `isExcluded` share.
unfoldable pub matches_owner : Text → Text → Bool
matches_owner name p =
    if has_suffix p (lit "/*") then has_prefix name (drop_last 2 p ++ lit "/") else text_eq p name

unfoldable pub matches_any : Text → List Text → Bool
unfolding matches_owner
matches_any name patterns = any (λ p. text_eq p (lit "*") || matches_owner name p) patterns

unfoldable pub is_excluded : Text → List Text → Bool
unfolding matches_owner
is_excluded name excludes = any (λ ex. matches_owner name ex) excludes

unfoldable pub should_include_repo : Rules → Bool → Repo → Bool
should_include_repo r has_direct_includes repo =
    if r.exclude_fork && repo.fork
    then false
    else if r.exclude_archived && repo.archived
    then false
    else if is_excluded repo.full_name r.excludes
    then false
    else not has_direct_includes || matches_any repo.full_name r.includes

unfoldable pub apply_filter : List Repo → Text → List Repo
apply_filter repos filter =
    let rules = parse_filter_rules filter in
    keep (should_include_repo rules (has_non_wildcard_include rules.includes)) repos
