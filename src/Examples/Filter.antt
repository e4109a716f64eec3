-- ===== src/Examples/Filter.antt =====
-- Filter expressions on three repositories.
use gghstats.Base.{true, List, [], ◌∷◌, ◌≡◌, refl, ◌↔◌, In, map}
use gghstats.Base.Text.{
  lit, text_eq, is_empty, has_prefix, has_suffix, drop_front, drop_last, trim_space, split,
}
use gghstats.Github.Types.{Repo, named_repo}
use gghstats.Sync.Filter.{
  add_rule, add_rules, parse_filter_rules, has_non_wildcard_include, matches_owner, matches_any,
  is_excluded, should_include_repo, apply_filter,
}
use gghstats.Sync.Filter.Meaning.{Selects, apply_filter-Selects}

abbrev tool : Repo
tool = named_repo (lit "hrodrig/tool")

abbrev forked : Repo
forked = record (named_repo (lit "hrodrig/forked")) { fork = true }

abbrev other : Repo
other = named_repo (lit "other/repo")

abbrev repos : List Repo
repos = tool ∷ forked ∷ other ∷ []

owner_without_forks :
    map (λ (r : Repo). r.full_name) (apply_filter repos (lit "hrodrig/*, !fork"))
    ≡ lit "hrodrig/tool" ∷ []
unfolding apply_filter parse_filter_rules add_rules add_rule has_non_wildcard_include matches_owner
    matches_any is_excluded should_include_repo text_eq is_empty has_prefix has_suffix drop_front
    drop_last trim_space split
owner_without_forks = refl

-- An exclusion alone keeps everything else, and `*` is no inclusion that narrows.
exclusion_only :
    map (λ (r : Repo). r.full_name) (apply_filter repos (lit "*,!hrodrig/*"))
    ≡ lit "other/repo" ∷ []
unfolding apply_filter parse_filter_rules add_rules add_rule has_non_wildcard_include matches_owner
    matches_any is_excluded should_include_repo text_eq is_empty has_prefix has_suffix drop_front
    drop_last trim_space split
exclusion_only = refl

apply_filter-Selects_example :
    In tool (apply_filter repos (lit "hrodrig/*"))
    ↔ (In tool repos × Selects (parse_filter_rules (lit "hrodrig/*")) tool)
apply_filter-Selects_example = apply_filter-Selects repos (lit "hrodrig/*") tool
