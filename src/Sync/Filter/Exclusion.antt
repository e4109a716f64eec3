-- ===== src/Sync/Filter/Exclusion.antt =====
-- Rules appended to a filter expression: an exclusion only narrows the selection.
use gghstats.Base.{
  Bool, true, not, ◌&&◌, List, [], ◌∷◌, ◌++◌, any-append, keep, ◌≡◌, ◌≢◌, refl, ap, ◌∙◌, All, arith,
}
use gghstats.Base.Text.{
  Text, lit, text_eq, text_eq_iff, trim_space, split, is_empty, has_prefix, drop_front,
}
use gghstats.Base.Text.Split.{split-append, split_one}
use gghstats.Github.Types.{Repo}
use gghstats.Sync.Filter.{
  Rules, no_rules, add_rule, add_rules, parse_filter_rules, matches_owner, is_excluded,
  should_include_repo, apply_filter,
}

add_rules-append :
    (r : Rules) (xs ys : List Text) → add_rules r (xs ++ ys) ≡ add_rules (add_rules r xs) ys
unfolding add_rules
add_rules-append r [] ys = refl
add_rules-append r (x ∷ xs) ys = add_rules-append (add_rule r (trim_space x)) xs ys

-- A part appended behind a comma is one more rule.
parse-append :
    (f raw : Text)
    → All (λ c. c ≢ b',') raw
    → parse_filter_rules (f ++ b',' ∷ raw) ≡ add_rule (parse_filter_rules f) (trim_space raw)
unfolding parse_filter_rules add_rules
parse-append f raw h =
    ap (add_rules no_rules)
      (split-append b',' f raw ∙ ap (λ z. split b',' f ++ z) (split_one b',' raw h))
    ∙ add_rules-append no_rules (split b',' f) (raw ∷ [])

-- One test after another is their conjunction.
keep-keep :
    (p q : Repo → Bool) (r : Repo → Bool) (h : (x : Repo) → r x ≡ (p x && q x)) (xs : List Repo)
    → keep r xs ≡ keep q (keep p xs)
keep-keep p q r h [] = refl
keep-keep p q r h (x ∷ xs) = ground (arith, h x, keep-keep p q r h xs)

no_fork_rule :
    (r : Rules) → add_rule r (trim_space (lit "!fork")) ≡ record r { exclude_fork = true }
unfolding add_rule trim_space is_empty text_eq
no_fork_rule r = refl

-- `!pattern`, for a pattern that is neither `fork` nor `archived`.
exclude_rule :
    (r : Rules) (p : Text)
    → p ≢ lit "fork"
    → p ≢ lit "archived"
    → add_rule r (lit "!" ++ p) ≡ record r { excludes = r.excludes ++ p ∷ [] }
unfolding add_rule is_empty text_eq has_prefix drop_front
exclude_rule r p f a = ground (arith, text_eq_iff p (lit "fork"), text_eq_iff p (lit "archived"))

no_fork-pointwise :
    (r : Rules) (d : Bool) (x : Repo)
    → should_include_repo (record r { exclude_fork = true }) d x
      ≡ (should_include_repo r d x && not x.fork)
unfolding should_include_repo
no_fork-pointwise r d x = ground arith

exclude-pointwise :
    (r : Rules) (d : Bool) (p : Text) (x : Repo)
    → should_include_repo (record r { excludes = r.excludes ++ p ∷ [] }) d x
      ≡ (should_include_repo r d x && not (matches_owner x.full_name p))
unfolding should_include_repo is_excluded
exclude-pointwise r d p x =
    ground (arith, any-append (λ (ex : Text). matches_owner x.full_name ex) r.excludes (p ∷ []))

-- `!fork` appended to an expression takes the forks out of the selection, and nothing else.
pub apply_filter-no_fork :
    (repos : List Repo) (f : Text)
    → apply_filter repos (f ++ lit ",!fork") ≡ keep (λ r. not r.fork) (apply_filter repos f)
unfolding apply_filter
apply_filter-no_fork repos f =
    rw (parse-append f (lit "!fork") (omega arith), no_fork_rule)
      (keep-keep _ _ _ (no_fork-pointwise (parse_filter_rules f) _) repos)

-- A rule `!pattern` appended to an expression takes out of the selection the repositories that
-- the pattern matches, and nothing else: for a text `raw` without a comma that trims to `!pattern`,
-- where the pattern is not one of the words `fork` and `archived`.
pub apply_filter-exclude :
    (repos : List Repo) (f raw p : Text)
    → All (λ c. c ≢ b',') raw
    → trim_space raw ≡ lit "!" ++ p
    → p ≢ lit "fork"
    → p ≢ lit "archived"
    → apply_filter repos (f ++ (lit "," ++ raw))
      ≡ keep (λ r. not (matches_owner r.full_name p)) (apply_filter repos f)
unfolding apply_filter
apply_filter-exclude repos f raw p h t nf na =
    rw (parse-append f raw h, t, exclude_rule (parse_filter_rules f) p nf na)
      (keep-keep _ _ _ (exclude-pointwise (parse_filter_rules f) _ p) repos)
