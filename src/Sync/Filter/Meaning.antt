-- ===== src/Sync/Filter/Meaning.antt =====
-- What a filter expression means, by a relation between patterns and names.
use gghstats.Base.{
  true, false, not, ◌||◌, List, ◌++◌, ◌≡◌, ◌≢◌, ◌↔◌, ◌⊎◌, inl, inr, Some, In, In-keep_sound,
  In-keep_complete, any_sound, any_complete, arith, Bool-cases,
}
use gghstats.Base.Text.{
  Text, lit, text_eq, text_eq_iff, has_prefix, has_prefix-append, has_prefix_sound, has_suffix,
  has_suffix-append, has_suffix_sound, drop_last, drop_last_two,
}
use gghstats.Github.Types.{Repo}
use gghstats.Sync.Filter.{
  Rules, parse_filter_rules, has_non_wildcard_include, matches_owner, matches_any, is_excluded,
  should_include_repo, apply_filter,
}

-- `owner/*` covers the names below `owner/`; any pattern that does not end so covers itself.
pub data Covers (p name : Text) : Type 0 where
  owner : (o rest : Text) → p ≡ o ++ lit "/*" → name ≡ (o ++ lit "/") ++ rest → Covers p name
  exact : ((o : Text) → p ≢ o ++ lit "/*") → p ≡ name → Covers p name

-- What a parsed expression selects: no exclusion applies, and if there is an inclusion other than
-- `*`, some inclusion covers the name.
pub record Selects (r : Rules) (repo : Repo) : Type 0 where
  pub fork_ok : r.exclude_fork ≡ true → repo.fork ≡ false
  pub archived_ok : r.exclude_archived ≡ true → repo.archived ≡ false
  pub not_excluded : ¬ Some (λ p. Covers p repo.full_name) r.excludes
  pub included :
      Some (λ p. p ≢ lit "*") r.includes
      → Some (λ p. (p ≡ lit "*") ⊎ Covers p repo.full_name) r.includes

drop_owner : (o p : Text) → p ≡ o ++ lit "/*" → drop_last 2 p ≡ o
drop_owner o p e = rw e (drop_last_two o b'/' b'*')

matches_owner_sound : (name p : Text) → matches_owner name p ≡ true → Covers p name
unfolding matches_owner
matches_owner_sound name p h = elim (Bool-cases (has_suffix p (lit "/*"))) [
  | inl e ↦
      let (o, q) = has_suffix_sound p (lit "/*") e in
      let under : has_prefix name (drop_last 2 p ++ lit "/") ≡ true = rw e at h in
      let (rest, r) = has_prefix_sound name (o ++ lit "/") (rw (drop_owner o p q) at under) in
      owner o rest q r
  | inr e ↦
      exact
        (λ o q.
          let t : has_suffix p (lit "/*") ≡ true = rw q (has_suffix-append o (lit "/*")) in cc)
        ((text_eq_iff p name).0 (rw e at h))
]

matches_owner_complete : (name p : Text) → Covers p name → matches_owner name p ≡ true
unfolding matches_owner
matches_owner_complete name p (owner o rest q r) =
    let t : has_suffix p (lit "/*") ≡ true = rw q (has_suffix-append o (lit "/*")) in
    rw (t, drop_owner o p q, r) (has_prefix-append rest (o ++ lit "/"))
matches_owner_complete name p (exact n q) = elim (Bool-cases (has_suffix p (lit "/*"))) [
  | inl e ↦ let (o, w) = has_suffix_sound p (lit "/*") e in absurd (n o w)
  | inr e ↦ rw e ((text_eq_iff p name).1 q)
]

is_excluded_iff :
    (name : Text) (ex : List Text) → (is_excluded name ex ≡ true) ↔ Some (λ p. Covers p name) ex
unfolding is_excluded
is_excluded_iff name ex =
    (any_sound _ _ (matches_owner_sound name) ex, any_complete _ _ (matches_owner_complete name) ex)

star_or_sound :
    (name p : Text)
    → (text_eq p (lit "*") || matches_owner name p) ≡ true
    → (p ≡ lit "*") ⊎ Covers p name
star_or_sound name p h = elim (Bool-cases (text_eq p (lit "*"))) [
  | inl e ↦ inl ((text_eq_iff p (lit "*")).0 e)
  | inr e ↦ inr (matches_owner_sound name p (rw e at h))
]

star_or_complete :
    (name p : Text)
    → (p ≡ lit "*") ⊎ Covers p name
    → (text_eq p (lit "*") || matches_owner name p) ≡ true
star_or_complete name p (inl e) = rw ((text_eq_iff p (lit "*")).1 e)
star_or_complete name p (inr c) =
    let t : matches_owner name p ≡ true = matches_owner_complete name p c in ground arith

matches_any_iff :
    (name : Text) (inc : List Text)
    → (matches_any name inc ≡ true) ↔ Some (λ p. (p ≡ lit "*") ⊎ Covers p name) inc
unfolding matches_any
matches_any_iff name inc =
    (any_sound _ _ (star_or_sound name) inc, any_complete _ _ (star_or_complete name) inc)

not_star_sound : (p : Text) → not (text_eq p (lit "*")) ≡ true → p ≢ lit "*"
not_star_sound p h e =
    let t : text_eq p (lit "*") ≡ true = (text_eq_iff p (lit "*")).1 e in ground arith

not_star_complete : (p : Text) → p ≢ lit "*" → not (text_eq p (lit "*")) ≡ true
not_star_complete p h = ground (arith, text_eq_iff p (lit "*"))

has_non_wildcard_include_iff :
    (inc : List Text) → (has_non_wildcard_include inc ≡ true) ↔ Some (λ p. p ≢ lit "*") inc
unfolding has_non_wildcard_include
has_non_wildcard_include_iff inc =
    (any_sound _ _ not_star_sound inc, any_complete _ _ not_star_complete inc)

should_include_sound :
    (r : Rules) (repo : Repo)
    → should_include_repo r (has_non_wildcard_include r.includes) repo ≡ true
    → Selects r repo
unfolding should_include_repo
should_include_sound r repo h = record {
  fork_ok = λ e. ground arith;
  archived_ok = λ e. ground arith;
  not_excluded = λ s. let t = (is_excluded_iff repo.full_name r.excludes).1 s in ground arith;
  included = λ s.
      let t = (has_non_wildcard_include_iff r.includes).1 s in
      (matches_any_iff repo.full_name r.includes).0 (ground arith);
}

should_include_complete :
    (r : Rules) (repo : Repo)
    → Selects r repo
    → should_include_repo r (has_non_wildcard_include r.includes) repo ≡ true
unfolding should_include_repo
should_include_complete r repo s = elim (Bool-cases (is_excluded repo.full_name r.excludes)) [
  | inl e ↦ absurd (s.not_excluded ((is_excluded_iff repo.full_name r.excludes).0 e))
  | inr e ↦ elim (Bool-cases (has_non_wildcard_include r.includes)) [
    | inl d ↦
        let m : matches_any repo.full_name r.includes ≡ true =
          (matches_any_iff repo.full_name r.includes).1
            (s.included ((has_non_wildcard_include_iff r.includes).0 d)) in
        ground (arith, s.fork_ok, s.archived_ok)
    | inr d ↦ ground (arith, s.fork_ok, s.archived_ok)
  ]
]

-- A repository is in the result of `applyFilter` exactly when it is in the input and the parsed
-- expression selects it, in the sense of `Selects`.
pub apply_filter-Selects :
    (repos : List Repo) (filter : Text) (repo : Repo)
    → In repo (apply_filter repos filter)
      ↔ (In repo repos × Selects (parse_filter_rules filter) repo)
unfolding apply_filter
apply_filter-Selects repos filter repo = (
  λ h.
      let r = In-keep_sound (should_include_repo _ _) repo repos h in
      (r.0, should_include_sound (parse_filter_rules filter) repo r.1),
  λ h.
      In-keep_complete (should_include_repo _ _) repo repos h.0
        (should_include_complete (parse_filter_rules filter) repo h.1),
)
