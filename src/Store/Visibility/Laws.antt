-- ===== src/Store/Visibility/Laws.antt =====
-- What a sync and an operator's decision do to the visibility of a repository.
use gghstats.Base.{
  Bool, true, false, not, ◌&&◌, List, [], ◌∷◌, none, some, ◌≡◌, ◌≢◌, refl, arith, Option-cases,
  Bool-cases, inl, inr, In, sym, ◌∙◌, In-keep_sound,
}
use gghstats.Base.Text.{Text, text_eq, text_eq_iff, text_eq_refl, is_empty_iff}
use gghstats.Base.Results.{ok}
use gghstats.Store.{Db, RepoRow, Date}
use gghstats.Store.Table.{find_row, upsert, find_row-upsert_other, find_row-update, find_row-passes}
use gghstats.Store.Repos.{RepoSummary, list_repos}
use gghstats.Store.Visibility.{
  ReportVisibility, visibility_public, visibility_private, report_inherit, report_include,
  report_exclude, normalize_github_visibility, of_name, with_policy, set_repo_report_policy,
  RepoInput, stored_visibility, inserted_row, updated_row, upsert_repo_with_visibility, visible_by,
  report_visible, list_report_repos,
}

-- The operator's policy on a repository, `inherit` where it has no row.
abbrev pub policy_of : Db → Text → Text
policy_of db name = elim (find_row (of_name name) db.repos) [
  | none ↦ report_inherit
  | some r ↦ r.report_policy
]

shown : Text → RepoRow → Bool
shown name r = text_eq r.name name && not r.hidden

-- An upsert by key leaves a row that is not hidden.
shown-upsert :
    (i : RepoInput) (rows : List RepoRow)
    → find_row
        (λ (r : RepoRow). text_eq r.name i.name && not r.hidden)
        (upsert (of_name i.name) (updated_row i) (inserted_row i) rows)
      ≡ some (elim (find_row (of_name i.name) rows) [
        | none ↦ inserted_row i
        | some r ↦ updated_row i r
      ])
unfolding find_row upsert updated_row inserted_row
shown-upsert i [] = ground (arith, text_eq_refl i.name)
shown-upsert i (r ∷ rs) = ground (arith, shown-upsert i rs)

-- After a sync has stored a repository, it is shown by the operator's policy on it, which the sync
-- does not change, and by the visibility just stored; that it was hidden is forgotten.
pub report_visible-upsert :
    (db : Db) (i : RepoInput) (scope : ReportVisibility)
    → report_visible (upsert_repo_with_visibility db i) i.name scope
      ≡ visible_by scope (stored_visibility i.visibility) (policy_of db i.name)
unfolding report_visible upsert_repo_with_visibility inserted_row updated_row
report_visible-upsert db i scope = ground (arith, shown-upsert i db.repos)

elsewhere : (a b c : Text) (x : Bool) → a ≢ b → text_eq c a ≡ true → (text_eq c b && x) ≡ false
elsewhere a b c x h e = ground (arith, text_eq_iff c a, text_eq_iff c b)

-- It changes the visibility of no other repository.
pub report_visible-upsert_other :
    (db : Db) (i : RepoInput) (name : Text) (scope : ReportVisibility)
    → i.name ≢ name
    → report_visible (upsert_repo_with_visibility db i) name scope ≡ report_visible db name scope
unfolding report_visible upsert_repo_with_visibility inserted_row updated_row
report_visible-upsert_other db i name scope h =
    let e =
      find_row-upsert_other (λ (r : RepoRow). text_eq r.name name && not r.hidden) (of_name i.name)
        (updated_row i) (inserted_row i) (elsewhere i.name name i.name _ h (text_eq_refl i.name))
        (λ r e. elsewhere i.name name r.name _ h e) (λ r e. elsewhere i.name name r.name _ h e)
        db.repos in
    rw (report_visible, e)

-- Why a repository may be shown.
pub data Allowed (scope : ReportVisibility) (r : RepoRow) : Type 0 where
  by_operator : r.report_policy ≡ report_include → Allowed scope r
  as_public :
      r.report_policy ≢ report_exclude → r.github_visibility ≡ visibility_public → Allowed scope r
  as_private :
      r.report_policy ≢ report_exclude
      → r.github_visibility ≡ visibility_private
      → scope.include_private ≡ true
      → Allowed scope r

visible_by-Allowed :
    (scope : ReportVisibility) (r : RepoRow)
    → visible_by scope r.github_visibility r.report_policy ≡ true
    → Allowed scope r
unfolding visible_by
visible_by-Allowed scope r h = elim (Bool-cases (text_eq r.report_policy report_include)) [
  | inl e ↦ by_operator ((text_eq_iff r.report_policy report_include).0 e)
  | inr e ↦
      let n : r.report_policy ≢ report_exclude = λ q.
        let t : text_eq r.report_policy report_exclude ≡ true =
          (text_eq_iff r.report_policy report_exclude).1 q in
        ground arith in
      elim (Bool-cases (text_eq r.github_visibility visibility_public)) [
        | inl v ↦ as_public n ((text_eq_iff r.github_visibility visibility_public).0 v)
        | inr v ↦
            as_private n ((text_eq_iff r.github_visibility visibility_private).0 (ground arith))
              (ground arith)
      ]
]

report_visible-Allowed :
    (db : Db) (name : Text) (scope : ReportVisibility)
    → report_visible db name scope ≡ true
    → (r : RepoRow) × (find_row (λ (x : RepoRow). text_eq x.name name && not x.hidden) db.repos
        ≡ some r)
      × Allowed scope r
unfolding report_visible
report_visible-Allowed db name scope h =
    elim (Option-cases (find_row (λ (x : RepoRow). text_eq x.name name && not x.hidden) db.repos)) [
      | inl e ↦ absurd (ground arith)
      | inr (r, e) ↦ (r, e, visible_by-Allowed scope r (ground arith))
    ]

-- Every repository in a report has a row that is not hidden and that may be shown: the operator
-- includes it, or does not exclude it and GitHub says that it is public, or that it is private where
-- the report includes private ones. A repository of unknown visibility needs the operator.
pub list_report_repos-Allowed :
    (db : Db) (today : Date) (scope : ReportVisibility) (s : RepoSummary)
    → In s (list_report_repos db today scope)
    → (r : RepoRow) × (find_row (λ (x : RepoRow). text_eq x.name s.name && not x.hidden) db.repos
        ≡ some r)
      × Allowed scope r
unfolding list_report_repos
list_report_repos-Allowed db today scope s h =
    report_visible-Allowed db s.name scope
      (In-keep_sound (λ (x : RepoSummary). report_visible db x.name scope) s (list_repos db today)
        h).1

-- The class public is stored for public alone.
stored-public :
    (v : Text) → text_eq (stored_visibility v) visibility_public ≡ text_eq v visibility_public
unfolding stored_visibility text_eq
stored-public v = elim (Bool-cases (text_eq v visibility_public)) [
  | inl e ↦ rw (e, stored_visibility) e
  | inr e ↦ elim (Bool-cases (text_eq v visibility_private)) [
    | inl q ↦ rw (e, q, stored_visibility) e
    | inr q ↦ rw (e, q, stored_visibility)
  ]
]

normalize-ne-public :
    (visibility : Text) (private : Bool)
    → visibility ≢ visibility_public
    → (visibility ≡ [] → private ≡ true)
    → normalize_github_visibility visibility private ≢ visibility_public
unfolding normalize_github_visibility
normalize-ne-public visibility private n p h =
    ground (arith, is_empty_iff visibility, text_eq_iff visibility visibility_private)

visible_by-false :
    (v policy : Text)
    → text_eq v visibility_public ≡ false
    → policy ≢ report_include
    → visible_by (record { include_private = false }) v policy ≡ false
unfolding visible_by
visible_by-false v policy e h = ground (arith, text_eq_iff policy report_include)

-- A repository that GitHub does not call public (private, or another class such as `internal`), or
-- for which an old API says only that it is private, is not shown after it is stored in a report
-- without private repositories, unless the operator includes it.
pub normalize-hides :
    (db : Db) (i : RepoInput) (visibility : Text) (private : Bool)
    → i.visibility ≡ normalize_github_visibility visibility private
    → visibility ≢ visibility_public
    → (visibility ≡ [] → private ≡ true)
    → policy_of db i.name ≢ report_include
    → report_visible (upsert_repo_with_visibility db i) i.name (record { include_private = false })
      ≡ false
normalize-hides db i visibility private e n p h =
    let v : i.visibility ≢ visibility_public =
      λ q. normalize-ne-public visibility private n p (sym e ∙ q) in
    let t : text_eq i.visibility visibility_public ≡ false =
      ground (arith, text_eq_iff i.visibility visibility_public) in
    report_visible-upsert db i (record { include_private = false })
    ∙ visible_by-false (stored_visibility i.visibility) (policy_of db i.name)
        (stored-public i.visibility ∙ t) h

-- Setting a valid policy decides the visibility of a repository that is not hidden.
pub report_visible-set_policy :
    (db : Db) (name policy : Text) (found : Bool) (db' : Db) (scope : ReportVisibility)
    → set_repo_report_policy db name policy ≡ ok (found, db')
    → report_visible db' name scope
      ≡ elim (find_row (λ (x : RepoRow). text_eq x.name name && not x.hidden) db.repos) [
        | none ↦ false
        | some r ↦ visible_by scope r.github_visibility policy
      ]
unfolding set_repo_report_policy report_visible
report_visible-set_policy db name policy found db' scope h =
    let test = λ (x : RepoRow). text_eq x.name name && not x.hidden in
    let e = find_row-update test (of_name name) (with_policy policy) (λ r. refl) db.repos in
    elim (Option-cases (find_row test db.repos)) [
      | inl n ↦ ground arith
      | inr (r, f) ↦ ground (arith, find_row-passes test db.repos r f)
    ]
