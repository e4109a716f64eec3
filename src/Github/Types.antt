-- ===== src/Github/Types.antt =====
-- internal/github/types.go. A pointer that may be nil is an `Option`; identifiers and counts are
-- never negative in the API, and are numbers here; an instant is a number of seconds.
use gghstats.Base.{ℕ, Bool, Option, none, some, []}
use gghstats.Base.Text.{Text}

pub record RepoParent : Type 0 where
  pub full_name : Text

pub record Repo : Type 0 where
  pub id : ℕ
  pub full_name : Text
  pub description : Option Text
  pub stargazers_count : ℕ
  pub forks_count : ℕ
  pub watchers_count : ℕ
  pub open_issues_count : ℕ
  pub fork : Bool
  pub archived : Bool
  pub private : Bool
  pub visibility : Text
  pub parent : Option RepoParent

-- `github.Repo{FullName: name}`.
abbrev pub named_repo : Text → Repo
named_repo name = record {
  id = 0;
  full_name = name;
  description = none;
  stargazers_count = 0;
  forks_count = 0;
  watchers_count = 0;
  open_issues_count = 0;
  fork = Bool.false;
  archived = Bool.false;
  private = Bool.false;
  visibility = [];
  parent = none;
}

unfoldable pub description_or_empty : Repo → Text
description_or_empty r = elim r.description [ none ↦ [] | some d ↦ d ]

unfoldable pub parent_full_name : Repo → Text
parent_full_name r = elim r.parent [ none ↦ [] | some p ↦ p.full_name ]

pub record DailyStat : Type 0 where
  pub timestamp : ℕ
  pub count : ℕ
  pub uniques : ℕ

pub record Star : Type 0 where
  pub starred_at : ℕ
