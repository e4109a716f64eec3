-- ===== src/Alert/Rules/Ladder.antt =====
-- What normalisation makes of a rule.
use gghstats.Base.{
  ℕ, ◌≤◌, Bool, true, false, ◌||◌, ◌==◌, List, [], ◌∷◌, ◌++◌, any, any-append, count, count-append,
  count-none, ◌≡◌, ◌≢◌, refl, sym, ap, ◌∙◌, subst, arith, Bool-cases, inl, inr, ◌⊎◌,
}
use gghstats.Base.Text.{Text, lit, text_eq_iff, is_empty_iff}
use gghstats.Base.Results.{Result, ok, err}
use gghstats.Base.Sort.{sort_by, IsAscending, sort_by-IsAscending, any-sort_by, count-sort_by}
use gghstats.Alert.{RuleSpec, kind_traffic}
use gghstats.Alert.Rules.{clean_thresholds, normalize_milestone_rule}

abbrev pub is : ℕ → ℕ → Bool
is n t = t == n

clean_facts :
    (ts cleaned out : List ℕ) (n : ℕ)
    → clean_thresholds cleaned ts ≡ ok out
    → count (is n) cleaned ≤ 1
    → (any (is n) out ≡ (any (is n) cleaned || any (is n) ts)) × (count (is n) out ≤ 1)
unfolding clean_thresholds
clean_facts [] cleaned out n h c = ground arith
clean_facts (t ∷ ts) cleaned out n h c = elim (Bool-cases (t == n)) [
  | inl e ↦
      let same : t ≡ n = ground arith in
      elim (Bool-cases (any (is t) cleaned)) [
        | inl seen ↦
            let seen_n : any (is n) cleaned ≡ true = rw same at seen in
            ground (arith, clean_facts ts cleaned out n)
        | inr new ↦
            let new_n : any (is n) cleaned ≡ false = rw same at new in
            ground (
              arith,
              clean_facts ts (cleaned ++ t ∷ []) out n,
              any-append (is n) cleaned (t ∷ []),
              count-append (is n) cleaned (t ∷ []),
              count-none (is n) cleaned new_n,
            )
      ]
  | inr e ↦ elim (Bool-cases (any (is t) cleaned)) [
    | inl seen ↦ ground (arith, clean_facts ts cleaned out n)
    | inr new ↦ ground (
      arith,
      clean_facts ts (cleaned ++ t ∷ []) out n,
      any-append (is n) cleaned (t ∷ []),
      count-append (is n) cleaned (t ∷ []),
    )
  ]
]

clean_positive :
    (ts cleaned out : List ℕ)
    → clean_thresholds cleaned ts ≡ ok out
    → any (is 0) cleaned ≡ false
    → any (is 0) out ≡ false
unfolding clean_thresholds
clean_positive [] cleaned out h c = ground arith
clean_positive (t ∷ ts) cleaned out h c = ground (
  arith,
  clean_positive ts cleaned out,
  clean_positive ts (cleaned ++ t ∷ []) out,
  any-append (is 0) cleaned (t ∷ []),
)

abbrev pub Ladder : {F : Type 0} → RuleSpec F → RuleSpec F → Type 0
Ladder r r' =
    IsAscending (λ (n : ℕ). n) r'.milestones
    × ((n : ℕ)
        → (any (is n) r'.milestones ≡ any (is n) r.milestones) × (count (is n) r'.milestones ≤ 1))
    × (any (is 0) r'.milestones ≡ false)
    × (r'.milestones ≢ [])
    × (r'.kind ≡ kind_traffic)
    × (r'.metric ≡ lit "stars")
    × (r'.fire ≡ lit "once")
    × (r'.repo ≢ [])

sorted_facts :
    (t : ℕ) (ts us : List ℕ)
    → clean_thresholds [] us ≡ ok (t ∷ ts)
    → let ms = sort_by (λ (n : ℕ). n) (t ∷ ts) in
      IsAscending (λ (n : ℕ). n) ms
      × ((n : ℕ) → (any (is n) ms ≡ any (is n) us) × (count (is n) ms ≤ 1))
      × (any (is 0) ms ≡ false)
      × (ms ≢ [])
sorted_facts t ts us h =
    let f = λ (n : ℕ). clean_facts us [] (t ∷ ts) n h (ground arith) in
    let z = clean_positive us [] (t ∷ ts) h refl in
    (
      sort_by-IsAscending (λ (n : ℕ). n) (t ∷ ts),
      (λ n. (
        ground (arith, f n, any-sort_by (λ (m : ℕ). m) (is n) (t ∷ ts)),
        ground (arith, f n, count-sort_by (λ (m : ℕ). m) (is n) (t ∷ ts)),
      )),
      ground (arith, z, any-sort_by (λ (m : ℕ). m) (is 0) (t ∷ ts)),
      (λ e.
          let a : any (is t) (sort_by (λ (n : ℕ). n) (t ∷ ts)) ≡ false = ap (any (is t)) e in
          absurd (ground (arith, a, any-sort_by (λ (m : ℕ). m) (is t) (t ∷ ts)))),
    )

cleaned_cases :
    (x : Result (List ℕ))
    → ((e : Text) × (x ≡ err e)) ⊎ (x ≡ ok []) ⊎ ((t : ℕ) × (ts : List ℕ) × (x ≡ ok (t ∷ ts)))
cleaned_cases (err e) = inl (e, refl)
cleaned_cases (ok []) = inr (inl refl)
cleaned_cases (ok (t ∷ ts)) = inr (inr (t, ts, refl))

-- A ladder that is accepted has the rule's thresholds, each once and in ascending order, none of
-- which is 0; its rule is a traffic rule on stars of a repository, and fires once per rung.
pub normalize_milestone_rule-Ladder :
    {F : Type 0} (r r' : RuleSpec F) → normalize_milestone_rule r ≡ ok r' → Ladder r r'
unfolding normalize_milestone_rule
normalize_milestone_rule-Ladder r r' h = elim (cleaned_cases (clean_thresholds [] r.milestones)) [
  | inl (e, c) ↦ absurd (ground (arith, c, h))
  | inr (inl c) ↦ absurd (ground (arith, c, h))
  | inr (inr (t, ts, c)) ↦
      let (asc, each, zero, full) = sorted_facts t ts r.milestones c in
      let i = is_empty_iff r.repo in
      let k = text_eq_iff r.kind kind_traffic in
      let m = text_eq_iff r.metric (lit "stars") in
      let p = (λ (ms : List ℕ). IsAscending (λ (n : ℕ). n) ms) in
      let e : r'.milestones ≡ sort_by (λ (n : ℕ). n) (t ∷ ts) = ground (arith, c, h) in
      (
        subst p (sym e) asc,
        (λ n. rw e (each n)),
        rw e zero,
        (λ z. full (sym e ∙ z)),
        ground (arith, c, h),
        ground (arith, c, h, m),
        ground (arith, c, h),
        ground (arith, c, h, i),
      )
]
