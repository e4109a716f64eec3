-- ===== src/Server/Index/Tiles.antt =====
-- The pages show every row once.
use gghstats.Base.{
  ℕ, zero, suc, ◌+◌, ◌-◌, ◌*◌, ◌≤◌, ltb, List, [], ◌∷◌, ◌++◌, length, ◌≡◌, refl, sym, ap, ◌∙◌,
  arith, Bool-cases, inl, inr,
}
use gghstats.Server.Index.{take_rows, drop_rows, page_slice}

-- The first pages, one after the other.
abbrev pub pages_up_to : {A : Type 0} → List A → ℕ → ℕ → List A
pages_up_to repos zero per_page = []
pages_up_to repos (suc k) per_page =
    pages_up_to repos k per_page ++ page_slice repos (suc k) per_page

take-nil : {A : Type 0} (n : ℕ) → take_rows {A = A} n [] ≡ []
unfolding take_rows
take-nil zero = refl
take-nil (suc n) = refl

take_more :
    {A : Type 0} (xs : List A) (m n : ℕ)
    → take_rows m xs ++ take_rows n (drop_rows m xs) ≡ take_rows (m + n) xs
unfolding take_rows drop_rows
take_more xs zero n = let same : n ≡ zero + n = omega arith in ap (λ k. take_rows k xs) same
take_more [] (suc m) n = take-nil n ∙ sym (take-nil (suc m + n))
take_more (x ∷ xs) (suc m) n =
    let shift : suc (m + n) ≡ suc m + n = omega arith in
    ap (λ ys. x ∷ ys) (take_more xs m n) ∙ ap (λ k. take_rows k (x ∷ xs)) shift

take_all : {A : Type 0} (xs : List A) (n : ℕ) → length xs ≤ n → take_rows n xs ≡ xs
unfolding take_rows
take_all [] zero h = refl
take_all [] (suc n) h = refl
take_all (x ∷ xs) zero h = absurd (omega arith)
take_all (x ∷ xs) (suc n) h = ap (λ ys. x ∷ ys) (take_all xs n (omega arith))

length-drop : {A : Type 0} (xs : List A) (n : ℕ) → length (drop_rows n xs) ≡ length xs - n
unfolding drop_rows
length-drop xs zero = omega arith
length-drop [] (suc n) = omega arith
length-drop (x ∷ xs) (suc n) = let ih = length-drop xs n in omega arith

drop_all : {A : Type 0} (xs : List A) (n : ℕ) → length xs ≤ n → drop_rows n xs ≡ []
unfolding drop_rows
drop_all [] zero h = refl
drop_all [] (suc n) h = refl
drop_all (x ∷ xs) zero h = absurd (omega arith)
drop_all (x ∷ xs) (suc n) h = drop_all xs n (omega arith)

page_slice-rows :
    {A : Type 0} (repos : List A) (k per_page : ℕ)
    → page_slice repos (suc k) per_page ≡ take_rows per_page (drop_rows (k * per_page) repos)
unfolding page_slice
page_slice-rows repos k per_page =
    let total = length repos in
    let first = k * per_page in
    let same : (suc k - 1) * per_page ≡ first = ap (λ i. i * per_page) (omega arith) in
    elim (Bool-cases (ltb total first)) [
      | inl e ↦
          rw (same, e, drop_all repos total (omega arith), drop_all repos first (ground (arith, e)))
            (take-nil _ ∙ sym (take-nil per_page))
      | inr e ↦ elim (Bool-cases (ltb total (first + per_page))) [
        | inl f ↦
            let rest = drop_rows first repos in
            let size = length-drop repos first in
            let short : length rest ≤ per_page = ground (arith, f, size) in
            rw (same, e, f)
              (take_all rest (total - first) (omega arith) ∙ sym (take_all rest per_page short))
        | inr f ↦
            let size : first + per_page - first ≡ per_page = omega arith in
            rw (same, e, f) (ap (λ n. take_rows n (drop_rows first repos)) size)
      ]
    ]

pages_up_to-rows :
    {A : Type 0} (repos : List A) (k per_page : ℕ)
    → pages_up_to repos k per_page ≡ take_rows (k * per_page) repos
unfolding take_rows
pages_up_to-rows repos zero per_page =
    let none_yet : 0 ≡ 0 * per_page = omega arith in ap (λ n. take_rows n repos) none_yet
pages_up_to-rows repos (suc k) per_page =
    let next : k * per_page + per_page ≡ suc k * per_page = omega arith in
    rw (pages_up_to-rows repos k per_page, page_slice-rows repos k per_page)
      (take_more repos (k * per_page) per_page ∙ ap (λ n. take_rows n repos) next)

-- Enough pages show every row once, in its order.
pub page_slice-tiles :
    {A : Type 0} (repos : List A) (k per_page : ℕ)
    → length repos ≤ k * per_page
    → pages_up_to repos k per_page ≡ repos
page_slice-tiles repos k per_page h =
    pages_up_to-rows repos k per_page ∙ take_all repos (k * per_page) h
