-- ===== src/Github/Pages/Recent.antt =====
-- What the client returns of a list over several pages.
use gghstats.Base.{
  ℕ, zero, suc, ◌+◌, ◌-◌, ◌<◌, ◌≤◌, ◌&&◌, Bool, true, not, none, some, keep, All, ltb, leb,
  if◌then◌else◌, List, [], ◌∷◌, ◌++◌, length, Option, ◌≡◌, refl, sym, ap, ◌∙◌, arith, Bool-cases,
  inl, inr,
}
use gghstats.Base.Text.{Text, lit}
use gghstats.Base.Results.{Result, ok}
use gghstats.Store.{Instant}
use gghstats.Github.Types.{Star}
use gghstats.Github.Pages.{
  Page, next_page_path, get_paginated, is_known, take_page, recent_from, stargazers_recent,
}

-- The pages of a list, from a path on: each one is fetched, and the last one has no next page.
pub data Pages {A : Type 0} (fetch : Text → Result (Page A)) : Text → List (List A) → Type 0 where
  last : Pages fetch [] []
  page :
      {c : ℕ}
      → {s : Text} → {p : Page A} → {rest : List (List A)} → fetch (c ∷ s) ≡ ok p
      → Pages fetch (next_page_path p.link) rest
      → Pages fetch (c ∷ s) (p.items ∷ rest)

abbrev pub concat : {A : Type 0} → List (List A) → List A
concat [] = []
concat (xs ∷ xss) = xs ++ concat xss

-- With fuel for every page, all pages are returned, in their order.
pub get_paginated-Pages :
    {A : Type 0} (fetch : Text → Result (Page A)) (fuel : ℕ) (path : Text) (pages : List (List A))
    → Pages fetch path pages
    → length pages < fuel
    → get_paginated fetch fuel path ≡ ok (concat pages)
unfolding get_paginated
get_paginated-Pages fetch zero path pages ps h = absurd (omega arith)
get_paginated-Pages fetch (suc fuel) path pages last h = refl
get_paginated-Pages fetch (suc fuel) path pages (page {p = p} {rest = rest} e ps) h =
    rw (e, get_paginated-Pages fetch fuel (next_page_path p.link) rest ps (omega arith)) refl

-- The new stars: those before the first that is known, up to the limit, where 0 is none.
abbrev pub new_before : Option Instant → List Star → List Star
new_before stop_at [] = []
new_before stop_at (s ∷ ss) =
    let rest = new_before stop_at ss in if is_known stop_at s then [] else s ∷ rest

abbrev pub up_to : ℕ → List Star → List Star
up_to zero ss = []
up_to (suc n) [] = []
up_to (suc n) (s ∷ ss) = s ∷ up_to n ss

abbrev pub limited : ℕ → List Star → List Star
limited zero ss = ss
limited (suc n) ss = up_to (suc n) ss

take_page-append :
    (max_new : ℕ) (stop_at : Option Instant) (n : ℕ) (xs ys : List Star)
    → (take_page max_new stop_at n (xs ++ ys)).0 ≡ (
        if (take_page max_new stop_at n xs).1
        then (take_page max_new stop_at n xs).0
        else (take_page max_new stop_at n xs).0
          ++ (take_page max_new stop_at (n + length (take_page max_new stop_at n xs).0) ys).0)
unfolding take_page
take_page-append max_new stop_at n [] ys =
    ap (λ i. (take_page max_new stop_at i ys).0) (omega arith)
take_page-append max_new stop_at n (x ∷ xs) ys = elim (Bool-cases (is_known stop_at x)) [
  | inl k ↦ rw k refl
  | inr k ↦ elim (Bool-cases (ltb 0 max_new && leb max_new (suc n))) [
    | inl b ↦ rw (k, b) refl
    | inr b ↦
        let ih = take_page-append max_new stop_at (suc n) xs ys in
        let here = (take_page max_new stop_at (suc n) xs).0 in
        elim (Bool-cases (take_page max_new stop_at (suc n) xs).1) [
          | inl t ↦ rw (k, b, t) (ap (λ r. x ∷ r) (ih ∙ rw t refl))
          | inr t ↦
              let shift : suc n + length here ≡ n + suc (length here) = omega arith in
              rw (k, b, t)
                (ap (λ r. x ∷ r)
                  (ih ∙ rw t (ap (λ i. here ++ (take_page max_new stop_at i ys).0) shift)))
        ]
  ]
]

up_to-nil : (n : ℕ) → up_to n [] ≡ []
up_to-nil zero = refl
up_to-nil (suc n) = refl

take_page-limited :
    (max_new : ℕ) (stop_at : Option Instant) (n : ℕ) (xs : List Star)
    → n < max_new
    → (take_page max_new stop_at n xs).0 ≡ up_to (max_new - n) (new_before stop_at xs)
unfolding take_page
take_page-limited max_new stop_at n [] h = sym (up_to-nil (max_new - n))
take_page-limited max_new stop_at n (x ∷ xs) h = elim (Bool-cases (is_known stop_at x)) [
  | inl k ↦ rw k (sym (up_to-nil (max_new - n)))
  | inr k ↦ elim (Bool-cases (ltb 0 max_new && leb max_new (suc n))) [
    | inl b ↦ let one : max_new - n ≡ 1 = ground (arith, b, h) in rw (k, b, one) refl
    | inr b ↦
        let more : max_new - n ≡ suc (max_new - suc n) = ground (arith, b, h) in
        let room : suc n < max_new = ground (arith, b, h) in
        rw (k, b, more) (ap (λ r. x ∷ r) (take_page-limited max_new stop_at (suc n) xs room))
  ]
]

take_page-unlimited :
    (stop_at : Option Instant) (n : ℕ) (xs : List Star)
    → (take_page 0 stop_at n xs).0 ≡ new_before stop_at xs
unfolding take_page
take_page-unlimited stop_at n [] = refl
take_page-unlimited stop_at n (x ∷ xs) = ground (arith, take_page-unlimited stop_at (suc n) xs)

take_page-new_before :
    (max_new : ℕ) (stop_at : Option Instant) (xs : List Star)
    → (take_page max_new stop_at 0 xs).0 ≡ limited max_new (new_before stop_at xs)
take_page-new_before zero stop_at xs = take_page-unlimited stop_at 0 xs
take_page-new_before (suc m) stop_at xs =
    let same : suc m - 0 ≡ suc m = omega arith in
    take_page-limited (suc m) stop_at 0 xs (omega arith)
    ∙ ap (λ k. up_to k (new_before stop_at xs)) same

take_page-nil :
    (max_new : ℕ) (stop_at : Option Instant) (n : ℕ) → (take_page max_new stop_at n []).0 ≡ []
unfolding take_page
take_page-nil max_new stop_at n = refl

recent_from-Pages :
    (fetch : Text → Result (Page Star)) (max_new : ℕ) (stop_at : Option Instant) (fuel n : ℕ)
    (path : Text) (pages : List (List Star))
    → Pages fetch path pages
    → length pages < fuel
    → recent_from fetch max_new stop_at fuel n path
      ≡ ok (take_page max_new stop_at n (concat pages)).0
unfolding recent_from
recent_from-Pages fetch max_new stop_at zero n path pages ps h = absurd (omega arith)
recent_from-Pages fetch max_new stop_at (suc fuel) n path pages last h =
    ap ok (sym (take_page-nil max_new stop_at n))
recent_from-Pages fetch max_new stop_at (suc fuel) n path pages (page {p = p} {rest = rest} e ps)
      h =
    let taken = take_page max_new stop_at n p.items in
    let ih =
      recent_from-Pages fetch max_new stop_at fuel (n + length taken.0) (next_page_path p.link) rest
        ps (omega arith) in
    let split = take_page-append max_new stop_at n p.items (concat rest) in
    elim (Bool-cases taken.1) [
      | inl t ↦ rw (e, t) (ap ok (sym (split ∙ rw t refl)))
      | inr t ↦ rw (e, t, ih) (ap ok (sym (split ∙ rw t refl)))
    ]

-- With fuel for every page, the result is the stars of all pages in their order, up to the first that
-- is not newer than the given time, and at most as many as asked for.
stargazers_recent-Pages :
    (fetch : Text → Result (Page Star)) (fuel : ℕ) (repo : Text) (max_new : ℕ)
    (stop_at : Option Instant) (pages : List (List Star))
    → Pages fetch (lit "/repos/" ++ (repo ++ lit "/stargazers?per_page=100")) pages
    → length pages < fuel
    → stargazers_recent fetch fuel repo max_new stop_at
      ≡ ok (limited max_new (new_before stop_at (concat pages)))
unfolding stargazers_recent
stargazers_recent-Pages fetch fuel repo max_new stop_at pages ps h =
    recent_from-Pages fetch max_new stop_at fuel 0 _ pages ps h
    ∙ ap ok (take_page-new_before max_new stop_at (concat pages))

-- No star is newer than one that stands before it.
abbrev pub IsNewestFirst : List Star → Type 0
IsNewestFirst [] = Unit
IsNewestFirst (s ∷ ss) = All (λ t. t.starred_at ≤ s.starred_at) ss × IsNewestFirst ss

-- A star that is newer than the given time, if there is one.
abbrev pub is_new : Option Instant → Star → Bool
is_new stop_at s = not (is_known stop_at s)

-- Behind a star that is known, every star is.
none_new :
    (at : Instant) (s : Star) (ss : List Star)
    → leb s.starred_at at ≡ true
    → All (λ t. t.starred_at ≤ s.starred_at) ss
    → keep (is_new (some at)) ss ≡ []
unfolding is_known
none_new at s [] known h = refl
none_new at s (t ∷ ss) known (le, h) = ground (arith, none_new at s ss known h)

new_before-newest :
    (stop_at : Option Instant) (ss : List Star)
    → IsNewestFirst ss
    → new_before stop_at ss ≡ keep (is_new stop_at) ss
unfolding is_known
new_before-newest stop_at [] h = refl
new_before-newest none (s ∷ ss) (first, h) = ap (λ r. s ∷ r) (new_before-newest none ss h)
new_before-newest (some at) (s ∷ ss) (first, h) = elim (Bool-cases (leb s.starred_at at)) [
  | inl known ↦ rw known (sym (none_new at s ss known first))
  | inr new ↦ rw new (ap (λ r. s ∷ r) (new_before-newest (some at) ss h))
]

-- When the API lists the stars newest first over its pages, and there is fuel for every page, the
-- result is the stars that are newer than the given time, or all where none is given: every one of
-- them in that order, or, when a number other than 0 is asked for, the first so many of them.
pub stargazers_recent-newest :
    (fetch : Text → Result (Page Star)) (fuel : ℕ) (repo : Text) (max_new : ℕ)
    (stop_at : Option Instant) (pages : List (List Star))
    → Pages fetch (lit "/repos/" ++ (repo ++ lit "/stargazers?per_page=100")) pages
    → IsNewestFirst (concat pages)
    → length pages < fuel
    → stargazers_recent fetch fuel repo max_new stop_at
      ≡ ok (limited max_new (keep (is_new stop_at) (concat pages)))
stargazers_recent-newest fetch fuel repo max_new stop_at pages ps order h =
    stargazers_recent-Pages fetch fuel repo max_new stop_at pages ps h
    ∙ ap (λ ss. ok (limited max_new ss)) (new_before-newest stop_at (concat pages) order)
