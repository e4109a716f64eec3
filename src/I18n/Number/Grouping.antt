-- ===== src/I18n/Number/Grouping.antt =====
-- Grouped numbers can be read back.
use gghstats.Base.{
  ℕ, zero, suc, ◌-◌, ◌%◌, ◌≤◌, false, not, ◌==◌, if◌then◌else◌, List, [], ◌∷◌, ◌++◌, length, keep,
  All, ◌≡◌, ◌≢◌, refl, ap, ◌∙◌, arith, keep-append, All-map, append-nil,
}
use gghstats.Base.Text.{Text, split, drop_front}
use gghstats.Base.Text.Split.{split-append, split_one}
use gghstats.Base.Decimal.{itoa, itoa-cons, itoa-IsDigit, IsDigit}
use gghstats.I18n.{normalize_locale}
use gghstats.I18n.Number.{front, groups, group_digits, grouped_count, group_sep, format_count}

-- The groups of three, as parts.
abbrev pub threes : Text → List Text
threes (a ∷ b ∷ c ∷ s) = (a ∷ b ∷ c ∷ []) ∷ threes s
threes [] = []
threes (a ∷ []) = []
threes (a ∷ b ∷ []) = []

module _ (sep : ℕ) where
  keep-apart : (s : Text) → All (λ c. c ≢ sep) s → keep (λ c. not (c == sep)) s ≡ s
  keep-apart [] h = refl
  keep-apart (c ∷ s) (p, h) = ground (arith, p, keep-apart s h)

  keep-groups : (s : Text) → All (λ c. c ≢ sep) s → keep (λ c. not (c == sep)) (groups sep s) ≡ s
  unfolding groups
  keep-groups [] h = refl
  keep-groups (a ∷ []) h = keep-apart (a ∷ []) h
  keep-groups (a ∷ b ∷ []) h = keep-apart (a ∷ b ∷ []) h
  keep-groups (a ∷ b ∷ c ∷ s) (p, (q, (r, h))) = ground (arith, p, q, r, keep-groups s h)

  split-groups :
      (p s : Text)
      → All (λ c. c ≢ sep) p
      → All (λ c. c ≢ sep) s
      → length s % 3 ≡ 0
      → split sep (p ++ groups sep s) ≡ p ∷ threes s
  unfolding groups
  split-groups p [] hp hs m = rw (append-nil p) (split_one sep p hp)
  split-groups p (a ∷ []) hp hs m = absurd (omega arith)
  split-groups p (a ∷ b ∷ []) hp hs m = absurd (omega arith)
  split-groups p (a ∷ b ∷ c ∷ s) hp (ha, (hb, (hc, hs))) m =
      split-append sep p ((a ∷ b ∷ c ∷ []) ++ groups sep s)
      ∙ rw
          (
            split_one sep p hp,
            split-groups (a ∷ b ∷ c ∷ []) s (ha, (hb, (hc, tt))) hs (omega arith),
          )
          refl

  -- A front and the rest of a text.
  front-drop : (n : ℕ) (s : Text) → front n s ++ drop_front n s ≡ s
  unfolding front drop_front
  front-drop zero s = refl
  front-drop (suc n) [] = refl
  front-drop (suc n) (c ∷ s) = ap (λ t. c ∷ t) (front-drop n s)

  front-All : (n : ℕ) (s : Text) → All (λ c. c ≢ sep) s → All (λ c. c ≢ sep) (front n s)
  unfolding front
  front-All zero s h = tt
  front-All (suc n) [] h = tt
  front-All (suc n) (c ∷ s) (p, h) = (p, front-All n s h)

  drop-All : (n : ℕ) (s : Text) → All (λ c. c ≢ sep) s → All (λ c. c ≢ sep) (drop_front n s)
  unfolding drop_front
  drop-All zero s h = h
  drop-All (suc n) [] h = tt
  drop-All (suc n) (c ∷ s) (p, h) = drop-All n s h

  length-front :
      (n : ℕ) (s : Text)
      → n ≤ length s
      → (length (front n s) ≡ n) × (length (drop_front n s) ≡ length s - n)
  unfolding front drop_front
  length-front zero s h = (refl, omega arith)
  length-front (suc n) [] h = absurd (omega arith)
  length-front (suc n) (c ∷ s) h =
      let (f, d) = length-front n s (omega arith) in (omega arith, omega arith)

  threes-length : (s : Text) → All (λ t. length t ≡ 3) (threes s)
  threes-length [] = tt
  threes-length (a ∷ []) = tt
  threes-length (a ∷ b ∷ []) = tt
  threes-length (a ∷ b ∷ c ∷ s) = (refl, threes-length s)

  group_digits-parts :
      (s : Text)
      → All (λ c. c ≢ sep) s
      → 1 ≤ length s
      → (keep (λ c. not (c == sep)) (group_digits sep s) ≡ s)
        × (p : Text) × (ps : List Text) × (split sep (group_digits sep s) ≡ p ∷ ps)
        × (1 ≤ length p)
        × (length p ≤ 3)
        × All (λ t. length t ≡ 3) ps
  unfolding group_digits
  group_digits-parts s h some =
      let start : ℕ = if length s % 3 == 0 then 3 else length s % 3 in
      let within : start ≤ length s = ground arith in
      let low : 1 ≤ start = ground arith in
      let high : start ≤ 3 = ground arith in
      let whole : (length s - start) % 3 ≡ 0 = ground arith in
      let (f, d) = length-front start s within in
      let hf = front-All start s h in
      let hd = drop-All start s h in
      (
        keep-append (λ c. not (c == sep)) (front start s) (groups sep (drop_front start s))
            ∙ rw (keep-apart (front start s) hf, keep-groups (drop_front start s) hd)
                (front-drop start s),
        front start s,
        threes (drop_front start s),
        split-groups (front start s) (drop_front start s) hf hd (ap (λ k. k % 3) d ∙ whole),
        rw f low,
        rw f high,
        threes-length (drop_front start s),
      )

itoa-some : (n : ℕ) → 1 ≤ length (itoa n)
itoa-some n = let (c, t, e) = itoa-cons n in rw e (omega arith)

group_sep-apart : (locale : Text) (c : ℕ) → IsDigit c → c ≢ group_sep locale
unfolding group_sep
group_sep-apart locale c d = ground (arith, d)

-- Without its separators the text of a count, not shortened, is the decimal of the number again;
-- and its parts between the separators have three digits, the first one to three.
pub format_count-grouped :
    (format_ratio : ℕ → ℕ → Text) (n : ℕ) (locale : Text)
    → let sep = group_sep (normalize_locale locale) in
      let text = format_count format_ratio n locale false in
      (keep (λ c. not (c == sep)) text ≡ itoa n)
      × (p : Text) × (ps : List Text) × (split sep text ≡ p ∷ ps)
      × (1 ≤ length p)
      × (length p ≤ 3)
      × All (λ t. length t ≡ 3) ps
unfolding format_count grouped_count
format_count-grouped format_ratio n locale =
    let sep = group_sep (normalize_locale locale) in
    group_digits-parts sep (itoa n)
      (All-map IsDigit (λ c. c ≢ sep) (group_sep-apart (normalize_locale locale)) (itoa n)
        (itoa-IsDigit n))
      (itoa-some n)
