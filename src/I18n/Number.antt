-- ===== src/I18n/Number.antt =====
-- Numbers for a reader, internal/i18n/number.go. A float is printed by a parameter, as the ratio of
-- two numbers with one decimal. Numbers are not negative.
pub mod Grouping
use gghstats.Base.{
  ℕ, zero, suc, ◌+◌, ◌*◌, ◌%◌, Bool, true, false, ◌||◌, ◌==◌, ltb, leb, if◌then◌else◌, List, [],
  ◌∷◌, ◌++◌, length,
}
use gghstats.Base.Text.{Text, lit, text_eq, drop_front}
use gghstats.Base.Decimal.{itoa}
use gghstats.I18n.{normalize_locale}

-- The separators, with those of English where a locale has none.
unfoldable pub group_sep : Text → ℕ
group_sep locale =
    if text_eq locale (lit "es") || text_eq locale (lit "de") || text_eq locale (lit "pt-br")
    then b'.'
    else if text_eq locale (lit "fr")
    then 0x20
    else b','

unfoldable pub dec_sep : Text → ℕ
dec_sep locale =
    if text_eq locale (lit "es")
      || text_eq locale (lit "de")
      || text_eq locale (lit "fr")
      || text_eq locale (lit "pt-br")
    then b','
    else b'.'

-- `s[:n]`, for an `s` no shorter than `n`.
unfoldable pub front : ℕ → Text → Text
front zero s = []
front (suc n) [] = []
front (suc n) (c ∷ s) = c ∷ front n s

-- The loop over the groups of three; its text has a length that three divides.
unfoldable pub groups : ℕ → Text → Text
groups sep (a ∷ b ∷ c ∷ s) = sep ∷ a ∷ b ∷ c ∷ groups sep s
groups sep [] = []
groups sep (a ∷ []) = a ∷ []
groups sep (a ∷ b ∷ []) = a ∷ b ∷ []

unfoldable pub group_digits : ℕ → Text → Text
group_digits sep s =
    let start = if length s % 3 == 0 then 3 else length s % 3 in
    front start s ++ groups sep (drop_front start s)

unfoldable pub grouped_count : ℕ → Text → Text
grouped_count n locale = group_digits (group_sep locale) (itoa n)

-- strings.Replace of the first '.'.
unfoldable pub replace_dot : ℕ → Text → Text
replace_dot dec [] = []
replace_dot dec (c ∷ s) = let rest = replace_dot dec s in if c == b'.' then dec ∷ s else c ∷ rest

abbrev units : List (ℕ × Text)
units =
    (1000000000000000, lit "P")
    ∷ (1000000000000, lit "T")
    ∷ (1000000000, lit "G")
    ∷ (1000000, lit "M")
    ∷ (1000, lit "k")
    ∷ []

module _ (format_ratio : ℕ → ℕ → Text) where
  -- The loop over the units, from the largest on.
  unfoldable pub compact_from : List (ℕ × Text) → ℕ → ℕ → Text
  compact_from [] dec n = itoa n
  compact_from ((div, suffix) ∷ us) dec n =
      let rest = compact_from us dec n in
      if leb div n then replace_dot dec (format_ratio n div) ++ suffix else rest

  unfoldable pub compact_count : ℕ → Text → Text
  compact_count n locale = if ltb n 1000 then itoa n else compact_from units (dec_sep locale) n

  unfoldable pub format_count : ℕ → Text → Bool → Text
  format_count n locale compact =
      let normal = normalize_locale locale in
      if compact then compact_count n normal else grouped_count n normal
