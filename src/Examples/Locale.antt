-- ===== src/Examples/Locale.antt =====
-- Locales and numbers of a page.
use gghstats.Base.{
  true, false, not, ◌&&◌, ◌==◌, ◌≤◌, List, [], ◌∷◌, map, keep, length, All, no_items, ◌≡◌, ◌⊎◌,
  refl,
}
use gghstats.Base.Text.{Text, lit, is_empty, split, text_eq_refl}
use gghstats.Base.Decimal.{itoa}
use gghstats.I18n.{normalize_locale, has_text, LocaleRequest, resolve_locale}
use gghstats.I18n.Locale.{resolve_locale-enabled}
use gghstats.I18n.Number.{format_count, group_sep}
use gghstats.I18n.Number.Grouping.{format_count-grouped}

-- The first key.
abbrev pub first : Text → List Text → Text
first e es = e

pub first-key : (e : Text) (es : List Text) → has_text (first e es) (e ∷ es) ≡ true
unfolding has_text
first-key e es = rw (text_eq_refl e) refl

abbrev request : LocaleRequest
request = record { lang = lit "xx"; cookie = lit "de"; accept_language = lit "es-ES,es;q=0.9" }

abbrev locales : List Text
locales = lit "es" ∷ lit "fr" ∷ []

resolve_locale-enabled_example :
    (has_text (resolve_locale first request (lit "en") locales) (map normalize_locale locales)
      ≡ true)
    × ((not (is_empty request.lang)
            && has_text (normalize_locale request.lang) (map normalize_locale locales))
          ≡ false
        ⊎ (resolve_locale first request (lit "en") locales ≡ normalize_locale request.lang))
unfolding no_items
resolve_locale-enabled_example =
    resolve_locale-enabled first request (lit "en") locales first-key refl

format_count-grouped_example :
    (keep
        (λ c. not (c == group_sep (normalize_locale (lit "de-DE"))))
        (format_count (λ n d. []) 1234567 (lit "de-DE") false)
      ≡ itoa 1234567)
    × (p : Text) × (ps : List Text) × (split
          (group_sep (normalize_locale (lit "de-DE")))
          (format_count (λ n d. []) 1234567 (lit "de-DE") false)
        ≡ p ∷ ps)
    × (1 ≤ length p)
    × (length p ≤ 3)
    × All (λ t. length t ≡ 3) ps
format_count-grouped_example = format_count-grouped (λ n d. []) 1234567 (lit "de-DE")
