-- ===== src/I18n.antt =====
-- The locale of a page, internal/i18n/i18n.go. The loading of the translations is left out. Which key
-- of a map comes first in a `range` is a parameter, `some_key`.
pub mod Locale
pub mod Number
use gghstats.Base.{
  ℕ, Bool, true, false, not, ◌&&◌, ◌==◌, if◌then◌else◌, List, [], ◌∷◌, any, map, no_items,
}
use gghstats.Base.Text.{Text, lit, text_eq, is_empty, trim_space, split, drop_front}
use gghstats.Alert.Rules.{to_lower}

abbrev pub default_locale : Text
default_locale = lit "en"

-- strings.Cut by one character: what stands before its first occurrence, whether there is one, and
-- what stands behind it.
unfoldable pub before : ℕ → Text → Text
before c [] = []
before c (d ∷ s) = let rest = before c s in if d == c then [] else d ∷ rest

unfoldable pub behind : ℕ → Text → Text
behind c [] = []
behind c (d ∷ s) = let rest = behind c s in if d == c then s else rest

unfoldable pub found : ℕ → Text → Bool
found c s = any (λ d. d == c) s

-- The end of `NormalizeLocale`: a tag with a region.
unfoldable pub without_region : Text → Text
without_region s =
    if found b'-' s
    then (if text_eq (before b'-' s) (lit "pt") && text_eq (behind b'-' s) (lit "br")
        then lit "pt-br"
        else before b'-' s)
    else s

unfoldable pub normalize_locale : Text → Text
normalize_locale s =
    let lower = trim_space (to_lower s) in
    if is_empty lower then default_locale else without_region (before b';' (before b',' lower))

unfoldable pub add_locales : List Text → List Text
add_locales [] = []
add_locales (part ∷ parts) =
    let locale = normalize_locale part in
    let rest = add_locales parts in if is_empty locale then rest else locale ∷ rest

abbrev all_locales : List Text
all_locales = lit "en" ∷ lit "es" ∷ lit "de" ∷ lit "fr" ∷ lit "pt-br" ∷ lit "bg" ∷ lit "ru" ∷ []

unfoldable pub parse_enabled_locales : Text → List Text
parse_enabled_locales s =
    let out = add_locales (split b',' s) in
    if is_empty (trim_space s)
    then all_locales
    else if no_items out
    then default_locale ∷ []
    else out

unfoldable pub parse_default_locale : Text → Text
parse_default_locale s =
    let locale = normalize_locale s in if is_empty locale then default_locale else locale

-- A key of a map with texts as keys.
unfoldable pub has_text : Text → List Text → Bool
has_text x xs = any (text_eq x) xs

-- A request, with '' for what it does not carry.
pub record LocaleRequest : Type 0 where
  pub lang : Text
  pub cookie : Text
  pub accept_language : Text

-- The loop over the parts of Accept-Language: the first tag, or ''.
unfoldable pub first_tag : List Text → Text
first_tag [] = []
first_tag (part ∷ parts) =
    let tag = before b';' (trim_space part) in
    let rest = first_tag parts in if is_empty tag then rest else tag

module _ (some_key : Text → List Text → Text) where
  unfoldable pub key_of : Text → List Text → Text
  key_of other [] = other
  key_of other (e ∷ es) = some_key e es

  unfoldable pub pick : List Text → Text → Text → Text
  pick enabled other locale =
      let normal = normalize_locale locale in
      if has_text normal enabled
      then normal
      else if has_text default_locale enabled
      then default_locale
      else key_of other enabled

  unfoldable pub resolve_locale : LocaleRequest → Text → List Text → Text
  resolve_locale r default enabled =
      let set = map normalize_locale enabled in
      let other = normalize_locale default in
      let tag = first_tag (split b',' r.accept_language) in
      if not (is_empty r.lang)
      then pick set other r.lang
      else if not (is_empty r.cookie)
      then pick set other r.cookie
      else if not (is_empty r.accept_language) && not (is_empty tag)
      then pick set other tag
      else pick set other other
