-- ===== src/I18n/Locale.antt =====
-- A page is shown in a locale that is enabled.
use gghstats.Base.{
  true, false, not, ◌&&◌, List, [], ◌∷◌, map, no_items, ◌≡◌, refl, ◌∙◌, arith, Bool-cases, inl, inr,
  ◌⊎◌,
}
use gghstats.Base.Text.{Text, is_empty, split, text_eq_refl}
use gghstats.I18n.{
  normalize_locale, has_text, default_locale, LocaleRequest, key_of, pick, resolve_locale,
  first_tag,
}

has_text-head : (e : Text) (es : List Text) → has_text e (e ∷ es) ≡ true
unfolding has_text
has_text-head e es = rw (text_eq_refl e) refl

module _ (some_key : Text → List Text → Text) where
  pub key_of-enabled :
      (enabled : List Text) (other : Text)
      → ((e : Text) (es : List Text) → has_text (some_key e es) (e ∷ es) ≡ true)
      → no_items enabled ≡ false
      → has_text (key_of some_key other enabled) enabled ≡ true
  unfolding key_of no_items
  key_of-enabled [] other key h = absurd (ground (arith, h))
  key_of-enabled (e ∷ es) other key h = key e es

  pick-enabled :
      (enabled : List Text) (other locale : Text)
      → ((e : Text) (es : List Text) → has_text (some_key e es) (e ∷ es) ≡ true)
      → no_items enabled ≡ false
      → has_text (pick some_key enabled other locale) enabled ≡ true
  unfolding pick
  pick-enabled enabled other locale key h =
      elim (Bool-cases (has_text (normalize_locale locale) enabled)) [
        | inl e ↦ rw e e
        | inr e ↦ elim (Bool-cases (has_text default_locale enabled)) [
          | inl d ↦ rw (e, d) d
          | inr d ↦ rw (e, d) (key_of-enabled enabled other key h)
        ]
      ]

  no_items-map : (f : Text → Text) (xs : List Text) → no_items (map f xs) ≡ no_items xs
  unfolding no_items
  no_items-map f [] = refl
  no_items-map f (x ∷ xs) = refl

  -- Where a locale is enabled, whatever the request asks for is answered in an enabled locale,
  -- provided that a key of a map is one of its keys; and a `lang` parameter that names an enabled
  -- locale decides, whatever the cookie and the header say.
  pub resolve_locale-enabled :
      (r : LocaleRequest) (default : Text) (enabled : List Text)
      → ((e : Text) (es : List Text) → has_text (some_key e es) (e ∷ es) ≡ true)
      → no_items enabled ≡ false
      → (has_text (resolve_locale some_key r default enabled) (map normalize_locale enabled) ≡ true)
        × ((not (is_empty r.lang)
                && has_text (normalize_locale r.lang) (map normalize_locale enabled))
              ≡ false
            ⊎ (resolve_locale some_key r default enabled ≡ normalize_locale r.lang))
  unfolding resolve_locale pick
  resolve_locale-enabled r default enabled key h =
      let set = map normalize_locale enabled in
      let other = normalize_locale default in
      let some_set : no_items set ≡ false = no_items-map normalize_locale enabled ∙ h in
      let by = λ (locale : Text). pick-enabled set other locale key some_set in
      (
        ground (
          arith,
          by r.lang,
          by r.cookie,
          by (first_tag (split b',' r.accept_language)),
          by other,
        ),
        elim (Bool-cases (not (is_empty r.lang) && has_text (normalize_locale r.lang) set)) [
          | inl e ↦ inr (ground (arith, e))
          | inr e ↦ inl e
        ],
      )
