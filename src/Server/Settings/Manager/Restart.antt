-- ===== src/Server/Settings/Manager/Restart.antt =====
-- What an update changes, and what survives a restart.
use gghstats.Base.{
  true, false, List, [], ◌∷◌, ◌++◌, Option, none, some, ◌≡◌, refl, sym, ap, subst, arith,
  Bool-cases, inl, inr,
}
use gghstats.Base.Text.{Text, lit, is_empty, trim_space, trim_left}
use gghstats.Alert.Rules.{to_lower}
use gghstats.Base.Results.{Result, ok, err}
use gghstats.I18n.{normalize_locale, has_text}
use gghstats.Server.Settings.{
  EditableSettings, SettingsUpdate, PersistedSettings, SettingsManager, FileRead, contents, written,
  enabled_set, or_else, normalize_editable_locale, overlay, fresh_manager, load_settings,
  new_settings_manager, next_values, changes_nothing, persisted_of, save_file, save_locked, publish,
  update_values, update_settings,
}
use gghstats.Server.Settings.Manager.{HasEnabledLocale, update-keeps, next-AllOk}

-- The locale that an update asks for.
abbrev pub locale_after : SettingsManager → Option Text → Text
locale_after m none = m.values.default_locale
locale_after m (some l) = normalize_locale l

abbrev pub values_after : SettingsManager → SettingsUpdate → EditableSettings
values_after m u = record {
  default_locale = locale_after m u.new_locale;
  compact_numbers = or_else u.new_compact m.values.compact_numbers;
}

normal-full : (l : Text) → normalize_locale l ≡ l → is_empty l ≡ false
unfolding is_empty normalize_locale to_lower trim_space trim_left
normal-full [] h = cc
normal-full (c ∷ s) h = refl

module _ (encode : PersistedSettings → Text) where
  updated :
      (m : SettingsManager) (r : Result EditableSettings) (file : FileRead) (v : EditableSettings)
      → is_empty m.path ≡ false
      → (update_values encode m r written file).2 ≡ ok v
      → ((update_values encode m r written file).1 ≡ contents (persisted_of encode v))
        × ((update_values encode m r written file).0 ≡ record m { values = v })
  unfolding update_values save_locked save_file publish
  updated m (err e) file v p h = cc
  updated m (ok w) file v p h =
      let same : w ≡ v = ground (arith, h, p) in
      (
        rw p (ap (λ x. contents (persisted_of encode x)) same),
        rw p (ap (λ x. record m { values = x }) same),
      )

  reloaded :
      (some_key : Text → List Text → Text) (decode : Text → Result PersistedSettings)
      → (m : SettingsManager) (v defaults : EditableSettings) (locales : List Text)
      → ((p : PersistedSettings) → decode (encode p ++ lit "\n") ≡ ok p)
      → is_empty m.path ≡ false
      → m.enabled_locales ≡ enabled_set locales
      → normalize_locale v.default_locale ≡ v.default_locale
      → has_text v.default_locale (enabled_set locales) ≡ true
      → new_settings_manager some_key decode m.path defaults locales
          (contents (persisted_of encode v))
        ≡ ok (record m { values = v })
  unfolding new_settings_manager load_settings persisted_of overlay fresh_manager or_else
      normalize_editable_locale
  reloaded some_key decode m v defaults locales json path set normal enabled =
      let full : is_empty v.default_locale ≡ false = normal-full v.default_locale normal in
      rw (path, json _, full, normal, enabled)
        (ap (λ e. ok (record { path = m.path; enabled_locales = e; values = v })) (sym set))

  -- The values that a manager saves are those that it starts with again: provided that JSON reads
  -- back what it wrote, that the manager has a file and the locales of the list, and that these are
  -- in their normal form.
  pub update_settings-restart :
      (some_key : Text → List Text → Text) (decode : Text → Result PersistedSettings)
      → (m : SettingsManager) (u : SettingsUpdate) (file : FileRead) (v defaults : EditableSettings)
        (locales : List Text)
      → ((p : PersistedSettings) → decode (encode p ++ lit "\n") ≡ ok p)
      → is_empty m.path ≡ false
      → m.enabled_locales ≡ enabled_set locales
      → ((l : Text) → has_text l (enabled_set locales) ≡ true → normalize_locale l ≡ l)
      → HasEnabledLocale m
      → (update_settings encode m u written file).2 ≡ ok v
      → let next = update_settings encode m u written file in
        new_settings_manager some_key decode m.path defaults locales next.1 ≡ ok next.0
  unfolding update_settings
  update_settings-restart some_key decode m u file v defaults locales json path set normal had h =
      elim (Bool-cases (changes_nothing u)) [
        | inl e ↦ absurd (ground (arith, e, h))
        | inr e ↦
            let (file_eq, m_eq) = updated m (next_values m u) file v path (ground (arith, e, h)) in
            let kept : HasEnabledLocale (record m { values = v }) =
              subst HasEnabledLocale m_eq
                (update-keeps encode m (next_values m u) written file (next-AllOk m u had) had) in
            let enabled : has_text v.default_locale (enabled_set locales) ≡ true =
              rw (← set) kept in
            rw (e, file_eq, m_eq)
              (reloaded some_key decode m v defaults locales json path set
                (normal v.default_locale enabled) enabled)
      ]
