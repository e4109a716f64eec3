-- ===== src/Server/Settings/Manager.antt =====
-- What the manager of the settings keeps.
pub mod Restart
use gghstats.Base.{
  ℕ, Bool, true, false, not, ◌&&◌, ◌||◌, if◌then◌else◌, List, [], ◌∷◌, ◌++◌, Option, none, some,
  no_items, All, ◌≡◌, ◌⊎◌, refl, sym, ap, subst, ◌∙◌, arith, Bool-cases, Option-cases, inl, inr,
}
use gghstats.Base.Text.{Text, lit, is_empty, text_eq, text_eq_refl}
use gghstats.Base.Results.{Result, ok, err, ◌>>=◌, AllOk}
use gghstats.I18n.{normalize_locale, default_locale, has_text, key_of}
use gghstats.I18n.Locale.{key_of-enabled}
use gghstats.Server.Settings.{
  EditableSettings, SettingsUpdate, PersistedSettings, SettingsManager, FileRead, FileWrite, absent,
  unreadable, contents, written, failed, enabled_set, or_else, normalize_editable_locale, overlay,
  fresh_manager, load_settings, new_settings_manager, next_values, changes_nothing, persisted_of,
  save_file, save_locked, publish, update_values, update_settings,
}

-- The locale of the settings is one that the operator enabled.
abbrev pub HasEnabledLocale : SettingsManager → Type 0
HasEnabledLocale m = has_text m.values.default_locale m.enabled_locales ≡ true

abbrev pub IsKey : (Text → List Text → Text) → Type 0
IsKey some_key = (e : Text) (es : List Text) → has_text (some_key e es) (e ∷ es) ≡ true

enabled_set-some : (locales : List Text) → no_items (enabled_set locales) ≡ false
unfolding enabled_set no_items
enabled_set-some locales = ground arith

module _ (some_key : Text → List Text → Text) (key : IsKey some_key) where
  normal-enabled :
      (locale : Text) (enabled : List Text)
      → no_items enabled ≡ false
      → has_text (normalize_editable_locale some_key locale enabled) enabled ≡ true
  unfolding normalize_editable_locale
  normal-enabled locale enabled h = elim (Bool-cases (has_text (normalize_locale locale) enabled)) [
    | inl e ↦ rw e e
    | inr e ↦ elim (Bool-cases (has_text default_locale enabled)) [
      | inl d ↦ rw (e, d) d
      | inr d ↦ rw (e, d) (key_of-enabled some_key enabled default_locale key h)
    ]
  ]

  overlay-HasEnabledLocale :
      (m : SettingsManager) (saved : PersistedSettings)
      → no_items m.enabled_locales ≡ false
      → HasEnabledLocale m
      → HasEnabledLocale (overlay some_key m saved)
  unfolding overlay
  overlay-HasEnabledLocale m saved h had = elim (Bool-cases (is_empty saved.saved_locale)) [
    | inl e ↦ rw e had
    | inr e ↦ rw e (normal-enabled saved.saved_locale m.enabled_locales h)
  ]

  load-AllOk :
      (decode : Text → Result PersistedSettings) (m : SettingsManager) (file : FileRead)
      → no_items m.enabled_locales ≡ false
      → HasEnabledLocale m
      → AllOk HasEnabledLocale (load_settings some_key decode m file)
  unfolding load_settings
  load-AllOk decode m absent h had = had
  load-AllOk decode m (unreadable e) h had = tt
  load-AllOk decode m (contents raw) h had = decoded-AllOk (decode raw)
    where
      decoded-AllOk :
          (r : Result PersistedSettings)
          → AllOk HasEnabledLocale (r >>= λ saved. ok (overlay some_key m saved))
      decoded-AllOk (err e) = tt
      decoded-AllOk (ok saved) = overlay-HasEnabledLocale m saved h had

  start-AllOk :
      (decode : Text → Result PersistedSettings) (path : Text) (defaults : EditableSettings)
      → (locales : List Text) (file : FileRead)
      → AllOk HasEnabledLocale (new_settings_manager some_key decode path defaults locales file)
  unfolding new_settings_manager fresh_manager
  start-AllOk decode path defaults locales file =
      let some_set = enabled_set-some locales in
      let first : HasEnabledLocale (fresh_manager some_key path defaults locales) =
        normal-enabled defaults.default_locale (enabled_set locales) some_set in
      elim (Bool-cases (is_empty path)) [
        | inl e ↦ rw e first
        | inr e ↦
            rw e
              (load-AllOk decode (fresh_manager some_key path defaults locales) file some_set first)
      ]

  -- Whatever the defaults, the list of locales and the file are, a manager that starts has a locale
  -- that is enabled, provided that a key of a map is one of its keys.
  pub new_settings_manager-HasEnabledLocale :
      (decode : Text → Result PersistedSettings) (path : Text) (defaults : EditableSettings)
      → (locales : List Text) (file : FileRead) (m : SettingsManager)
      → new_settings_manager some_key decode path defaults locales file ≡ ok m
      → HasEnabledLocale m
  new_settings_manager-HasEnabledLocale decode path defaults locales file m h =
      subst (AllOk HasEnabledLocale) h (start-AllOk decode path defaults locales file)

pub next-AllOk :
    (m : SettingsManager) (u : SettingsUpdate)
    → HasEnabledLocale m
    → AllOk
        (λ (v : EditableSettings). has_text v.default_locale m.enabled_locales ≡ true)
        (next_values m u)
unfolding next_values
next-AllOk m u had = elim (Option-cases u.new_locale) [
  | inl e ↦ rw e had
  | inr (l, e) ↦ elim (Bool-cases (has_text (normalize_locale l) m.enabled_locales)) [
    | inl t ↦ rw (e, t) t
    | inr t ↦ rw (e, t) tt
  ]
]

module _ (encode : PersistedSettings → Text) where
  -- The settings after some updates, each with what writing the file gave.
  abbrev pub update_all :
      SettingsManager → FileRead → List (SettingsUpdate × FileWrite) → SettingsManager × FileRead
  update_all m file [] = (m, file)
  update_all m file ((u, write) ∷ us) =
      let next = update_settings encode m u write file in update_all next.0 next.1 us

  pub update-keeps :
      (m : SettingsManager) (r : Result EditableSettings) (write : FileWrite) (file : FileRead)
      → AllOk (λ (v : EditableSettings). has_text v.default_locale m.enabled_locales ≡ true) r
      → HasEnabledLocale m
      → HasEnabledLocale (update_values encode m r write file).0
  unfolding update_values save_locked save_file publish
  update-keeps m (err e) write file new had = had
  update-keeps m (ok v) written file new had = elim (Bool-cases (is_empty m.path)) [
    | inl e ↦ rw e new
    | inr e ↦ rw e new
  ]
  update-keeps m (ok v) (failed e left) file new had = elim (Bool-cases (is_empty m.path)) [
    | inl t ↦ rw t new
    | inr t ↦ rw t had
  ]

  update-HasEnabledLocale :
      (m : SettingsManager) (u : SettingsUpdate) (write : FileWrite) (file : FileRead)
      → HasEnabledLocale m
      → HasEnabledLocale (update_settings encode m u write file).0
  unfolding update_settings
  update-HasEnabledLocale m u write file had = elim (Bool-cases (changes_nothing u)) [
    | inl e ↦ rw e had
    | inr e ↦ rw e (update-keeps m (next_values m u) write file (next-AllOk m u had) had)
  ]

  -- Whatever updates are asked for, and whether or not the file can be written, the locale of the
  -- settings stays one that is enabled.
  pub update_all-HasEnabledLocale :
      (m : SettingsManager) (file : FileRead) (updates : List (SettingsUpdate × FileWrite))
      → HasEnabledLocale m
      → HasEnabledLocale (update_all m file updates).0
  update_all-HasEnabledLocale m file [] had = had
  update_all-HasEnabledLocale m file ((u, write) ∷ us) had =
      let next = update_settings encode m u write file in
      update_all-HasEnabledLocale next.0 next.1 us (update-HasEnabledLocale m u write file had)
