-- ===== src/Server/Settings.antt =====
-- The preferences that an operator edits in the browser, internal/server/settings.go: the overlay with
-- its file. JSON is a parameter, as is the key of a map that a `range` gives first. An operation
-- under the manager's lock is one step; responses are their status and what was stored.
pub mod Manager
pub mod Session
use gghstats.Base.{
  ℕ, Bool, true, false, not, ◌&&◌, ◌||◌, if◌then◌else◌, List, [], ◌∷◌, ◌++◌, Option, none, some,
  no_items,
}
use gghstats.Base.Text.{Text, lit, is_empty}
use gghstats.Base.Results.{Result, ok, err, ◌>>=◌}
use gghstats.Server.Proxies.{is_some}
use gghstats.I18n.{normalize_locale, default_locale, has_text, key_of, add_locales}

pub record EditableSettings : Type 0 where
  pub default_locale : Text
  pub compact_numbers : Bool

pub record SettingsUpdate : Type 0 where
  pub new_locale : Option Text
  pub new_compact : Option Bool

-- The JSON of the file; an absent locale is ''.
pub record PersistedSettings : Type 0 where
  pub saved_locale : Text
  pub saved_compact : Option Bool

pub record SettingsManager : Type 0 where
  pub path : Text
  pub enabled_locales : List Text
  pub values : EditableSettings

-- What reading the file gives.
pub data FileRead : Type 0 where
  absent : FileRead
  unreadable : Text → FileRead
  contents : Text → FileRead

-- What writing the file gives; a failure may leave other contents behind.
pub data FileWrite : Type 0 where
  written : FileWrite
  failed : Text → FileRead → FileWrite

-- The set that `NewSettingsManager` makes of the list.
unfoldable pub enabled_set : List Text → List Text
enabled_set locales =
    let enabled = add_locales locales in if no_items enabled then default_locale ∷ [] else enabled

unfoldable pub or_else {ℓ} : {A : Type ℓ} → Option A → A → A
or_else none a = a
or_else (some b) a = b

module _ (some_key : Text → List Text → Text) where
  unfoldable pub normalize_editable_locale : Text → List Text → Text
  normalize_editable_locale locale enabled =
      let normal = normalize_locale locale in
      if has_text normal enabled
      then normal
      else if has_text default_locale enabled
      then default_locale
      else key_of some_key default_locale enabled

  -- The values with the file's laid over them.
  unfoldable pub overlay : SettingsManager → PersistedSettings → SettingsManager
  overlay m saved = record m {
    values = record {
      default_locale =
          if is_empty saved.saved_locale
          then m.values.default_locale
          else normalize_editable_locale saved.saved_locale m.enabled_locales;
      compact_numbers = or_else saved.saved_compact m.values.compact_numbers;
    };
  }

  unfoldable pub fresh_manager : Text → EditableSettings → List Text → SettingsManager
  fresh_manager path defaults locales = record {
    path = path;
    enabled_locales = enabled_set locales;
    values = record defaults {
      default_locale = normalize_editable_locale defaults.default_locale (enabled_set locales);
    };
  }

  unfoldable pub load_settings :
      (Text → Result PersistedSettings) → SettingsManager → FileRead → Result SettingsManager
  load_settings decode m absent = ok m
  load_settings decode m (unreadable e) = err e
  load_settings decode m (contents raw) = decode raw >>= λ saved. ok (overlay m saved)

  unfoldable pub new_settings_manager :
      (Text → Result PersistedSettings)
      → Text
      → EditableSettings
      → List Text
      → FileRead
      → Result SettingsManager
  new_settings_manager decode path defaults locales file =
      let m = fresh_manager path defaults locales in
      let loaded = load_settings decode m file in if is_empty path then ok m else loaded

-- The values that an update asks for.
unfoldable pub next_values : SettingsManager → SettingsUpdate → Result EditableSettings
next_values m u =
    let compact = or_else u.new_compact m.values.compact_numbers in
    elim u.new_locale [
      | none ↦ ok (record m.values { compact_numbers = compact })
      | some l ↦
          let locale = normalize_locale l in
          if has_text locale m.enabled_locales
          then ok (record { default_locale = locale; compact_numbers = compact })
          else err (lit "default_locale is not enabled")
    ]

unfoldable pub changes_nothing : SettingsUpdate → Bool
changes_nothing u = not (is_some u.new_locale) && not (is_some u.new_compact)

module _ (encode : PersistedSettings → Text) where
  unfoldable pub persisted_of : EditableSettings → Text
  persisted_of v =
      encode (record { saved_locale = v.default_locale; saved_compact = some v.compact_numbers })
      ++ lit "\n"

  -- The file after `saveLocked`, and its error.
  unfoldable pub save_file :
      EditableSettings → FileWrite → FileRead → FileRead × Result EditableSettings
  save_file v written file = (contents (persisted_of v), ok v)
  save_file v (failed e left) file = (left, err e)

  unfoldable pub save_locked :
      SettingsManager → EditableSettings → FileWrite → FileRead → FileRead × Result EditableSettings
  save_locked m v write file = if is_empty m.path then (file, ok v) else save_file v write file

  -- The last steps of `Update`: the values are published only after they are saved.
  unfoldable pub publish :
      SettingsManager
      → FileRead × Result EditableSettings
      → SettingsManager × FileRead × Result EditableSettings
  publish m (file, ok v) = (record m { values = v }, file, ok v)
  publish m (file, err e) = (m, file, err e)

  unfoldable pub update_values :
      SettingsManager
      → Result EditableSettings
      → FileWrite
      → FileRead
      → SettingsManager × FileRead × Result EditableSettings
  update_values m (err e) write file = (m, file, err e)
  update_values m (ok v) write file = publish m (save_locked m v write file)

  unfoldable pub update_settings :
      SettingsManager
      → SettingsUpdate
      → FileWrite
      → FileRead
      → SettingsManager × FileRead × Result EditableSettings
  update_settings m u write file =
      if changes_nothing u
      then (m, file, err (lit "no editable settings supplied"))
      else update_values m (next_values m u) write file
