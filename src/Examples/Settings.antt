-- ===== src/Examples/Settings.antt =====
-- Settings with English and German enabled, and a session.
use gghstats.Base.{
  ℕ, Bool, true, false, ltb, List, [], ◌∷◌, ◌++◌, Option, none, some, no_items, if◌then◌else◌,
  Bool-cases, ◌≡◌, ◌⊎◌, inl, inr, refl, sym, ap, ◌∙◌, ◌==◌, arith,
}
use gghstats.Base.Text.{
  Text, lit, text_eq, text_eq_sound, is_empty, trim_space, trim_left, is_space,
}
use gghstats.Base.Results.{Result, ok, err}
use gghstats.Alert.Rules.{to_lower, lower_code}
use gghstats.I18n.{normalize_locale, without_region, before, found, has_text, add_locales}
use gghstats.Examples.Locale.{first}
use gghstats.Examples.Server.{net, request}
use gghstats.Server.Proxies.{Request}
use gghstats.Server.Settings.{
  EditableSettings, SettingsUpdate, PersistedSettings, SettingsManager, absent, written, failed,
  enabled_set, new_settings_manager, update_settings, update_values, next_values, changes_nothing,
  save_locked, save_file, publish, or_else,
}
use gghstats.Server.Settings.Manager.{HasEnabledLocale, update_all, update_all-HasEnabledLocale}
use gghstats.Server.Settings.Manager.Restart.{update_settings-restart}
use gghstats.Server.Settings.Session.{
  AccessConfig, served, handle_settings_route, settings_request_authorized, request_is_loopback,
  valid_settings_session, new_settings_session_value, trim_brackets,
}
use gghstats.Server.Settings.Session.RoundTrip.{valid_settings_session-issued}
use gghstats.Server.Settings.Session.Local.{handle_settings_route-served}

abbrev locales : List Text
locales = lit "en" ∷ lit "de" ∷ []

-- The file holds a letter for the numbers, and the locale.
encode : PersistedSettings → Text
encode p = elim p.saved_compact [
  | none ↦ b'n' ∷ p.saved_locale
  | some c ↦ elim c [ true ↦ b't' ∷ p.saved_locale | false ↦ b'f' ∷ p.saved_locale ]
]

strip : Text → Text
strip [] = []
strip (c ∷ []) = []
strip (c ∷ d ∷ s) = c ∷ strip (d ∷ s)

strip-append : (s : Text) → strip (s ++ lit "\n") ≡ s
unfolding strip
strip-append [] = refl
strip-append (c ∷ []) = refl
strip-append (c ∷ d ∷ s) = rw (strip-append (d ∷ s)) refl

unmark : ℕ → Text → PersistedSettings
unmark c locale =
    if c == b'n'
    then record { saved_locale = locale; saved_compact = none }
    else record { saved_locale = locale; saved_compact = some (c == b't') }

decode : Text → Result PersistedSettings
decode [] = err (lit "EOF")
decode (c ∷ s) = ok (unmark c (strip s))

decode-encode : (p : PersistedSettings) → decode (encode p ++ lit "\n") ≡ ok p
unfolding decode encode unmark
decode-encode p = by_compact p.saved_locale p.saved_compact
  where
    by_compact :
        (l : Text) (c : Option Bool)
        → decode (encode (record { saved_locale = l; saved_compact = c }) ++ lit "\n")
          ≡ ok (record { saved_locale = l; saved_compact = c })
    by_compact l none = rw (strip-append l) refl
    by_compact l (some true) = rw (strip-append l) refl
    by_compact l (some false) = rw (strip-append l) refl

abbrev manager : SettingsManager
manager = record {
  path = lit "/data/settings.json";
  enabled_locales = locales;
  values = record { default_locale = lit "en"; compact_numbers = false };
}

abbrev german : SettingsUpdate
german = record { new_locale = some (lit "de-DE"); new_compact = none }

abbrev values : EditableSettings
values = record { default_locale = lit "de"; compact_numbers = false }

manager-HasEnabledLocale : HasEnabledLocale manager
unfolding has_text text_eq
manager-HasEnabledLocale = refl

update_all-HasEnabledLocale_example :
    HasEnabledLocale
      (update_all encode manager absent
        ((german, written) ∷ (german, failed (lit "disk full") absent) ∷ [])).0
update_all-HasEnabledLocale_example =
    update_all-HasEnabledLocale encode manager absent
      ((german, written) ∷ (german, failed (lit "disk full") absent) ∷ []) manager-HasEnabledLocale

locales-normal :
    (enabled_set locales ≡ locales)
    × (normalize_locale (lit "en") ≡ lit "en")
    × (normalize_locale (lit "de") ≡ lit "de")
unfolding enabled_set add_locales normalize_locale without_region before found text_eq is_empty
    trim_space trim_left is_space to_lower lower_code no_items
locales-normal = (refl, refl, refl)

one_of_two : (l : Text) → has_text l locales ≡ true → (l ≡ lit "en") ⊎ (l ≡ lit "de")
unfolding has_text
one_of_two l h = elim (Bool-cases (text_eq l (lit "en"))) [
  | inl e ↦ inl (text_eq_sound l (lit "en") e)
  | inr e ↦ inr (text_eq_sound l (lit "de") (ground (arith, h, e)))
]

normal : (l : Text) → has_text l (enabled_set locales) ≡ true → normalize_locale l ≡ l
normal l h = elim (one_of_two l (ap (has_text l) (sym locales-normal.0) ∙ h)) [
  | inl e ↦ rw e locales-normal.1
  | inr e ↦ rw e locales-normal.2
]

update-ok : (update_settings encode manager german written absent).2 ≡ ok values
unfolding update_settings update_values next_values changes_nothing save_locked save_file publish
    or_else has_text normalize_locale without_region before found text_eq is_empty trim_space
    trim_left is_space to_lower lower_code
update-ok = refl

update_settings-restart_example :
    new_settings_manager first decode manager.path values locales
      (update_settings encode manager german written absent).1
    ≡ ok (update_settings encode manager german written absent).0
unfolding is_empty enabled_set add_locales normalize_locale without_region before found text_eq
    trim_space trim_left is_space to_lower lower_code no_items
update_settings-restart_example =
    update_settings-restart encode first decode manager german absent values values locales
      decode-encode refl refl normal manager-HasEnabledLocale update-ok

-- A mac of one byte, the length of the text.
abbrev hmac : Text → Text → Text
hmac k m = b'x' ∷ []

valid_settings_session-issued_example :
    valid_settings_session hmac
      (new_settings_session_value hmac (lit "s3cret") 1800000000 (lit "nonce"))
      (lit "s3cret")
      1799990000
    ≡ ltb 1799990000 1800000000
valid_settings_session-issued_example =
    valid_settings_session-issued hmac (lit "s3cret") (lit "nonce") 1800000000 1799990000
      (λ k m. (omega arith, tt)) (omega arith)

abbrev config : AccessConfig
config = record { api_token = []; local_only_settings = true }

abbrev own : Request
own = request (lit "/settings") (lit "127.0.0.1:5000") []

own-served : handle_settings_route net hmac config own 5 ≡ served
unfolding handle_settings_route settings_request_authorized request_is_loopback text_eq is_empty
    trim_space trim_left is_space before found
own-served = refl

handle_settings_route-served_example :
    ((is_empty config.api_token ≡ false)
      × ((own.x_api_token ≡ config.api_token)
          ⊎ (valid_settings_session hmac own.session_cookie config.api_token 5 ≡ true)))
    ⊎ ((is_empty config.api_token ≡ true)
        × (config.local_only_settings ≡ true)
        × (is_empty (trim_space own.x_forwarded_for) ≡ true)
        × (is_empty (trim_space own.forwarded) ≡ true)
        × (ip : Text) × (net.is_loopback ip ≡ true)
        × ((net.parse_ip (trim_brackets (trim_space own.remote_addr)) ≡ some ip)
            ⊎ ((host : Text) × (net.split_host (trim_space own.remote_addr) ≡ some host)
                × (net.parse_ip host ≡ some ip))))
handle_settings_route-served_example = handle_settings_route-served net hmac config own 5 own-served
