-- ===== src/Server/Settings/Session.antt =====
-- Who may see and edit the settings, internal/server/settings.go. HMAC with SHA-256 is a parameter,
-- and the nonce is `none` where the source of randomness fails. Times are seconds since 1970.
pub mod RoundTrip
pub mod Local
use gghstats.Base.{
  ℕ, ◌+◌, ◌*◌, ◌^◌, Bool, true, false, not, ◌&&◌, ◌||◌, ◌==◌, ltb, leb, if◌then◌else◌, List, [],
  ◌∷◌, ◌++◌, Option, none, some,
}
use mathlib.Core.List.{reverse}
use gghstats.Base.Text.{Text, lit, text_eq, is_empty, trim_space, split}
use gghstats.Base.Decimal.{itoa, parse_digits}
use gghstats.Base.Hex.{hex_encode, hex_decode}
use gghstats.Base.Results.{Result, ok, err}
use gghstats.Server.Proxies.{Net, Request, is_some}
use gghstats.Server.Access.{token_matches}
use gghstats.Server.Settings.{
  EditableSettings, SettingsUpdate, SettingsManager, PersistedSettings, FileRead, FileWrite,
  update_settings,
}

abbrev settings_session_purpose : Text
settings_session_purpose = lit "gghstats/settings-session/v1:"

-- `settingsSessionTTL`, eight hours.
abbrev settings_session_ttl : ℕ
settings_session_ttl = 8 * 3600

abbrev dot : Text
dot = lit "."

unfoldable pub in_range : Option ℕ → Option ℕ
in_range none = none
in_range (some n) = if ltb n (2 ^ 63) then some n else none

-- strconv.ParseInt in base 10 with 64 bits; a negative number, which has expired, is `none`.
unfoldable pub parse_seconds : Text → Option ℕ
parse_seconds [] = none
parse_seconds (c ∷ s) =
    if c == b'+' then in_range (parse_digits s) else in_range (parse_digits (c ∷ s))

module _ (hmac : Text → Text → Text) where
  unfoldable pub new_settings_session_value : Text → ℕ → Text → Text
  new_settings_session_value token expires nonce =
      let payload = itoa expires ++ (dot ++ hex_encode nonce) in
      payload ++ (dot ++ hex_encode (hmac token (settings_session_purpose ++ payload)))

  -- The test on the three parts of the cookie.
  unfoldable pub valid_parts : Text → ℕ → List Text → Bool
  valid_parts token now (first ∷ second ∷ third ∷ []) = elim (parse_seconds first) [
    | none ↦ false
    | some expires ↦ if leb expires now then false else elim (hex_decode third) [
      | none ↦ false
      | some provided ↦
          text_eq provided (hmac token (settings_session_purpose ++ (first ++ (dot ++ second))))
    ]
  ]
  valid_parts token now [] = false
  valid_parts token now (first ∷ []) = false
  valid_parts token now (first ∷ second ∷ []) = false
  valid_parts token now (first ∷ second ∷ third ∷ more ∷ rest) = false

  unfoldable pub valid_settings_session : Text → Text → ℕ → Bool
  valid_settings_session cookie token now =
      if is_empty cookie then false else valid_parts token now (split b'.' cookie)

-- strings.Trim with the set "[]".
unfoldable pub trim_left_brackets : Text → Text
trim_left_brackets [] = []
trim_left_brackets (c ∷ s) =
    let rest = trim_left_brackets s in if c == b'[' || c == b']' then rest else c ∷ s

unfoldable pub trim_brackets : Text → Text
trim_brackets s = reverse (trim_left_brackets (reverse (trim_left_brackets s)))

-- The part of the configuration that decides on access.
pub record AccessConfig : Type 0 where
  pub api_token : Text
  pub local_only_settings : Bool

pub data Reply : Type 0 where
  served : Reply
  not_found : Reply
  unauthorized : Reply
  unavailable : Reply
  bad_request : Reply
  server_error : Reply

module _ {Ip Cidr : Type 0} (net : Net Ip Cidr) where
  unfoldable pub request_is_loopback : Request → Bool
  request_is_loopback r =
      let addr = trim_space r.remote_addr in
      let host : Text = elim (net.split_host addr) [ none ↦ trim_brackets addr | some h ↦ h ] in
      if not (is_empty (trim_space r.x_forwarded_for)) || not (is_empty (trim_space r.forwarded))
      then false
      else elim (net.parse_ip host) [ none ↦ false | some ip ↦ net.is_loopback ip ]

  unfoldable pub settings_request_authorized :
      (Text → Text → Text) → AccessConfig → Request → ℕ → Bool
  settings_request_authorized hmac cfg r now =
      if not (is_empty cfg.api_token)
      then token_matches r.x_api_token cfg.api_token
        || valid_settings_session hmac r.session_cookie cfg.api_token now
      else cfg.local_only_settings && request_is_loopback r

  unfoldable pub handle_settings_route : (Text → Text → Text) → AccessConfig → Request → ℕ → Reply
  handle_settings_route hmac cfg r now =
      if settings_request_authorized hmac cfg r now
      then served
      else if is_empty cfg.api_token
      then not_found
      else unauthorized

  -- The middleware, around the reply of the handler that it wraps.
  unfoldable pub settings_middleware :
      (Text → Text → Text) → AccessConfig → Reply → Request → ℕ → Reply
  settings_middleware hmac cfg next r now =
      if settings_request_authorized hmac cfg r now
      then next
      else if not (is_empty cfg.api_token)
      then unauthorized
      else not_found

-- The reply and the cookie of a new session.
unfoldable pub handle_settings_session :
    (Text → Text → Text) → AccessConfig → ℕ → Option Text → Reply × Text
handle_settings_session hmac cfg now nonce =
    if is_empty cfg.api_token then (not_found, []) else elim nonce [
      | none ↦ (server_error, [])
      | some bytes ↦
          (served, new_settings_session_value hmac cfg.api_token (now + settings_session_ttl) bytes)
    ]

unfoldable pub reply_to : {A : Type 0} → Result A → Reply
reply_to (ok v) = served
reply_to (err e) = bad_request

-- The update of a manager, with the body of the request: `none` where it is no JSON of an update, or
-- something follows it.
unfoldable pub handle_settings_update :
    (PersistedSettings → Text)
    → Option SettingsManager
    → Option SettingsUpdate
    → FileWrite
    → FileRead
    → Reply × Option SettingsManager × FileRead
handle_settings_update encode none body write file = (unavailable, none, file)
handle_settings_update encode (some m) none write file = (bad_request, some m, file)
handle_settings_update encode (some m) (some u) write file =
    let next = update_settings encode m u write file in (reply_to next.2, some next.0, next.1)
