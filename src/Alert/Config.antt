-- ===== src/Alert/Config.antt =====
-- The sinks of alerts from the environment, internal/alert/config.go, and `splitRecipients` of
-- internal/alert/smtp.go. `getenv` and the decoding of JSON are parameters; a map is a list in the order
-- of a `range` over it. An error is its text without the quoted values.
pub mod Ready
pub mod Secrets
use gghstats.Base.{
  ℕ, Bool, true, false, not, ◌&&◌, ◌||◌, ◌==◌, ltb, leb, if◌then◌else◌, List, [], ◌∷◌, ◌++◌, Option,
  none, some, map, no_items, suc,
}
use gghstats.Base.Text.{Text, lit, text_eq, is_empty, trim_space, split, has_suffix}
use gghstats.Base.Results.{Result, ok, err, ◌>>=◌}
use gghstats.Base.Decimal.{itoa, parse_digits}
use gghstats.Store.Table.{find_row, upsert}
use gghstats.Alert.Rules.{lower_trimmed}
use gghstats.Alert.Traffic.{trim_slashes}

pub record SinkSpec : Type 0 where
  pub type : Text
  pub webhook_url_env : Text
  pub webhook_url : Text
  pub url_env : Text
  pub url : Text
  pub headers_env : List (Text × Text)
  pub body : Text
  pub labels : List (Text × Text)
  pub host_env : Text
  pub port_env : Text
  pub user_env : Text
  pub password_env : Text
  pub from_env : Text
  pub to_env : Text
  pub host : Text
  pub port : Text
  pub user : Text
  pub password : Text
  pub from : Text
  pub to : Text
  pub use_tls : Bool
  pub skip_verify : Bool

pub record SmtpSink : Type 0 where
  pub smtp_host : Text
  pub smtp_port : ℕ
  pub smtp_user : Text
  pub smtp_password : Text
  pub smtp_from : Text
  pub smtp_to : List Text
  pub smtp_use_tls : Bool
  pub smtp_skip_verify : Bool

-- The fields of `ResolvedSink` that its type uses: the URL and the headers, and the body of a webhook
-- or the labels of Loki; or those of SMTP.
pub data ResolvedSink : Type 0 where
  slack : Text → List (Text × Text) → ResolvedSink
  webhook : Text → List (Text × Text) → Text → ResolvedSink
  loki : Text → List (Text × Text) → List (Text × Text) → ResolvedSink
  smtp : SmtpSink → ResolvedSink

-- `m[k] = v`.
unfoldable pub put_key : Text → Text → List (Text × Text) → List (Text × Text)
put_key k v m = upsert (λ (p : Text × Text). text_eq p.0 k) (λ (p : Text × Text). (p.0, v)) (k, v) m

unfoldable pub value_at : Text → List (Text × Text) → Option (Text × Text)
value_at k m = find_row (λ (p : Text × Text). text_eq p.0 k) m

abbrev pub push_path : Text
push_path = lit "/loki/api/v1/push"

unfoldable pub normalize_loki_push_url : Text → Text
normalize_loki_push_url u =
    let base = trim_slashes (trim_space u) in
    if has_suffix base push_path then base else base ++ push_path

-- The loop over the labels of the sink.
unfoldable pub put_labels : List (Text × Text) → List (Text × Text) → List (Text × Text)
put_labels [] labels = labels
put_labels ((k, v) ∷ more) labels =
    let name = trim_space k in
    if is_empty name then put_labels more labels else put_labels more (put_key name v labels)

abbrev pub job : Text
job = lit "job"

unfoldable pub lacks_value : Option (Text × Text) → Bool
lacks_value none = true
lacks_value (some p) = is_empty p.1

unfoldable pub loki_labels : List (Text × Text) → List (Text × Text)
loki_labels more =
    let labels = put_labels more ((job, lit "gghstats") ∷ []) in
    if lacks_value (value_at job labels) then put_key job (lit "gghstats") labels else labels

-- The recipients: strings.ReplaceAll of the commas, and the parts that are not blank.
unfoldable pub non_blank : List Text → List Text
non_blank [] = []
non_blank (p ∷ ps) =
    let rest = non_blank ps in if is_empty (trim_space p) then rest else trim_space p ∷ rest

unfoldable pub split_recipients : Text → List Text
split_recipients raw = non_blank (split b';' (map (λ c. if c == b',' then b';' else c) raw))

-- strconv.Atoi where a result that is not positive is an error.
unfoldable pub atoi_positive : Text → Option ℕ
atoi_positive [] = none
atoi_positive (c ∷ s) = if c == b'+' then parse_digits s else parse_digits (c ∷ s)

unfoldable pub port_in_range : Option ℕ → Result ℕ
port_in_range none = err (lit "smtp port invalid")
port_in_range (some p) = if p == 0 || ltb 65535 p then err (lit "smtp port invalid") else ok p

unfoldable pub resolve_port : Text → Result ℕ
resolve_port port =
    if is_empty (trim_space port) then ok 587 else port_in_range (atoi_positive (trim_space port))

unfoldable pub is_body : Text → Bool
is_body b = text_eq b (lit "generic") || text_eq b (lit "discord") || text_eq b (lit "teams")

module _ (getenv : Text → Text) where
  unfoldable pub resolve_optional : Text → Text → Text → Result Text
  resolve_optional env_name inline env_field =
      let v = trim_space (getenv env_name) in
      if not (is_empty (trim_space env_name))
      then (if is_empty v then err (env_field ++ lit " is empty") else ok v)
      else ok (trim_space inline)

  unfoldable pub resolve_url : Text → Text → Text → Result Text
  resolve_url env_name inline env_field =
      let v = trim_space (getenv env_name) in
      let plain = trim_space inline in
      if not (is_empty (trim_space env_name))
      then (if is_empty v then err (env_field ++ lit " is empty") else ok v)
      else if is_empty plain
      then err (lit "missing " ++ (env_field ++ lit " or inline url"))
      else ok plain

  unfoldable pub put_headers : List (Text × Text) → List (Text × Text) → List (Text × Text)
  put_headers [] out = out
  put_headers ((h, env_name) ∷ more) out =
      let hdr = trim_space h in
      let name = trim_space env_name in
      if is_empty hdr || is_empty name
      then put_headers more out
      else put_headers more (put_key hdr (getenv name) out)

  unfoldable pub resolve_headers : List (Text × Text) → List (Text × Text)
  resolve_headers headers_env = put_headers headers_env []

  -- The steps of `resolveSMTPSink`, the last one first.
  unfoldable pub with_recipients : SinkSpec → Text → ℕ → Text → Text → Text → Result ResolvedSink
  with_recipients s host port user password from =
      resolve_optional s.to_env s.to (lit "to_env") >>= λ to_raw.
      if no_items (split_recipients to_raw)
      then err (lit "smtp to_env or to is required")
      else ok (
          smtp (record {
            smtp_host = host;
            smtp_port = port;
            smtp_user = user;
            smtp_password = password;
            smtp_from = from;
            smtp_to = split_recipients to_raw;
            smtp_use_tls = s.use_tls;
            smtp_skip_verify = s.skip_verify;
          }))

  unfoldable pub with_sender : SinkSpec → Text → ℕ → Text → Text → Result ResolvedSink
  with_sender s host port user password =
      resolve_optional s.from_env s.from (lit "from_env") >>= λ given.
      let from = if is_empty given then user else given in
      if is_empty from
      then err (lit "smtp from_env/from or user_env/user is required")
      else with_recipients s host port user password from

  unfoldable pub with_port : SinkSpec → Text → Result ResolvedSink
  with_port s host = resolve_optional s.port_env s.port (lit "port_env") >>= λ port_str.
      resolve_port port_str >>= λ port.
      resolve_optional s.user_env s.user (lit "user_env") >>= λ user.
      resolve_optional s.password_env s.password (lit "password_env") >>= λ password.
      with_sender s host port user password

  unfoldable pub resolve_smtp_sink : SinkSpec → Result ResolvedSink
  resolve_smtp_sink s = resolve_optional s.host_env s.host (lit "host_env") >>= λ host.
      if is_empty host then err (lit "smtp host_env or host is required") else with_port s host

  unfoldable pub resolve_webhook : SinkSpec → Result ResolvedSink
  resolve_webhook s =
      let given = lower_trimmed s.body in
      let body = if is_empty given then lit "generic" else given in
      resolve_url s.url_env s.url (lit "url_env") >>= λ url.
      if is_body body
      then ok (webhook url (resolve_headers s.headers_env) body)
      else err (lit "webhook body not supported (use generic, discord, or teams)")

  unfoldable pub resolve_slack : SinkSpec → Result ResolvedSink
  resolve_slack s = resolve_url s.webhook_url_env s.webhook_url (lit "webhook_url_env") >>= λ url.
      ok (slack url (resolve_headers s.headers_env))

  unfoldable pub resolve_loki : SinkSpec → Result ResolvedSink
  resolve_loki s = resolve_url s.url_env s.url (lit "url_env") >>= λ url.
      ok (loki (normalize_loki_push_url url) (resolve_headers s.headers_env) (loki_labels s.labels))

  unfoldable pub resolve_sink : SinkSpec → Result ResolvedSink
  resolve_sink s =
      let t = lower_trimmed s.type in
      if text_eq t (lit "slack")
      then resolve_slack s
      else if text_eq t (lit "webhook")
      then resolve_webhook s
      else if text_eq t (lit "loki")
      then resolve_loki s
      else if text_eq t (lit "smtp")
      then resolve_smtp_sink s
      else if is_empty t
      then err (lit "type is required")
      else err (lit "unsupported type (use slack, webhook, loki, or smtp)")

  abbrev pub at_sink : ℕ → Result ResolvedSink → Result ResolvedSink
  at_sink i (ok r) = ok r
  at_sink i (err e) = err (lit "GGHSTATS_ALERT_SINKS[" ++ (itoa i ++ (lit "]: " ++ e)))

  -- The loop over the entries, the next one at index `i`.
  unfoldable pub resolve_all : ℕ → List SinkSpec → Result (List ResolvedSink)
  resolve_all i [] = ok []
  resolve_all i (s ∷ specs) =
      at_sink i (resolve_sink s) >>= λ r. resolve_all (suc i) specs >>= λ rest. ok (r ∷ rest)

  abbrev pub decoded : Result (List SinkSpec) → Result (List SinkSpec)
  decoded (ok specs) = ok specs
  decoded (err e) = err (lit "GGHSTATS_ALERT_SINKS: " ++ e)

  unfoldable pub parse_sinks_json :
      (Text → Result (List SinkSpec)) → Text → Result (List ResolvedSink)
  parse_sinks_json decode raw =
      if is_empty (trim_space raw)
      then ok []
      else decoded (decode (trim_space raw)) >>= resolve_all 0

unfoldable pub env_bool : Text → Bool → Bool
env_bool v def =
    let t = lower_trimmed v in
    if text_eq t (lit "1")
      || text_eq t (lit "true")
      || text_eq t (lit "yes")
      || text_eq t (lit "on")
    then true
    else if text_eq t (lit "0")
        || text_eq t (lit "false")
        || text_eq t (lit "no")
        || text_eq t (lit "off")
    then false
    else def

abbrev pub check_sinks : Bool → Result (List ResolvedSink) → Result (List ResolvedSink)
check_sinks enabled (err e) = err e
check_sinks enabled (ok sinks) =
    if enabled && no_items sinks
    then err (lit "GGHSTATS_ALERTS_ENABLED=true but GGHSTATS_ALERT_SINKS is empty or invalid")
    else ok sinks

-- Whether alerts are enabled, and the sinks or the error.
unfoldable pub config_from_env :
    (Text → Result (List SinkSpec)) → (Text → Text) → Bool × Result (List ResolvedSink)
config_from_env decode getenv =
    let enabled = env_bool (getenv (lit "GGHSTATS_ALERTS_ENABLED")) false in
    (
      enabled,
      check_sinks enabled (parse_sinks_json getenv decode (getenv (lit "GGHSTATS_ALERT_SINKS"))),
    )
