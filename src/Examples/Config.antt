-- ===== src/Examples/Config.antt =====
-- One webhook sink with its URL in the environment.
use gghstats.Base.{false, ◌&&◌, if◌then◌else◌, List, [], ◌∷◌, no_items, All, ◌≡◌, refl}
use gghstats.Base.Text.{Text, lit, is_empty, text_eq, trim_space, trim_left, is_space}
use gghstats.Base.Results.{Result, ok}
use gghstats.Alert.Rules.{lower_trimmed, to_lower, lower_code}
use gghstats.Alert.Config.{
  SinkSpec, ResolvedSink, webhook, config_from_env, resolve_sink, resolve_webhook, resolve_url,
  resolve_headers, resolve_all, parse_sinks_json, env_bool, is_body, put_headers,
}
use gghstats.Alert.Config.Ready.{IsReady, config_from_env-IsReady}

abbrev spec : SinkSpec
spec = record {
  type = lit "webhook";
  webhook_url_env = lit "HOOK";
  webhook_url = [];
  url_env = lit "HOOK";
  url = [];
  headers_env = [];
  body = lit "Discord";
  labels = [];
  host_env = [];
  port_env = [];
  user_env = [];
  password_env = lit "PASSWORD";
  from_env = [];
  to_env = [];
  host = [];
  port = [];
  user = [];
  password = [];
  from = [];
  to = [];
  use_tls = false;
  skip_verify = false;
}

abbrev environment : Text → Text
environment name =
    if text_eq name (lit "HOOK")
    then lit "https://hook"
    else if text_eq name (lit "GGHSTATS_ALERT_SINKS")
    then lit "[]"
    else lit "yes"

abbrev decode : Text → Result (List SinkSpec)
decode raw = ok (spec ∷ [])

abbrev sinks : List ResolvedSink
sinks = webhook (lit "https://hook") [] (lit "discord") ∷ []

config-ok : (config_from_env decode environment).1 ≡ ok sinks
unfolding config_from_env resolve_sink resolve_webhook resolve_url resolve_headers resolve_all
    parse_sinks_json env_bool is_body put_headers lower_trimmed to_lower is_empty text_eq trim_space
    trim_left is_space no_items lower_code
config-ok = refl

config_from_env-IsReady_example :
    All IsReady sinks × (((config_from_env decode environment).0 && no_items sinks) ≡ false)
config_from_env-IsReady_example = config_from_env-IsReady decode environment sinks config-ok
