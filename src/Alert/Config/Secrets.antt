-- ===== src/Alert/Config/Secrets.antt =====
-- A secret that the environment gives is the one that is used.
use gghstats.Base.{false, ◌≡◌, refl}
use gghstats.Base.Text.{Text, lit, is_empty, trim_space}
use gghstats.Alert.Config.{
  SinkSpec, resolve_optional, resolve_url, with_port, with_sender, with_recipients,
  resolve_smtp_sink, resolve_webhook, resolve_slack, resolve_loki, resolve_sink,
}

module _ (getenv : Text → Text) where
  resolve_url-inline :
      (env_name a b field : Text)
      → is_empty (trim_space env_name) ≡ false
      → resolve_url getenv env_name a field ≡ resolve_url getenv env_name b field
  unfolding resolve_url
  resolve_url-inline env_name a b field h = rw h refl

  resolve_optional-inline :
      (env_name a b field : Text)
      → is_empty (trim_space env_name) ≡ false
      → resolve_optional getenv env_name a field ≡ resolve_optional getenv env_name b field
  unfolding resolve_optional
  resolve_optional-inline env_name a b field h = rw h refl

  -- Where a sink names variables for its URLs and its password, what its entry has inline for them
  -- makes no difference.
  pub resolve_sink-inline :
      (s : SinkSpec) (webhook_url url password : Text)
      → is_empty (trim_space s.webhook_url_env) ≡ false
      → is_empty (trim_space s.url_env) ≡ false
      → is_empty (trim_space s.password_env) ≡ false
      → resolve_sink getenv (record s { webhook_url = webhook_url; url = url; password = password })
        ≡ resolve_sink getenv s
  unfolding resolve_sink resolve_slack resolve_webhook resolve_loki resolve_smtp_sink with_port
      with_sender with_recipients
  resolve_sink-inline s webhook_url url password h k p =
      rw
        (
          resolve_url-inline s.webhook_url_env webhook_url s.webhook_url (lit "webhook_url_env") h,
          resolve_url-inline s.url_env url s.url (lit "url_env") k,
          resolve_optional-inline s.password_env password s.password (lit "password_env") p,
        )
        refl
