-- ===== src/Alert/Config/Ready.antt =====
-- A sink that is resolved can be delivered to.
use gghstats.Base.{
  ℕ, suc, ◌≤◌, Bool, true, false, ◌&&◌, ◌||◌, ◌==◌, ltb, if◌then◌else◌, List, [], ◌∷◌, Option, none,
  some, no_items, All, ◌≡◌, refl, subst, arith, Bool-cases, Option-cases, inl, inr, Bool-cases,
}
use gghstats.Base.Text.{
  Text, lit, text_eq, text_eq_refl, is_empty, trim_space, has_suffix, has_suffix-append,
}
use gghstats.Base.Results.{Result, ok, err, AllOk, bind-AllOk, Result-cases}
use gghstats.Store.Table.{find_row, find_row-upsert_self}
use gghstats.Alert.Rules.{lower_trimmed}
use gghstats.Alert.Traffic.{trim_slashes}
use gghstats.Alert.Config.{
  atoi_positive, SinkSpec, ResolvedSink, slack, webhook, loki, smtp, put_key, value_at, push_path,
  normalize_loki_push_url, loki_labels, put_labels, job, lacks_value, non_blank, split_recipients,
  port_in_range, resolve_port, with_recipients, with_sender, with_port, is_body, resolve_optional,
  resolve_url, resolve_smtp_sink, resolve_webhook, resolve_slack, resolve_loki, resolve_sink,
  at_sink, resolve_all, decoded, parse_sinks_json, check_sinks, config_from_env,
}

-- What each type of sink needs: a URL, which for Loki ends with the path of its push API, and a label
-- `job`; or for SMTP a host, a sender, recipients and a port.
abbrev pub IsReady : ResolvedSink → Type 0
IsReady (slack url headers) = is_empty url ≡ false
IsReady (webhook url headers body) = (is_empty url ≡ false) × (is_body body ≡ true)
IsReady (loki url headers labels) =
    (has_suffix url push_path ≡ true) × (lacks_value (value_at job labels) ≡ false)
IsReady (smtp s) =
    (is_empty s.smtp_host ≡ false)
    × (1 ≤ s.smtp_port)
    × (s.smtp_port ≤ 65535)
    × (is_empty s.smtp_from ≡ false)
    × (no_items s.smtp_to ≡ false)
    × All (λ t. is_empty t ≡ false) s.smtp_to

port_in_range-range : (o : Option ℕ) → AllOk (λ p. (1 ≤ p) × (p ≤ 65535)) (port_in_range o)
unfolding port_in_range
port_in_range-range none = tt
port_in_range-range (some p) = elim (Bool-cases (p == 0 || ltb 65535 p)) [
  | inl e ↦ rw e tt
  | inr e ↦ rw e (ground (arith, e), ground (arith, e))
]

resolve_port-range : (port : Text) → AllOk (λ p. (1 ≤ p) × (p ≤ 65535)) (resolve_port port)
unfolding resolve_port
resolve_port-range port = elim (Bool-cases (is_empty (trim_space port))) [
  | inl e ↦ rw e (omega arith, omega arith)
  | inr e ↦ rw e (port_in_range-range (atoi_positive (trim_space port)))
]

non_blank-All : (ps : List Text) → All (λ t. is_empty t ≡ false) (non_blank ps)
unfolding non_blank
non_blank-All [] = tt
non_blank-All (p ∷ ps) = elim (Bool-cases (is_empty (trim_space p))) [
  | inl e ↦ rw e (non_blank-All ps)
  | inr e ↦ rw e (e, non_blank-All ps)
]

push_url-suffix : (u : Text) → has_suffix (normalize_loki_push_url u) push_path ≡ true
unfolding normalize_loki_push_url
push_url-suffix u = elim (Bool-cases (has_suffix (trim_slashes (trim_space u)) push_path)) [
  | inl e ↦ rw e e
  | inr e ↦ rw e (has_suffix-append (trim_slashes (trim_space u)) push_path)
]

put_key-value :
    (k v : Text) (m : List (Text × Text))
    → is_empty v ≡ false
    → lacks_value (value_at k (put_key k v m)) ≡ false
unfolding put_key value_at lacks_value
put_key-value k v m full =
    let self =
      find_row-upsert_self (λ (p : Text × Text). text_eq p.0 k) (λ (p : Text × Text). (p.0, v))
        (k, v) (text_eq_refl k) (λ p h. h) m in
    elim (Option-cases (find_row (λ (p : Text × Text). text_eq p.0 k) m)) [
      | inl e ↦ rw self (rw e full)
      | inr (p, e) ↦ rw self (rw e full)
    ]

loki_labels-job :
    (more : List (Text × Text)) → lacks_value (value_at job (loki_labels more)) ≡ false
unfolding loki_labels is_empty
loki_labels-job more =
    let labels = put_labels more ((job, lit "gghstats") ∷ []) in
    elim (Bool-cases (lacks_value (value_at job labels))) [
      | inl e ↦ rw e (put_key-value job (lit "gghstats") labels refl)
      | inr e ↦ rw e e
    ]

resolve_url-full :
    (getenv : Text → Text) (env_name inline env_field : Text)
    → AllOk (λ (url : Text). is_empty url ≡ false) (resolve_url getenv env_name inline env_field)
unfolding resolve_url
resolve_url-full getenv env_name inline env_field =
    elim (Bool-cases (is_empty (trim_space env_name))) [
      | inl e ↦ elim (Bool-cases (is_empty (trim_space inline))) [
        | inl f ↦ rw (e, f) tt
        | inr f ↦ rw (e, f) f
      ]
      | inr e ↦ elim (Bool-cases (is_empty (trim_space (getenv env_name)))) [
        | inl f ↦ rw (e, f) tt
        | inr f ↦ rw (e, f) f
      ]
    ]

module _ (getenv : Text → Text) where
  resolve_slack-IsReady : (s : SinkSpec) → AllOk IsReady (resolve_slack getenv s)
  unfolding resolve_slack
  resolve_slack-IsReady s =
      bind-AllOk (λ (url : Text). is_empty url ≡ false) IsReady _ _
        (resolve_url-full getenv s.webhook_url_env s.webhook_url (lit "webhook_url_env"))
        (λ url full. full)

  resolve_loki-IsReady : (s : SinkSpec) → AllOk IsReady (resolve_loki getenv s)
  unfolding resolve_loki
  resolve_loki-IsReady s =
      bind-AllOk (λ (url : Text). is_empty url ≡ false) IsReady _ _
        (resolve_url-full getenv s.url_env s.url (lit "url_env"))
        (λ url full. (push_url-suffix url, loki_labels-job s.labels))

  resolve_webhook-IsReady : (s : SinkSpec) → AllOk IsReady (resolve_webhook getenv s)
  unfolding resolve_webhook
  resolve_webhook-IsReady s =
      let given = lower_trimmed s.body in
      let body : Text = if is_empty given then lit "generic" else given in
      bind-AllOk (λ (url : Text). is_empty url ≡ false) IsReady _ _
        (resolve_url-full getenv s.url_env s.url (lit "url_env"))
        (λ url full. elim (Bool-cases (is_body body)) [ inl e ↦ rw e (full, e) | inr e ↦ rw e tt ])

  if-AllOk {ℓ} :
      {V : Type ℓ} (P : V → Type 0) (b : Bool) (x y : Result V)
      → AllOk P x
      → AllOk P y
      → AllOk P (if b then x else y)
  if-AllOk P true x y h k = h
  if-AllOk P false x y h k = k

  with_recipients-IsReady :
      (s : SinkSpec) (host : Text) (port : ℕ) (user password from : Text)
      → is_empty host ≡ false
      → (1 ≤ port) × (port ≤ 65535)
      → is_empty from ≡ false
      → AllOk IsReady (with_recipients getenv s host port user password from)
  unfolding with_recipients split_recipients
  with_recipients-IsReady s host port user password from h range f =
      elim (Result-cases (resolve_optional getenv s.to_env s.to (lit "to_env"))) [
        | inl (e, q) ↦ rw q tt
        | inr (raw, q) ↦ elim (Bool-cases (no_items (split_recipients raw))) [
          | inl n ↦ rw (q, n) tt
          | inr n ↦ rw (q, n) (h, range.0, range.1, f, n, non_blank-All _)
        ]
      ]

  with_sender-IsReady :
      (s : SinkSpec) (host : Text) (port : ℕ) (user password : Text)
      → is_empty host ≡ false
      → (1 ≤ port) × (port ≤ 65535)
      → AllOk IsReady (with_sender getenv s host port user password)
  unfolding with_sender
  with_sender-IsReady s host port user password h range =
      elim (Result-cases (resolve_optional getenv s.from_env s.from (lit "from_env"))) [
        | inl (e, q) ↦ rw q tt
        | inr (given, q) ↦
            let from : Text = if is_empty given then user else given in
            elim (Bool-cases (is_empty from)) [
              | inl n ↦ rw (q, n) tt
              | inr n ↦ rw (q, n) (with_recipients-IsReady s host port user password from h range n)
            ]
      ]

  with_port-IsReady :
      (s : SinkSpec) (host : Text) → is_empty host ≡ false → AllOk IsReady (with_port getenv s host)
  unfolding with_port
  with_port-IsReady s host h =
      elim (Result-cases (resolve_optional getenv s.port_env s.port (lit "port_env"))) [
        | inl (e, q) ↦ rw q tt
        | inr (port_str, q) ↦ elim (Result-cases (resolve_port port_str)) [
          | inl (e, p) ↦ rw (q, p) tt
          | inr (port, p) ↦
              let range : AllOk (λ n. (1 ≤ n) × (n ≤ 65535)) (ok port) =
                subst (AllOk (λ n. (1 ≤ n) × (n ≤ 65535))) p (resolve_port-range port_str) in
              elim (Result-cases (resolve_optional getenv s.user_env s.user (lit "user_env"))) [
                | inl (e, u) ↦ rw (q, p, u) tt
                | inr (user, u) ↦
                    elim (Result-cases
                      (resolve_optional getenv s.password_env s.password (lit "password_env"))) [
                        | inl (e, w) ↦ rw (q, p, u, w) tt
                        | inr (password, w) ↦
                            rw (q, p, u, w) (with_sender-IsReady s host port user password h range)
                      ]
              ]
        ]
      ]

  resolve_smtp_sink-IsReady : (s : SinkSpec) → AllOk IsReady (resolve_smtp_sink getenv s)
  unfolding resolve_smtp_sink
  resolve_smtp_sink-IsReady s =
      elim (Result-cases (resolve_optional getenv s.host_env s.host (lit "host_env"))) [
        | inl (e, q) ↦ rw q tt
        | inr (host, q) ↦ elim (Bool-cases (is_empty host)) [
          | inl n ↦ rw (q, n) tt
          | inr n ↦ rw (q, n) (with_port-IsReady s host n)
        ]
      ]

  resolve_sink-IsReady : (s : SinkSpec) → AllOk IsReady (resolve_sink getenv s)
  unfolding resolve_sink
  resolve_sink-IsReady s =
      let t = lower_trimmed s.type in
      elim (Bool-cases (text_eq t (lit "slack"))) [
        | inl a ↦ rw a (resolve_slack-IsReady s)
        | inr a ↦ elim (Bool-cases (text_eq t (lit "webhook"))) [
          | inl b ↦ rw (a, b) (resolve_webhook-IsReady s)
          | inr b ↦ elim (Bool-cases (text_eq t (lit "loki"))) [
            | inl c ↦ rw (a, b, c) (resolve_loki-IsReady s)
            | inr c ↦ elim (Bool-cases (text_eq t (lit "smtp"))) [
              | inl d ↦ rw (a, b, c, d) (resolve_smtp_sink-IsReady s)
              | inr d ↦ elim (Bool-cases (is_empty t)) [
                | inl e ↦ rw (a, b, c, d, e) tt
                | inr e ↦ rw (a, b, c, d, e) tt
              ]
            ]
          ]
        ]
      ]

  at_sink-IsReady :
      (i : ℕ) (r : Result ResolvedSink) → AllOk IsReady r → AllOk IsReady (at_sink getenv i r)
  at_sink-IsReady i (err e) h = tt
  at_sink-IsReady i (ok r) h = h

  resolve_all-IsReady :
      (i : ℕ) (specs : List SinkSpec) → AllOk (All IsReady) (resolve_all getenv i specs)
  unfolding resolve_all
  resolve_all-IsReady i [] = tt
  resolve_all-IsReady i (s ∷ specs) =
      bind-AllOk IsReady (All IsReady) _ _ (at_sink-IsReady i _ (resolve_sink-IsReady s))
        (λ r ready.
          bind-AllOk (All IsReady) (All IsReady) _ _ (resolve_all-IsReady (suc i) specs)
            (λ rest all. (ready, all)))

  parse-IsReady :
      (decode : Text → Result (List SinkSpec)) (raw : Text)
      → AllOk (All IsReady) (parse_sinks_json getenv decode raw)
  unfolding parse_sinks_json
  parse-IsReady decode raw = elim (Bool-cases (is_empty (trim_space raw))) [
    | inl n ↦ rw n tt
    | inr n ↦ elim (Result-cases (decoded getenv (decode (trim_space raw)))) [
      | inl (e, q) ↦ rw (n, q) tt
      | inr (specs, q) ↦ rw (n, q) (resolve_all-IsReady 0 specs)
    ]
  ]

check_sinks-IsReady :
    (enabled : Bool) (r : Result (List ResolvedSink))
    → AllOk (All IsReady) r
    → AllOk
        (λ sinks. All IsReady sinks × ((enabled && no_items sinks) ≡ false))
        (check_sinks enabled r)
check_sinks-IsReady enabled (err e) h = tt
check_sinks-IsReady enabled (ok sinks) h = elim (Bool-cases (enabled && no_items sinks)) [
  | inl e ↦ rw e tt
  | inr e ↦ rw e (h, e)
]

-- Where the configuration is accepted, every sink has what its type needs to be delivered to, and
-- if alerts are enabled there is a sink.
pub config_from_env-IsReady :
    (decode : Text → Result (List SinkSpec)) (getenv : Text → Text) (sinks : List ResolvedSink)
    → (config_from_env decode getenv).1 ≡ ok sinks
    → All IsReady sinks × (((config_from_env decode getenv).0 && no_items sinks) ≡ false)
unfolding config_from_env
config_from_env-IsReady decode getenv sinks h =
    subst
      (AllOk (λ sinks.
        All IsReady sinks × (((config_from_env decode getenv).0 && no_items sinks) ≡ false)))
      h
      (check_sinks-IsReady (config_from_env decode getenv).0 _
        (parse-IsReady getenv decode (getenv (lit "GGHSTATS_ALERT_SINKS"))))
