-- ===== src/Alert/Body.antt =====
-- The text of an alert: internal/alert/payload.go, `buildSMTPMessage` of smtp.go and `buildLabels` of
-- loki.go. The version of the build and the text of a time are parameters.
pub mod Mail
use gghstats.Base.{
  ℕ, Bool, true, false, not, ◌&&◌, ◌||◌, ◌==◌, if◌then◌else◌, List, [], ◌∷◌, ◌++◌, map, keep,
  Option, none, some,
}
use gghstats.Base.Text.{Text, lit, text_eq, is_empty, trim_space}
use gghstats.Alert.{Payload, kind_ops}
use gghstats.Alert.Config.{put_key, value_at, lacks_value}

-- strings.TrimRight of the line ends.
unfoldable pub trim_line_ends : Text → Text
trim_line_ends [] = []
trim_line_ends (c ∷ s) =
    let rest = trim_line_ends s in if is_empty rest && c == b'\n' then [] else c ∷ rest

-- A line for a field with a value, and `rest`.
unfoldable pub write_field : Text → Text → Text → Text
write_field label value rest =
    if is_empty value then rest else label ++ (value ++ (lit "\n" ++ rest))

module _ (version_of_build : Text) (format_time : ℕ → Text) where
  unfoldable pub version_text : Payload → Text
  version_text p =
      if is_empty (trim_space p.version) then version_of_build else trim_space p.version

  abbrev when_line : Payload → Text → Text
  when_line p rest = lit "when:     " ++ (format_time p.at ++ (lit "\n" ++ rest))

  unfoldable pub ops_body : Payload → Text
  ops_body p = write_field (lit "level:    ") p.level (
      write_field (lit "event:    ") p.event (
        write_field (lit "count:    ") p.count (
          write_field (lit "threshold: ") p.threshold (
            write_field (lit "window:   ") p.window
              (write_field (lit "detail:   ") p.detail (when_line p []))))))

  unfoldable pub traffic_body : Payload → Text
  traffic_body p = write_field (lit "scope:    ") p.scope (
      write_field (lit "repo:     ") p.repo (
        write_field (lit "metric:   ") p.metric (
          write_field (lit "window:   ") p.window (
            write_field (lit "value:    ") p.value (
              write_field (lit "rule:     ") p.rule
                (when_line p (write_field (lit "dash:     ") p.dash [])))))))

  -- The time of the alert is set.
  unfoldable pub canonical_text : Payload → Text
  canonical_text p = trim_line_ends (
      lit "gghstats alert\n"
      ++ (lit "version:  "
          ++ (version_text p
              ++ (lit "\n" ++ (if text_eq p.kind kind_ops then ops_body p else traffic_body p)))))

  unfoldable pub one_line : Payload → Text
  one_line p =
      let target = if is_empty p.repo then p.scope else p.repo in
      if text_eq p.kind kind_ops || not (is_empty p.level)
      then lit "gghstats/"
        ++ (version_text p ++ (lit " ops " ++ (p.level ++ (lit ": " ++ p.event))))
      else lit "gghstats/"
        ++ (version_text p
            ++ (lit " alert: " ++ (target ++ (lit " " ++ (p.metric ++ (lit " = " ++ p.value))))))

-- strings.ReplaceAll of "\r\n" by "\n".
unfoldable pub plain_line_ends : Text → Text
plain_line_ends [] = []
plain_line_ends (c ∷ []) = c ∷ []
plain_line_ends (c ∷ d ∷ s) =
    let rest = plain_line_ends (d ∷ s) in if c == b'\r' && d == b'\n' then rest else c ∷ rest

-- The subject: the line ends are replaced, and a blank one gives the default.
unfoldable pub smtp_subject : Text → Text
smtp_subject subject =
    let subj = keep (λ c. not (c == b'\r')) (map (λ c. if c == b'\n' then b' ' else c) subject) in
    if is_empty (trim_space subj) then lit "gghstats alert" else subj

-- strings.Join.
unfoldable pub join : Text → List Text → Text
join sep [] = []
join sep (s ∷ []) = s
join sep (s ∷ t ∷ ss) = s ++ (sep ++ join sep (t ∷ ss))

unfoldable pub smtp_headers : Text → List Text → Text → List Text
smtp_headers from recipients subject =
    (lit "From: " ++ from)
    ∷ (lit "To: " ++ join (lit ", ") recipients)
    ∷ (lit "Subject: " ++ smtp_subject subject)
    ∷ lit "MIME-Version: 1.0"
    ∷ lit "Content-Type: text/plain; charset=UTF-8"
    ∷ []

unfoldable pub build_smtp_message : Text → List Text → Text → Text → Text
build_smtp_message from recipients subject text =
    join (lit "\r\n") (smtp_headers from recipients subject ++ ([] ∷ plain_line_ends text ∷ []))

-- The labels of a line in Loki.
unfoldable pub put_label : Text → Text → List (Text × Text) → List (Text × Text)
put_label key value labels = if is_empty value then labels else put_key key value labels

unfoldable pub build_labels : List (Text × Text) → Payload → List (Text × Text)
build_labels configured p =
    let with_job =
      if lacks_value (value_at (lit "job") configured)
      then put_key (lit "job") (lit "gghstats") configured
      else configured in
    put_label (lit "metric") p.metric (
      put_label (lit "event") p.event
        (put_label (lit "level") p.level (put_label (lit "kind") p.kind with_job)))
