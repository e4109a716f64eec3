-- ===== src/Alert/Body/Mail.antt =====
-- The headers of a mail are lines.
use gghstats.Base.{
  false, not, ◌==◌, if◌then◌else◌, List, [], ◌∷◌, ◌++◌, map, keep, any, All, All-append, ◌≡◌, ◌≢◌,
  refl, sym, ap, append_assoc, ◌∙◌, arith, Bool-cases, inl, inr,
}
use gghstats.Base.Text.{Text, lit, split, is_empty, trim_space}
use gghstats.Base.Text.Split.{split-append, split_one}
use gghstats.Alert.Body.{smtp_subject, smtp_headers, build_smtp_message, join, plain_line_ends}

-- A text within one line.
abbrev pub IsLine : Text → Type 0
IsLine s = All (λ c. c ≢ b'\n') s

cleaned-IsLine :
    (s : Text) → IsLine (keep (λ c. not (c == b'\r')) (map (λ c. if c == b'\n' then b' ' else c) s))
cleaned-IsLine [] = tt
cleaned-IsLine (c ∷ s) = elim (Bool-cases (c == b'\n')) [
  | inl e ↦ rw e ((λ q. absurd (omega arith)), cleaned-IsLine s)
  | inr e ↦ elim (Bool-cases (c == b'\r')) [
    | inl r ↦ rw (e, r) (cleaned-IsLine s)
    | inr r ↦ rw (e, r) ((λ q. absurd (ground (arith, q, e))), cleaned-IsLine s)
  ]
]

pub any-IsLine : (s : Text) → any (λ c. c == b'\n') s ≡ false → IsLine s
any-IsLine [] h = tt
any-IsLine (c ∷ s) h = ((λ q. absurd (ground (arith, q, h))), any-IsLine s (ground (arith, h)))

subject-IsLine : (s : Text) → IsLine (smtp_subject s)
unfolding smtp_subject
subject-IsLine s =
    let subj = keep (λ c. not (c == b'\r')) (map (λ c. if c == b'\n' then b' ' else c) s) in
    elim (Bool-cases (is_empty (trim_space subj))) [
      | inl e ↦ rw e (any-IsLine (lit "gghstats alert") refl)
      | inr e ↦ rw e (cleaned-IsLine s)
    ]

IsLine-append : (s t : Text) → IsLine s → IsLine t → IsLine (s ++ t)
IsLine-append s t h k = All-append (λ c. c ≢ b'\n') s t h k

join-IsLine : (sep : Text) (ss : List Text) → IsLine sep → All IsLine ss → IsLine (join sep ss)
unfolding join
join-IsLine sep [] h all = tt
join-IsLine sep (s ∷ []) h (p, all) = p
join-IsLine sep (s ∷ t ∷ ss) h (p, all) =
    IsLine-append s (sep ++ join sep (t ∷ ss)) p
      (IsLine-append sep (join sep (t ∷ ss)) h (join-IsLine sep (t ∷ ss) h all))

headers-IsLine :
    (from : Text) (recipients : List Text) (subject : Text)
    → IsLine from
    → All IsLine recipients
    → All IsLine (smtp_headers from recipients subject)
unfolding smtp_headers
headers-IsLine from recipients subject h all = (
  IsLine-append (lit "From: ") from (any-IsLine (lit "From: ") refl) h,
  (
    IsLine-append (lit "To: ") (join (lit ", ") recipients) (any-IsLine (lit "To: ") refl)
        (join-IsLine (lit ", ") recipients (any-IsLine (lit ", ") refl) all),
    (
      IsLine-append (lit "Subject: ") (smtp_subject subject) (any-IsLine (lit "Subject: ") refl)
          (subject-IsLine subject),
      (
        any-IsLine (lit "MIME-Version: 1.0") refl,
        (any-IsLine (lit "Content-Type: text/plain; charset=UTF-8") refl, tt),
      ),
    ),
  ),
)

join-cons :
    (sep l b : Text) (ls : List Text)
    → join sep (l ∷ (ls ++ b ∷ [])) ≡ l ++ (sep ++ join sep (ls ++ b ∷ []))
unfolding join
join-cons sep l b [] = refl
join-cons sep l b (m ∷ ls) = refl

split-join :
    (ls : List Text) (b : Text)
    → All IsLine ls
    → split b'\n' (join (lit "\r\n") (ls ++ b ∷ [])) ≡ map (λ l. l ++ lit "\r") ls ++ split b'\n' b
unfolding join
split-join [] b all = refl
split-join (l ∷ ls) b (h, all) =
    let rest = join (lit "\r\n") (ls ++ b ∷ []) in
    ap (split b'\n')
      (join-cons (lit "\r\n") l b ls ∙ sym (append_assoc l (lit "\r") (b'\n' ∷ rest)))
    ∙ split-append b'\n' (l ++ lit "\r") rest
    ∙ rw
        (
          split_one b'\n' (l ++ lit "\r")
              (IsLine-append l (lit "\r") h (any-IsLine (lit "\r") refl)),
          split-join ls b all,
        )
        refl

-- The lines of a mail are its five headers, an empty line and the lines of the text, whatever the
-- subject and the text are: provided that the sender and the recipients are within a line.
pub build_smtp_message-lines :
    (from : Text) (recipients : List Text) (subject text : Text)
    → IsLine from
    → All IsLine recipients
    → split b'\n' (build_smtp_message from recipients subject text)
      ≡ map (λ l. l ++ lit "\r") (smtp_headers from recipients subject ++ [] ∷ [])
        ++ split b'\n' (plain_line_ends text)
unfolding build_smtp_message
build_smtp_message-lines from recipients subject text h all =
    let headers = smtp_headers from recipients subject in
    let lines = headers ++ [] ∷ [] in
    ap (λ ls. split b'\n' (join (lit "\r\n") ls))
      (sym (append_assoc headers ([] ∷ []) (plain_line_ends text ∷ [])))
    ∙ split-join lines (plain_line_ends text) (
        All-append IsLine headers ([] ∷ []) (headers-IsLine from recipients subject h all) (tt, tt))
