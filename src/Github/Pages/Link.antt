-- ===== src/Github/Pages/Link.antt =====
-- The next page of a header Link, read back.
use gghstats.Base.{
  ℕ, suc, ◌+◌, ◌-◌, ◌≤◌, true, false, not, ◌&&◌, ◌==◌, ltb, List, [], ◌∷◌, ◌++◌, length, any, some,
  All, ◌≡◌, ◌≢◌, refl, sym, ap, subst, ◌∙◌, arith, Bool-cases, inl, inr,
}
use gghstats.Base.Text.{Text, lit, is_empty, has_prefix, drop_front}
use gghstats.I18n.{before, behind, found}
use gghstats.Github.Pages.{skip_blanks, is_next, next_url, path_from, next_page_path}

-- A link as GitHub writes it, and several of them.
abbrev pub format_link : Text → Text → Text → Text
format_link url rel rest = b'<' ∷ (url ++ (b'>' ∷ (lit "; rel=\"" ++ (rel ++ (b'"' ∷ rest)))))

abbrev pub format_links : List (Text × Text) → Text
format_links [] = []
format_links ((url, rel) ∷ []) = format_link url rel []
format_links ((url, rel) ∷ l ∷ ls) = format_link url rel (lit ", " ++ format_links (l ∷ ls))

-- A text without a character.
abbrev pub Lacks : ℕ → Text → Type 0
Lacks c s = All (λ d. d ≢ c) s

-- A link to another page.
abbrev pub IsOther : Text × Text → Type 0
IsOther (url, rel) =
    Lacks b'<' url × Lacks b'>' url × Lacks b'<' rel × Lacks b'"' rel × (rel ≢ lit "next")

next_url-skip : (s t : Text) → Lacks b'<' s → next_url (s ++ t) ≡ next_url t
unfolding next_url
next_url-skip [] t h = refl
next_url-skip (c ∷ s) t (p, h) =
    let apart : (c == b'<') ≡ false = ground (arith, p) in rw apart (next_url-skip s t h)

cut :
    (u w : Text)
    → Lacks b'>' u
    → (before b'>' (u ++ b'>' ∷ w) ≡ u)
      × (behind b'>' (u ++ b'>' ∷ w) ≡ w)
      × (found b'>' (u ++ b'>' ∷ w) ≡ true)
unfolding before behind found
cut [] w h = (refl, refl, refl)
cut (c ∷ u) w (p, h) =
    let apart : (c == b'>') ≡ false = ground (arith, p) in
    let (b, d, f) = cut u w h in (rw (apart, b) refl, rw (apart, d) refl, rw (apart, f) refl)

quoted-eq :
    (r x tail : Text)
    → Lacks b'"' r
    → Lacks b'"' x
    → has_prefix (r ++ b'"' ∷ tail) (x ++ b'"' ∷ []) ≡ true
    → r ≡ x
unfolding has_prefix
quoted-eq [] [] tail h k e = refl
quoted-eq [] (y ∷ x) tail h (p, k) e = absurd (ground (arith, p, e))
quoted-eq (c ∷ r) [] tail (p, h) k e = absurd (ground (arith, p, e))
quoted-eq (c ∷ r) (y ∷ x) tail (p, h) (q, k) e =
    let same : c ≡ y = ground (arith, e) in
    let rest = quoted-eq r x tail h k (ground (arith, e)) in rw (same, rest) refl

next_url-here :
    (u w : Text)
    → Lacks b'>' u
    → is_empty u ≡ false
    → is_next w ≡ true
    → next_url (b'<' ∷ (u ++ b'>' ∷ w)) ≡ some u
unfolding next_url
next_url-here u w h full n = let (b, d, f) = cut u w h in rw (f, b, d, full, n) refl

next_url-past :
    (u w : Text)
    → Lacks b'>' u
    → is_next w ≡ false
    → next_url (b'<' ∷ (u ++ b'>' ∷ w)) ≡ next_url (u ++ b'>' ∷ w)
unfolding next_url
next_url-past u w h n =
    let (b, d, f) = cut u w h in
    let e : (found b'>' (u ++ b'>' ∷ w)
          && not (is_empty (before b'>' (u ++ b'>' ∷ w)))
          && is_next (behind b'>' (u ++ b'>' ∷ w)))
        ≡ false =
      rw (d, n) (ground arith) in
    rw e refl

pub any-Lacks : (c : ℕ) (s : Text) → any (λ d. d == c) s ≡ false → Lacks c s
any-Lacks c [] h = tt
any-Lacks c (d ∷ s) h = ((λ q. absurd (ground (arith, q, h))), any-Lacks c s (ground (arith, h)))

is_next-rel :
    (rel rest : Text)
    → is_next (lit "; rel=\"" ++ (rel ++ (b'"' ∷ rest)))
      ≡ has_prefix (rel ++ b'"' ∷ rest) (lit "next\"")
unfolding is_next skip_blanks has_prefix
is_next-rel rel rest = refl

is_next-other :
    (rel rest : Text)
    → Lacks b'"' rel
    → rel ≢ lit "next"
    → is_next (lit "; rel=\"" ++ (rel ++ (b'"' ∷ rest))) ≡ false
is_next-other rel rest h apart =
    elim (Bool-cases (has_prefix (rel ++ b'"' ∷ rest) (lit "next\""))) [
      | inl e ↦
          absurd (apart (quoted-eq rel (lit "next") rest h (any-Lacks b'"' (lit "next") refl) e))
      | inr e ↦ is_next-rel rel rest ∙ e
    ]

next_url-other :
    (url rel rest : Text) → IsOther (url, rel) → next_url (format_link url rel rest) ≡ next_url rest
next_url-other url rel rest (a, b, c, d, apart) =
    next_url-past url (lit "; rel=\"" ++ (rel ++ (b'"' ∷ rest))) b (is_next-other rel rest d apart)
    ∙ next_url-skip url _ a
    ∙ next_url-skip (lit ">; rel=\"") (rel ++ (b'"' ∷ rest)) (any-Lacks b'<' (lit ">; rel=\"") refl)
    ∙ next_url-skip rel (b'"' ∷ rest) c
    ∙ next_url-skip (lit "\"") rest (any-Lacks b'<' (lit "\"") refl)

format-cons :
    (url rel : Text) (x : Text × Text) (ls post : List (Text × Text))
    → format_links ((url, rel) ∷ (ls ++ x ∷ post))
      ≡ format_link url rel (lit ", " ++ format_links (ls ++ x ∷ post))
format-cons url rel x [] post = refl
format-cons url rel x (l ∷ ls) post = refl

next_url-next :
    (url rest : Text)
    → Lacks b'>' url
    → is_empty url ≡ false
    → next_url (format_link url (lit "next") rest) ≡ some url
unfolding has_prefix
next_url-next url rest h full =
    next_url-here url (lit "; rel=\"" ++ (lit "next" ++ (b'"' ∷ rest))) h full
      (is_next-rel (lit "next") rest ∙ refl)

next_url-links :
    (pre post : List (Text × Text)) (url : Text)
    → All IsOther pre
    → Lacks b'>' url
    → is_empty url ≡ false
    → next_url (format_links (pre ++ (url, lit "next") ∷ post)) ≡ some url
next_url-links [] [] url all h full = next_url-next url [] h full
next_url-links [] (l ∷ post) url all h full =
    next_url-next url (lit ", " ++ format_links (l ∷ post)) h full
next_url-links ((u, rel) ∷ pre) post url (other, all) h full =
    let more = format_links (pre ++ (url, lit "next") ∷ post) in
    ap next_url (format-cons u rel (url, lit "next") pre post)
    ∙ next_url-other u rel (lit ", " ++ more) other
    ∙ next_url-skip (lit ", ") more (any-Lacks b'<' (lit ", ") refl)
    ∙ next_url-links pre post url all h full

host-full : (host path : Text) → is_empty (host ++ b'/' ∷ path) ≡ false
unfolding is_empty
host-full [] path = refl
host-full (c ∷ host) path = refl

path_from-host :
    (i : ℕ) (host path : Text)
    → 9 ≤ i + length host
    → Lacks b'/' (drop_front (9 - i) host)
    → path_from i (host ++ b'/' ∷ path) ≡ b'/' ∷ path
unfolding path_from drop_front
path_from-host i [] path long h = let late : ltb 8 i ≡ true = ground (arith, long) in rw late refl
path_from-host i (c ∷ host) path long h = elim (Bool-cases (ltb 8 i)) [
  | inl e ↦
      let none_left : 9 - i ≡ 0 = ground (arith, e) in
      let all : Lacks b'/' (c ∷ host) =
        subst (λ k. Lacks b'/' (drop_front k (c ∷ host))) none_left h in
      let p = all.0 in
      let apart : (c == b'/') ≡ false = ground (arith, p) in
      let left : 9 - suc i ≡ 0 = ground (arith, e) in
      rw apart (
        path_from-host (suc i) host path (omega arith)
          (subst (λ k. Lacks b'/' (drop_front k host)) (sym left) all.1))
  | inr e ↦
      let one : 9 - i ≡ suc (9 - suc i) = ground (arith, e) in
      let skip : (c == b'/' && ltb 8 i) ≡ false = ground (arith, e) in
      rw skip (
        path_from-host (suc i) host path (omega arith)
          (subst (λ k. Lacks b'/' (drop_front k (c ∷ host))) one h))
]

-- From the links of GitHub, written one after the other, the client reads the path of the one to the
-- next page, wherever it stands: provided that the links before it are to other pages, with URLs
-- without angle brackets, and that its URL is a host of nine characters or more, with no slash
-- behind the ninth, and a path.
pub next_page_path-links :
    (pre post : List (Text × Text)) (host path : Text)
    → All IsOther pre
    → Lacks b'>' (host ++ b'/' ∷ path)
    → 9 ≤ length host
    → Lacks b'/' (drop_front 9 host)
    → next_page_path (format_links (pre ++ (host ++ b'/' ∷ path, lit "next") ∷ post)) ≡ b'/' ∷ path
unfolding next_page_path
next_page_path-links pre post host path all h long apart =
    let url = next_url-links pre post (host ++ b'/' ∷ path) all h (host-full host path) in
    rw (next_page_path, url) (path_from-host 0 host path (omega arith) apart)
