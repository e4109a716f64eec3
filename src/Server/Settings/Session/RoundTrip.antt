-- ===== src/Server/Settings/Session/RoundTrip.antt =====
-- A session that the server issued.
use gghstats.Base.{
  ℕ, ◌^◌, ◌<◌, false, ◌==◌, ltb, [], ◌∷◌, ◌++◌, some, All, ◌≡◌, ◌≢◌, refl, sym, ap, ◌∙◌, arith,
  append_assoc, subst, All-map,
}
use gghstats.Base.Text.{Text, lit, text_eq_refl, is_empty, split}
use gghstats.Base.Text.Split.{split-append, split_one}
use gghstats.Base.Decimal.{itoa, itoa-cons, IsDigit, itoa-IsDigit, parse_digits, parse_digits-itoa}
use gghstats.Base.Hex.{hex_encode, hex_decode, hex_decode-encode, hex_encode-apart}
use gghstats.Server.Settings.Session.{
  in_range, parse_seconds, new_settings_session_value, valid_parts, valid_settings_session,
}

parse_seconds-itoa : (n : ℕ) → n < 2 ^ 63 → parse_seconds (itoa n) ≡ some n
unfolding parse_seconds in_range
parse_seconds-itoa n h =
    let (c, s, e) = itoa-cons n in
    let plain : (c == b'+') ≡ false =
      let d : All IsDigit (c ∷ s) = subst (All IsDigit) e (itoa-IsDigit n) in
      let low = d.0.0 in ground (arith, low) in
    rw e
      (rw plain (ap in_range (ap parse_digits (sym e) ∙ parse_digits-itoa n) ∙ ground (arith, h)))

itoa-apart : (n : ℕ) → All (λ c. c ≢ b'.') (itoa n)
itoa-apart n =
    All-map IsDigit (λ c. c ≢ b'.') (λ c d e. absurd (omega arith)) (itoa n) (itoa-IsDigit n)

-- Two dots in the middle of parts without dots.
split_three :
    (a b c : Text)
    → All (λ x. x ≢ b'.') a
    → All (λ x. x ≢ b'.') b
    → All (λ x. x ≢ b'.') c
    → split b'.' ((a ++ (lit "." ++ b)) ++ (lit "." ++ c)) ≡ a ∷ b ∷ c ∷ []
split_three a b c ha hb hc =
    ap (split b'.') (append_assoc a (lit "." ++ b) (lit "." ++ c))
    ∙ split-append b'.' a (b ++ (lit "." ++ c))
    ∙ rw (split-append b'.' b c, split_one b'.' a ha, split_one b'.' b hb, split_one b'.' c hc) refl

not_empty : (a b c : Text) → (d : ℕ) × (s : Text) × (a ≡ d ∷ s) → is_empty ((a ++ b) ++ c) ≡ false
unfolding is_empty
not_empty a b c (d, s, e) = rw e refl

module _ (hmac : Text → Text → Text) where
  valid_parts-mac :
      (first second third token mac : Text) (expires now : ℕ)
      → parse_seconds first ≡ some expires
      → hex_decode third ≡ some mac
      → mac ≡ hmac token (lit "gghstats/settings-session/v1:" ++ (first ++ (lit "." ++ second)))
      → valid_parts hmac token now (first ∷ second ∷ third ∷ []) ≡ ltb now expires
  unfolding valid_parts
  valid_parts-mac first second third token mac expires now p d same =
      let eq = text_eq_refl mac in ground (arith, p, d, same, eq)

  -- A session that the server issued is valid until the second in which it expires, and not from
  -- then on, for the token that it was issued for: provided that a mac is a sequence of bytes, and
  -- that the time fits 63 bits.
  pub valid_settings_session-issued :
      (token nonce : Text) (expires now : ℕ)
      → ((k m : Text) → All (λ b. b < 256) (hmac k m))
      → expires < 2 ^ 63
      → valid_settings_session hmac (new_settings_session_value hmac token expires nonce) token now
        ≡ ltb now expires
  unfolding valid_settings_session new_settings_session_value
  valid_settings_session-issued token nonce expires now bytes h =
      let payload = itoa expires ++ (lit "." ++ hex_encode nonce) in
      let mac = hmac token ((lit "gghstats/settings-session/v1:") ++ payload) in
      let parts =
        split_three (itoa expires) (hex_encode nonce) (hex_encode mac) (itoa-apart expires)
          (hex_encode-apart b'.' (omega arith) nonce) (hex_encode-apart b'.' (omega arith) mac) in
      let some_text =
        not_empty (itoa expires) (lit "." ++ hex_encode nonce) (lit "." ++ hex_encode mac)
          (itoa-cons expires) in
      rw (some_text, parts)
        (valid_parts-mac (itoa expires) (hex_encode nonce) (hex_encode mac) token mac expires now
          (parse_seconds-itoa expires h) (hex_decode-encode mac (bytes _ _)) refl)
