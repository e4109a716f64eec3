-- ===== src/Base/Hex.antt =====
-- encoding/hex on bytes.
use Prim.Native.Nat.{ℕ, ◌+◌, ◌-◌, ◌*◌, ◌/◌, ◌%◌, ◌<◌}
use mathlib.Core.Path.{◌≡◌, refl, ap}
use mathlib.Core.List.{[], ◌∷◌}
use mathlib.Core.Bool.{true, false, ◌&&◌}
use mathlib.Core.Option.{Option, none, some}
use mathlib.Core.Logic.{◌≢◌, inl, inr}
use native.Mathlib.Omega.{arith}
use gghstats.Base.Tests.{ltb, leb, if◌then◌else◌, Bool-cases}
use gghstats.Base.Lists.{All}
use gghstats.Base.Text.{Text}

unfoldable pub hex_digit : ℕ → ℕ
hex_digit d = if ltb d 10 then b'0' + d else b'a' + (d - 10)

unfoldable pub hex_encode : Text → Text
hex_encode [] = []
hex_encode (b ∷ s) = hex_digit (b / 16) ∷ hex_digit (b % 16) ∷ hex_encode s

unfoldable pub hex_value : ℕ → Option ℕ
hex_value c =
    if leb b'0' c && leb c b'9'
    then some (c - b'0')
    else if leb b'a' c && leb c b'f'
    then some (c - b'a' + 10)
    else if leb b'A' c && leb c b'F'
    then some (c - b'A' + 10)
    else none

abbrev hex_cons : Option ℕ → Option ℕ → Option Text → Option Text
hex_cons (some h) (some l) (some s) = some ((h * 16 + l) ∷ s)
hex_cons (some h) (some l) none = none
hex_cons (some h) none s = none
hex_cons none l s = none

-- A text of an odd length is an error.
unfoldable pub hex_decode : Text → Option Text
hex_decode [] = some []
hex_decode (h ∷ []) = none
hex_decode (h ∷ l ∷ s) = hex_cons (hex_value h) (hex_value l) (hex_decode s)

hex_value-digit : (d : ℕ) → d < 16 → hex_value (hex_digit d) ≡ some d
unfolding hex_value hex_digit
hex_value-digit d h = elim (Bool-cases (ltb d 10)) [
  | inl e ↦
      let low : leb b'0' (b'0' + d) ≡ true = ground arith in
      let high : leb (b'0' + d) b'9' ≡ true = ground arith in
      let same : b'0' + d - b'0' ≡ d = omega arith in rw (e, low, high) (ap some same)
  | inr e ↦
      let high : leb (b'a' + (d - 10)) b'9' ≡ false = ground arith in
      let low : leb b'0' (b'a' + (d - 10)) ≡ true = ground arith in
      let from : leb b'a' (b'a' + (d - 10)) ≡ true = ground arith in
      let to : leb (b'a' + (d - 10)) b'f' ≡ true = ground arith in
      let same : b'a' + (d - 10) - b'a' + 10 ≡ d = ground arith in
      rw (e, low, high, from, to) (ap some same)
]

-- Bytes are read back from their text.
pub hex_decode-encode : (s : Text) → All (λ b. b < 256) s → hex_decode (hex_encode s) ≡ some s
unfolding hex_decode hex_encode
hex_decode-encode [] h = refl
hex_decode-encode (b ∷ s) (p, h) =
    let join : b / 16 * 16 + b % 16 ≡ b = omega arith in
    rw
      (
        hex_value-digit (b / 16) (omega arith),
        hex_value-digit (b % 16) (omega arith),
        hex_decode-encode s h,
      )
      (ap (λ c. some (c ∷ s)) join)

hex_digit-apart : (sep d : ℕ) → sep < b'0' → hex_digit d ≢ sep
unfolding hex_digit
hex_digit-apart sep d h = ground (arith, h)

-- The text has no character below the digits.
pub hex_encode-apart : (sep : ℕ) → sep < b'0' → (s : Text) → All (λ c. c ≢ sep) (hex_encode s)
unfolding hex_encode
hex_encode-apart sep h [] = tt
hex_encode-apart sep h (b ∷ s) =
    (hex_digit-apart sep (b / 16) h, (hex_digit-apart sep (b % 16) h, hex_encode-apart sep h s))
