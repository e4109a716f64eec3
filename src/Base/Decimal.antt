-- ===== src/Base/Decimal.antt =====
-- strconv.Itoa of a number that is not negative, and what tells two of them apart.
use Prim.Native.Nat.{ℕ, zero, suc, ◌+◌, ◌-◌, ◌*◌, ◌/◌, ◌%◌, ◌<◌, ◌≤◌}
use mathlib.Core.Path.{◌≡◌, refl, sym, ap, ◌∙◌}
use mathlib.Core.List.{[], ◌∷◌, ◌++◌}
use mathlib.Core.Logic.{inl, inr}
use native.Mathlib.Omega.{arith}
use gghstats.Base.Tests.{ltb, leb, if◌then◌else◌, Bool-cases}
use mathlib.Core.Bool.{true, ◌&&◌}
use mathlib.Core.Option.{Option, none, some}
use gghstats.Base.Text.{Text}
use gghstats.Base.Lists.{All, All-append}

-- The digits, with fuel above the number.
unfoldable pub digits : ℕ → ℕ → Text
digits zero n = []
digits (suc f) n =
    let rest = digits f (n / 10) ++ (b'0' + n % 10) ∷ [] in
    if ltb n 10 then (b'0' + n) ∷ [] else rest

unfoldable pub itoa : ℕ → Text
unfolding digits
itoa n = digits (suc n) n

-- The number that digits spell behind `acc`.
value : ℕ → Text → ℕ
value acc [] = acc
value acc (c ∷ s) = value (acc * 10 + (c - b'0')) s

value-append : (s t : Text) (acc : ℕ) → value acc (s ++ t) ≡ value (value acc s) t
unfolding value
value-append [] t acc = refl
value-append (c ∷ s) t acc = value-append s t (acc * 10 + (c - b'0'))

value-digits : (f n : ℕ) → n < f → value 0 (digits f n) ≡ n
unfolding value digits
value-digits zero n h = absurd (omega arith)
value-digits (suc f) n h = elim (Bool-cases (ltb n 10)) [
  | inl e ↦ rw e (omega arith)
  | inr e ↦
      let ih = value-digits f (n / 10) (ground arith) in
      rw (e, value-append (digits f (n / 10)) ((b'0' + n % 10) ∷ []) 0, ih) (omega arith)
]

-- Two numbers with the same decimal are the same.
pub itoa-injective : (m n : ℕ) → itoa m ≡ itoa n → m ≡ n
unfolding itoa
itoa-injective m n e =
    sym (value-digits (suc m) m (omega arith))
    ∙ ap (value 0) e
    ∙ value-digits (suc n) n (omega arith)

-- The number that a text of digits spells, behind `acc`.
unfoldable pub number_from : ℕ → Text → Option ℕ
number_from acc [] = some acc
number_from acc (c ∷ s) =
    let rest = number_from (acc * 10 + (c - b'0')) s in
    if leb b'0' c && leb c b'9' then rest else none

-- A number without a sign: at least one digit, and nothing else.
unfoldable pub parse_digits : Text → Option ℕ
parse_digits [] = none
parse_digits (c ∷ s) = number_from 0 (c ∷ s)

number_from-append :
    (s t : Text) (acc n : ℕ)
    → number_from acc s ≡ some n
    → number_from acc (s ++ t) ≡ number_from n t
unfolding number_from
number_from-append [] t acc n h = ground (arith, h)
number_from-append (c ∷ s) t acc n h =
    ground (arith, h, number_from-append s t (acc * 10 + (c - b'0')) n)

number_from-digit :
    (acc d n : ℕ) → d < 10 → acc * 10 + d ≡ n → number_from acc ((b'0' + d) ∷ []) ≡ some n
unfolding number_from
number_from-digit acc d n h e =
    let low : leb b'0' (b'0' + d) ≡ true = ground arith in
    let high : leb (b'0' + d) b'9' ≡ true = ground arith in
    let same : acc * 10 + (b'0' + d - b'0') ≡ n = omega arith in rw (low, high) (ap some same)

number_from-digits : (f n : ℕ) → n < f → number_from 0 (digits f n) ≡ some n
unfolding number_from digits
number_from-digits zero n h = absurd (omega arith)
number_from-digits (suc f) n h = elim (Bool-cases (ltb n 10)) [
  | inl e ↦ rw e (number_from-digit 0 n n (ground arith) (omega arith))
  | inr e ↦
      let ih = number_from-digits f (n / 10) (ground arith) in
      rw (e, number_from-append (digits f (n / 10)) ((b'0' + n % 10) ∷ []) 0 (n / 10) ih)
        (number_from-digit (n / 10) (n % 10) n (omega arith) (omega arith))
]

digits-cons : (f n : ℕ) → n < f → (c : ℕ) × (s : Text) × (digits f n ≡ c ∷ s)
unfolding digits
digits-cons zero n h = absurd (omega arith)
digits-cons (suc f) n h = elim (Bool-cases (ltb n 10)) [
  | inl e ↦ (b'0' + n, [], rw e refl)
  | inr e ↦
      let (c, s, ih) = digits-cons f (n / 10) (ground arith) in
      (c, s ++ (b'0' + n % 10) ∷ [], rw (e, ih) refl)
]

-- A number is read back from its decimal.
pub parse_digits-itoa : (n : ℕ) → parse_digits (itoa n) ≡ some n
unfolding parse_digits itoa
parse_digits-itoa n =
    let (c, s, e) = digits-cons (suc n) n (omega arith) in
    rw e (ap (number_from 0) (sym e) ∙ number_from-digits (suc n) n (omega arith))

pub itoa-cons : (n : ℕ) → (c : ℕ) × (s : Text) × (itoa n ≡ c ∷ s)
unfolding itoa
itoa-cons n = digits-cons (suc n) n (omega arith)

abbrev pub IsDigit : ℕ → Type 0
IsDigit c = (b'0' ≤ c) × (c ≤ b'9')

digits-IsDigit : (f n : ℕ) → All IsDigit (digits f n)
unfolding digits
digits-IsDigit zero n = tt
digits-IsDigit (suc f) n = elim (Bool-cases (ltb n 10)) [
  | inl e ↦ rw e ((omega arith, ground arith), tt)
  | inr e ↦ rw e (
      All-append IsDigit (digits f (n / 10)) _ (digits-IsDigit f (n / 10))
        ((omega arith, omega arith), tt))
]

pub itoa-IsDigit : (n : ℕ) → All IsDigit (itoa n)
unfolding itoa
itoa-IsDigit n = digits-IsDigit (suc n) n
