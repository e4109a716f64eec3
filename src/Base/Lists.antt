-- ===== src/Base/Lists.antt =====
-- Lists measured and tested over the native numbers and `Bool`, under the library's names, and
-- membership and validity of all items as families that compute.
use Prim.Native.Nat.{ℕ, suc, ◌+◌, ◌≤◌}
use mathlib.Core.Path.{◌≡◌, refl}
use mathlib.Core.Logic.{◌⊎◌, inl, inr}
use mathlib.Core.Bool.{Bool, true, false, ◌||◌}
use mathlib.Core.List.{List, [], ◌∷◌, ◌++◌}
use native.Mathlib.Omega.{arith}
use gghstats.Base.Tests.{if◌then◌else◌, Bool-cases}

module _ {ℓ} {A : Type ℓ} where
  abbrev pub length : List A → ℕ
  length [] = 0
  length (x ∷ xs) = suc (length xs)

  pub length-append : (xs ys : List A) → length (xs ++ ys) ≡ length xs + length ys
  length-append [] ys = omega arith
  length-append (x ∷ xs) ys = omega (arith, length-append xs ys)

  -- `filter` by a Boolean test.
  abbrev pub keep : (A → Bool) → List A → List A
  keep p [] = []
  keep p (x ∷ xs) = let rest = keep p xs in if p x then x ∷ rest else rest

  abbrev pub any : (A → Bool) → List A → Bool
  any p [] = false
  any p (x ∷ xs) = p x || any p xs

  -- The number of items that pass a test.
  abbrev pub count : (A → Bool) → List A → ℕ
  count p [] = 0
  count p (x ∷ xs) = let rest = count p xs in if p x then suc rest else rest

  pub keep-append : (p : A → Bool) (xs ys : List A) → keep p (xs ++ ys) ≡ keep p xs ++ keep p ys
  keep-append p [] ys = refl
  keep-append p (x ∷ xs) ys = ground (arith, keep-append p xs ys)

  pub any-append : (p : A → Bool) (xs ys : List A) → any p (xs ++ ys) ≡ (any p xs || any p ys)
  any-append p [] ys = refl
  any-append p (x ∷ xs) ys = ground (arith, any-append p xs ys)

  pub count-append : (p : A → Bool) (xs ys : List A) → count p (xs ++ ys) ≡ count p xs + count p ys
  count-append p [] ys = omega arith
  count-append p (x ∷ xs) ys = ground (arith, count-append p xs ys)

  pub count-le-length : (p : A → Bool) (xs : List A) → count p xs ≤ length xs
  count-le-length p [] = omega arith
  count-le-length p (x ∷ xs) = ground (arith, count-le-length p xs)

-- Every item satisfies `P`; some item does.
-- `len(xs) == 0`.
unfoldable pub no_items {ℓ} : {A : Type ℓ} → List A → Bool
no_items [] = true
no_items (x ∷ xs) = false

abbrev pub All {ℓ κ} : {A : Type ℓ} → (A → Type κ) → List A → Type κ
All P [] = Unit
All P (x ∷ xs) = P x × All P xs

pub All-append {ℓ κ} :
    {A : Type ℓ} (P : A → Type κ) (xs ys : List A) → All P xs → All P ys → All P (xs ++ ys)
All-append P [] ys h k = k
All-append P (x ∷ xs) ys (p, h) k = (p, All-append P xs ys h k)

pub All-map {ℓ κ μ} :
    {A : Type ℓ} (P : A → Type κ) (Q : A → Type μ)
    → ((x : A) → P x → Q x)
    → (xs : List A) → All P xs
    → All Q xs
All-map P Q f [] h = tt
All-map P Q f (x ∷ xs) (p, h) = (f x p, All-map P Q f xs h)

abbrev pub Some {ℓ} : {A : Type ℓ} → (A → Type 0) → List A → Type 0
Some P [] = ⊥
Some P (x ∷ xs) = P x ⊎ Some P xs

abbrev pub In : {A : Type 0} → A → List A → Type 0
In a = Some (λ x. x ≡ a)

-- Membership in the list that a test leaves.
pub In-keep_sound :
    {A : Type 0} (p : A → Bool) (a : A) (xs : List A) → In a (keep p xs) → In a xs × (p a ≡ true)
In-keep_sound p a [] h = absurd h
In-keep_sound p a (x ∷ xs) h = elim (Bool-cases (p x)) [
  | inl e ↦ take_apart (In-keep_sound p a xs) e (rw e at h)
  | inr e ↦ drop_apart (In-keep_sound p a xs (rw e at h))
]
  where
    take_apart :
        ((In a (keep p xs) → In a xs × (p a ≡ true)))
        → p x ≡ true
        → (x ≡ a) ⊎ In a (keep p xs)
        → In a (x ∷ xs) × (p a ≡ true)
    take_apart ih e (inl q) = (inl q, rw (← q) e)
    take_apart ih e (inr m) = let r = ih m in (inr r.0, r.1)

    drop_apart : In a xs × (p a ≡ true) → In a (x ∷ xs) × (p a ≡ true)
    drop_apart (m, e) = (inr m, e)

pub In-keep_complete :
    {A : Type 0} (p : A → Bool) (a : A) (xs : List A) → In a xs → p a ≡ true → In a (keep p xs)
In-keep_complete p a [] h e = h
In-keep_complete p a (x ∷ xs) (inl q) e = let t : p x ≡ true = rw q e in rw t (inl q)
In-keep_complete p a (x ∷ xs) (inr m) e = elim (Bool-cases (p x)) [
  | inl t ↦ rw t (inr (In-keep_complete p a xs m e))
  | inr f ↦ rw f (In-keep_complete p a xs m e)
]

-- A Boolean search decides whether some item satisfies a predicate that its test decides.
module _ {ℓ} {A : Type ℓ} (P : A → Type 0) (p : A → Bool) where
  pub any_sound : ((x : A) → p x ≡ true → P x) → (xs : List A) → any p xs ≡ true → Some P xs
  any_sound f [] h = cc
  any_sound f (x ∷ xs) h = elim (Bool-cases (p x)) [
    | inl e ↦ inl (f x e)
    | inr e ↦ inr (any_sound f xs (rw e at h))
  ]

  pub any_complete : ((x : A) → P x → p x ≡ true) → (xs : List A) → Some P xs → any p xs ≡ true
  any_complete f [] h = absurd h
  any_complete f (x ∷ xs) (inl h) = rw (f x h)
  any_complete f (x ∷ xs) (inr h) = ground (arith, any_complete f xs h)

pub count-none {ℓ} : {A : Type ℓ} (p : A → Bool) (xs : List A) → any p xs ≡ false → count p xs ≡ 0
count-none p [] h = refl
count-none p (x ∷ xs) h = ground (arith, count-none p xs)
