-- ===== src/Base/Sort.antt =====
-- Ascending order by a numeric key, as `sort.Slice` leaves it: an insertion sort, with what any
-- sorting function keeps.
use Prim.Native.Nat.{ℕ, suc, ◌≤◌}
use mathlib.Core.Path.{◌≡◌, refl}
use mathlib.Core.Bool.{Bool}
use mathlib.Core.List.{List, [], ◌∷◌}
use mathlib.Core.Logic.{inl, inr}
use native.Mathlib.Omega.{arith}
use gghstats.Base.Tests.{leb, if◌then◌else◌, Bool-cases}
use gghstats.Base.Lists.{any, count, All, length}

module _ {ℓ} {A : Type ℓ} (key : A → ℕ) where
  insert_by : A → List A → List A
  insert_by a [] = a ∷ []
  insert_by a (x ∷ xs) =
      let rest = insert_by a xs in if leb (key a) (key x) then a ∷ x ∷ xs else x ∷ rest

  unfoldable pub sort_by : List A → List A
  unfolding insert_by
  sort_by [] = []
  sort_by (x ∷ xs) = insert_by x (sort_by xs)

  -- Each key is at most those behind it.
  abbrev pub IsAscending : List A → Type ℓ
  IsAscending [] = Unit
  IsAscending (x ∷ xs) = All (λ y. key x ≤ key y) xs × IsAscending xs

  insert_by-All :
      (k : ℕ) (a : A) (xs : List A)
      → k ≤ key a
      → All (λ y. k ≤ key y) xs
      → All (λ y. k ≤ key y) (insert_by a xs)
  unfolding insert_by
  insert_by-All k a [] h hs = (h, tt)
  insert_by-All k a (x ∷ xs) h hs = elim (Bool-cases (leb (key a) (key x))) [
    | inl e ↦ rw e (h, hs)
    | inr e ↦ rw e (hs.0, insert_by-All k a xs h hs.1)
  ]

  All-trans : (j k : ℕ) (xs : List A) → j ≤ k → All (λ y. k ≤ key y) xs → All (λ y. j ≤ key y) xs
  All-trans j k [] h hs = tt
  All-trans j k (x ∷ xs) h hs = (omega arith, All-trans j k xs h hs.1)

  insert_by-IsAscending : (a : A) (xs : List A) → IsAscending xs → IsAscending (insert_by a xs)
  unfolding insert_by
  insert_by-IsAscending a [] h = (tt, tt)
  insert_by-IsAscending a (x ∷ xs) h = elim (Bool-cases (leb (key a) (key x))) [
    | inl e ↦ rw e (((ground arith), All-trans (key a) (key x) xs (ground arith) h.0), h)
    | inr e ↦ rw e (insert_by-All (key x) a xs (ground arith) h.0, insert_by-IsAscending a xs h.1)
  ]

  pub sort_by-IsAscending : (xs : List A) → IsAscending (sort_by xs)
  unfolding sort_by
  sort_by-IsAscending [] = tt
  sort_by-IsAscending (x ∷ xs) = insert_by-IsAscending x (sort_by xs) (sort_by-IsAscending xs)

  count-insert_by :
      (p : A → Bool) (a : A) (xs : List A) → count p (insert_by a xs) ≡ count p (a ∷ xs)
  unfolding insert_by
  count-insert_by p a [] = refl
  count-insert_by p a (x ∷ xs) = ground (arith, count-insert_by p a xs)

  pub count-sort_by : (p : A → Bool) (xs : List A) → count p (sort_by xs) ≡ count p xs
  unfolding sort_by
  count-sort_by p [] = refl
  count-sort_by p (x ∷ xs) = ground (arith, count-insert_by p x (sort_by xs), count-sort_by p xs)

  any-insert_by : (p : A → Bool) (a : A) (xs : List A) → any p (insert_by a xs) ≡ any p (a ∷ xs)
  unfolding insert_by
  any-insert_by p a [] = refl
  any-insert_by p a (x ∷ xs) = ground (arith, any-insert_by p a xs)

  pub any-sort_by : (p : A → Bool) (xs : List A) → any p (sort_by xs) ≡ any p xs
  unfolding sort_by
  any-sort_by p [] = refl
  any-sort_by p (x ∷ xs) = ground (arith, any-insert_by p x (sort_by xs), any-sort_by p xs)

  length-insert_by : (a : A) (xs : List A) → length (insert_by a xs) ≡ suc (length xs)
  unfolding insert_by
  length-insert_by a [] = refl
  length-insert_by a (x ∷ xs) = ground (arith, length-insert_by a xs)

  pub length-sort_by : (xs : List A) → length (sort_by xs) ≡ length xs
  unfolding sort_by
  length-sort_by [] = refl
  length-sort_by (x ∷ xs) = ground (arith, length-insert_by x (sort_by xs), length-sort_by xs)

-- Sorting by a Boolean comparison.
module _ {ℓ} {A : Type ℓ} (less : A → A → Bool) where
  insert_with : A → List A → List A
  insert_with a [] = a ∷ []
  insert_with a (x ∷ xs) = let rest = insert_with a xs in if less a x then a ∷ x ∷ xs else x ∷ rest

  unfoldable pub sort_with : List A → List A
  unfolding insert_with
  sort_with [] = []
  sort_with (x ∷ xs) = insert_with x (sort_with xs)
