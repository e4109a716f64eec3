-- ===== src/Store/Table.antt =====
-- The statements of SQL on a list of rows: INSERT with ON CONFLICT, UPDATE, DELETE and SELECT by
-- a Boolean key test.
use gghstats.Base.{
  Bool, true, false, List, [], ◌∷◌, Option, none, some, if◌then◌else◌, ◌≡◌, refl, arith, any, keep,
  not, Bool-cases, inl, inr,
}

module _ {ℓ} {A : Type ℓ} where
  -- The first row that a test accepts.
  unfoldable pub find_row : (A → Bool) → List A → Option A
  find_row p [] = none
  find_row p (x ∷ xs) = let rest = find_row p xs in if p x then some x else rest

  -- INSERT of a row, or its update where the key is present already.
  unfoldable pub upsert : (A → Bool) → (A → A) → A → List A → List A
  upsert p f a [] = a ∷ []
  upsert p f a (x ∷ xs) = let rest = upsert p f a xs in if p x then f x ∷ xs else x ∷ rest

  -- UPDATE ... WHERE.
  unfoldable pub update_where : (A → Bool) → (A → A) → List A → List A
  update_where p f [] = []
  update_where p f (x ∷ xs) = (if p x then f x else x) ∷ update_where p f xs

  -- DELETE ... WHERE.
  unfoldable pub delete_where : (A → Bool) → List A → List A
  delete_where p = keep (λ x. not (p x))

  -- What a key finds after an upsert of it.
  abbrev pub upserted : (A → A) → A → Option A → A
  upserted f a none = a
  upserted f a (some r) = f r

  pub find_row-upsert_self :
      (p : A → Bool) (f : A → A) (a : A)
      → p a ≡ true
      → ((r : A) → p r ≡ true → p (f r) ≡ true)
      → (xs : List A) → find_row p (upsert p f a xs) ≡ some (upserted f a (find_row p xs))
  unfolding find_row upsert
  find_row-upsert_self p f a own stays [] = rw own
  find_row-upsert_self p f a own stays (x ∷ xs) =
      ground (arith, stays x, find_row-upsert_self p f a own stays xs)

  pub find_row-upsert_other :
      (q p : A → Bool) (f : A → A) (a : A)
      → q a ≡ false
      → ((r : A) → p r ≡ true → q r ≡ false)
      → ((r : A) → p r ≡ true → q (f r) ≡ false)
      → (xs : List A) → find_row q (upsert p f a xs) ≡ find_row q xs
  unfolding find_row upsert
  find_row-upsert_other q p f a new old stays [] = rw new
  find_row-upsert_other q p f a new old stays (x ∷ xs) =
      ground (arith, old x, stays x, find_row-upsert_other q p f a new old stays xs)

  pub find_row-delete_self : (p : A → Bool) (xs : List A) → find_row p (delete_where p xs) ≡ none
  unfolding find_row delete_where
  find_row-delete_self p [] = refl
  find_row-delete_self p (x ∷ xs) = ground (arith, find_row-delete_self p xs)

  pub find_row-delete_other :
      (q p : A → Bool)
      → ((r : A) → p r ≡ true → q r ≡ false)
      → (xs : List A) → find_row q (delete_where p xs) ≡ find_row q xs
  unfolding find_row delete_where
  find_row-delete_other q p apart [] = refl
  find_row-delete_other q p apart (x ∷ xs) =
      ground (arith, apart x, find_row-delete_other q p apart xs)

  -- What a key finds after an update of it that keeps the key.
  pub find_row-update_self :
      (p : A → Bool) (f : A → A)
      → ((r : A) → p (f r) ≡ p r)
      → (xs : List A)
      → find_row p (update_where p f xs)
        ≡ elim (find_row p xs) [ none ↦ none | some r ↦ some (f r) ]
  unfolding find_row update_where
  find_row-update_self p f stays [] = refl
  find_row-update_self p f stays (x ∷ xs) =
      ground (arith, stays x, find_row-update_self p f stays xs)

  -- The same for another key test that the update keeps.
  pub find_row-update :
      (q p : A → Bool) (f : A → A)
      → ((r : A) → q (f r) ≡ q r)
      → (xs : List A)
      → find_row q (update_where p f xs)
        ≡ elim (find_row q xs) [ none ↦ none | some r ↦ some (if p r then f r else r) ]
  unfolding find_row update_where
  find_row-update q p f stays [] = refl
  find_row-update q p f stays (x ∷ xs) = ground (arith, stays x, find_row-update q p f stays xs)

  -- A found row passes the test.
  pub find_row-passes : (q : A → Bool) (xs : List A) (r : A) → find_row q xs ≡ some r → q r ≡ true
  unfolding find_row
  find_row-passes q [] r h = cc
  find_row-passes q (x ∷ xs) r h = elim (Bool-cases (q x)) [
    | inl e ↦ let same : x ≡ r = ground arith in rw (← same) e
    | inr e ↦ find_row-passes q xs r (ground arith)
  ]

  pub any-upsert_self :
      (q p : A → Bool) (f : A → A) (a : A)
      → q a ≡ true
      → ((r : A) → p r ≡ true → q (f r) ≡ true)
      → (xs : List A) → any q (upsert p f a xs) ≡ true
  unfolding upsert
  any-upsert_self q p f a own stays [] = rw own
  any-upsert_self q p f a own stays (x ∷ xs) =
      ground (arith, stays x, any-upsert_self q p f a own stays xs)

  pub any-upsert_other :
      (q p : A → Bool) (f : A → A) (a : A)
      → q a ≡ false
      → ((r : A) → p r ≡ true → q r ≡ false)
      → ((r : A) → p r ≡ true → q (f r) ≡ false)
      → (xs : List A) → any q (upsert p f a xs) ≡ any q xs
  unfolding upsert
  any-upsert_other q p f a new old stays [] = rw new
  any-upsert_other q p f a new old stays (x ∷ xs) =
      ground (arith, old x, stays x, any-upsert_other q p f a new old stays xs)

  pub any-delete_self :
      (q p : A → Bool)
      → ((r : A) → p r ≡ false → q r ≡ false)
      → (xs : List A) → any q (delete_where p xs) ≡ false
  unfolding delete_where
  any-delete_self q p apart [] = refl
  any-delete_self q p apart (x ∷ xs) = ground (arith, apart x, any-delete_self q p apart xs)

  pub any-delete_other :
      (q p : A → Bool)
      → ((r : A) → p r ≡ true → q r ≡ false)
      → (xs : List A) → any q (delete_where p xs) ≡ any q xs
  unfolding delete_where
  any-delete_other q p apart [] = refl
  any-delete_other q p apart (x ∷ xs) = ground (arith, apart x, any-delete_other q p apart xs)
