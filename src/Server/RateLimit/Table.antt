-- ===== src/Server/RateLimit/Table.antt =====
-- A table where each key stands once keeps so, and loses a key only when its row goes.
use gghstats.Base.{
  ◌≤◌, Bool, true, false, if◌then◌else◌, List, [], ◌∷◌, Option, none, some, count, ◌≡◌, refl, arith,
  Bool-cases, inl, inr,
}
use gghstats.Store.Table.{find_row, upsert, update_where, delete_where}

module _ {ℓ} {A : Type ℓ} where
  pub count-upsert_self :
      (p : A → Bool) (f : A → A) (a : A)
      → p a ≡ true
      → ((r : A) → p r ≡ true → p (f r) ≡ true)
      → (xs : List A) → count p xs ≤ 1
      → count p (upsert p f a xs) ≤ 1
  unfolding upsert
  count-upsert_self p f a own stays [] h = ground (arith, own)
  count-upsert_self p f a own stays (x ∷ xs) h = elim (Bool-cases (p x)) [
    | inl e ↦ ground (arith, e, stays x)
    | inr e ↦ ground (arith, e, count-upsert_self p f a own stays xs)
  ]

  pub count-upsert_other :
      (q p : A → Bool) (f : A → A) (a : A)
      → q a ≡ false
      → ((r : A) → q (f r) ≡ q r)
      → (xs : List A) → count q (upsert p f a xs) ≡ count q xs
  unfolding upsert
  count-upsert_other q p f a new same [] = ground (arith, new)
  count-upsert_other q p f a new same (x ∷ xs) =
      ground (arith, same x, count-upsert_other q p f a new same xs)

  pub count-update :
      (q p : A → Bool) (f : A → A)
      → ((r : A) → q (f r) ≡ q r)
      → (xs : List A) → count q (update_where p f xs) ≡ count q xs
  unfolding update_where
  count-update q p f same [] = refl
  count-update q p f same (x ∷ xs) = ground (arith, same x, count-update q p f same xs)

  pub count-delete : (q p : A → Bool) (xs : List A) → count q (delete_where p xs) ≤ count q xs
  unfolding delete_where
  count-delete q p [] = ground arith
  count-delete q p (x ∷ xs) = ground (arith, count-delete q p xs)

  find_row-absent :
      (q p : A → Bool) (xs : List A) → count q xs ≡ 0 → find_row q (delete_where p xs) ≡ none
  unfolding find_row delete_where
  find_row-absent q p [] h = refl
  find_row-absent q p (x ∷ xs) h = ground (arith, find_row-absent q p xs)

  -- What remains of a found row.
  abbrev pub left_of : (A → Bool) → Option A → Option A
  left_of p none = none
  left_of p (some r) = if p r then none else some r

  pub find_row-delete :
      (q p : A → Bool) (xs : List A)
      → count q xs ≤ 1
      → find_row q (delete_where p xs) ≡ left_of p (find_row q xs)
  unfolding find_row delete_where
  find_row-delete q p [] h = refl
  find_row-delete q p (x ∷ xs) h = elim (Bool-cases (q x)) [
    | inl e ↦
        let none_left = find_row-absent q p xs (ground (arith, e)) in ground (arith, e, none_left)
    | inr e ↦ ground (arith, e, find_row-delete q p xs)
  ]

  -- An update of another key is not seen.
  pub find_row-update_other :
      (q p : A → Bool) (f : A → A)
      → ((r : A) → p r ≡ true → q r ≡ false)
      → ((r : A) → q (f r) ≡ q r)
      → (xs : List A) → find_row q (update_where p f xs) ≡ find_row q xs
  unfolding find_row update_where
  find_row-update_other q p f away same [] = refl
  find_row-update_other q p f away same (x ∷ xs) =
      ground (arith, away x, same x, find_row-update_other q p f away same xs)
