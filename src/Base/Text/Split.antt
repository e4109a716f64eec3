-- ===== src/Base/Text/Split.antt =====
-- Laws of `split`.
use gghstats.Base.Text.{Text, split}
use gghstats.Base.Tests.{◌==◌, Bool-cases}
use Prim.Native.Nat.{ℕ}
use mathlib.Core.Path.{◌≡◌, refl}
use mathlib.Core.Logic.{◌≢◌, inl, inr}
use mathlib.Core.List.{List, [], ◌∷◌, ◌++◌}
use native.Mathlib.Omega.{arith}
use gghstats.Base.Lists.{All}

module _ (sep : ℕ) where
  split-cons : (s : Text) → (p : Text) × (ps : List Text) × (split sep s ≡ p ∷ ps)
  unfolding split
  split-cons [] = ([], [], refl)
  split-cons (c ∷ s) =
      let (p, ps, e) = split-cons s in
      elim (Bool-cases (c == sep)) [
        | inl t ↦ ([], p ∷ ps, ground arith)
        | inr t ↦ (c ∷ p, ps, ground arith)
      ]

  -- Splitting at a separator in the middle.
  pub split-append : (s t : Text) → split sep (s ++ sep ∷ t) ≡ split sep s ++ split sep t
  unfolding split
  split-append [] t = ground arith
  split-append (c ∷ s) t = let (p, ps, e) = split-cons s in ground (arith, split-append s t)

  -- A text without the separator is one part.
  pub split_one : (s : Text) → All (λ c. c ≢ sep) s → split sep s ≡ s ∷ []
  unfolding split
  split_one [] h = refl
  split_one (c ∷ s) h = ground (arith, split_one s h.1)
