-- ===== src/Server/Freshness/Days.antt =====
-- Which days are missing.
use gghstats.Base.{
  ℕ, zero, suc, ◌+◌, ◌-◌, Bool, not, ◌&&◌, ◌==◌, leb, ltb, Option, none, some, any, ◌≡◌, arith,
  Bool-cases, inl, inr,
}
use gghstats.Store.{Date}
use gghstats.Server.Freshness.{is_past, missing_from, missing_days}

missing_from-any :
    (covered : Date → Bool) (to : Option Date) (left d x : ℕ)
    → any (λ m. m == x) (missing_from covered to left d)
      ≡ (leb d x && ltb x (d + left) && not (is_past to x) && not (covered x))
unfolding missing_from is_past
missing_from-any covered none zero d x = ground arith
missing_from-any covered (some to) zero d x = ground arith
missing_from-any covered none (suc left) d x = elim (Bool-cases (d == x)) [
  | inl e ↦
      let same : d ≡ x = ground arith in
      rw same (ground (arith, missing_from-any covered none left (suc x) x))
  | inr e ↦ ground (arith, missing_from-any covered none left (suc d) x)
]
missing_from-any covered (some to) (suc left) d x = elim (Bool-cases (d == x)) [
  | inl e ↦
      let same : d ≡ x = ground arith in
      rw same (ground (arith, missing_from-any covered (some to) left (suc x) x))
  | inr e ↦ ground (arith, missing_from-any covered (some to) left (suc d) x)
]

-- A day is missing exactly when it lies in the span of the response and not after yesterday, and
-- the response did not report it.
pub missing_days-any :
    (covered : Date → Bool) (from : Date) (to : Option Date) (yesterday x : Date)
    → any (λ m. m == x) (missing_days covered (some from) to yesterday)
      ≡ (leb from x && leb x yesterday && not (is_past to x) && not (covered x))
unfolding missing_days
missing_days-any covered from to yesterday x =
    ground (arith, missing_from-any covered to (suc yesterday - from) from x)
