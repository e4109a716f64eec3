-- ===== src/Server/Cors/Listed.antt =====
-- Only listed origins are allowed.
use gghstats.Base.{
  true, false, List, [], ◌∷◌, some, any, ◌≡◌, ◌⊎◌, refl, arith, Bool-cases, inl, inr,
}
use gghstats.Base.Text.{Text, lit, text_eq, text_eq_refl, is_empty, trim_space}
use gghstats.Server.Cors.{cors_is_open, first_origin, set_api_cors}

first-listed :
    (a : Text) (origins : List Text)
    → first_origin origins ≡ some a
    → any (λ o. text_eq o a) origins ≡ true
unfolding first_origin
first-listed a [] h = cc
first-listed a (o ∷ os) h = let same : o ≡ a = ground (arith, h) in rw (same, text_eq_refl a) refl

-- The header allows every origin only if the list is open; else what it allows is on the list, and is
-- the origin of the request, if the request names one.
pub set_api_cors-listed :
    (origin_header a : Text) (origins : List Text)
    → set_api_cors origin_header origins ≡ some a
    → ((cors_is_open origins ≡ true) × (a ≡ lit "*"))
      ⊎ ((cors_is_open origins ≡ false)
          × (any (λ o. text_eq o a) origins ≡ true)
          × ((is_empty (trim_space origin_header) ≡ true) ⊎ (a ≡ trim_space origin_header)))
unfolding set_api_cors
set_api_cors-listed origin_header a origins h = elim (Bool-cases (cors_is_open origins)) [
  | inl e ↦ inl (e, ground (arith, h, e))
  | inr e ↦ elim (Bool-cases (is_empty (trim_space origin_header))) [
    | inl b ↦ inr (e, first-listed a origins (ground (arith, h, e, b)), inl b)
    | inr b ↦ elim (Bool-cases (any (λ o. text_eq o (trim_space origin_header)) origins)) [
      | inl l ↦
          let same : a ≡ trim_space origin_header = ground (arith, h, e, b, l) in
          inr (e, rw same l, inr same)
      | inr l ↦ absurd (ground (arith, h, e, b, l))
    ]
  ]
]
