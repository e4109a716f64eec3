-- ===== src/Github/Retry/Attempts.antt =====
-- How many requests the retry loop makes, and which reply it returns.
use gghstats.Base.{
  ℕ, suc, zero, ◌+◌, ◌-◌, ◌≤◌, Bool, true, false, not, ◌||◌, ◌==◌, Option, none, some, ◌≡◌, ap,
  subst, arith, Bool-cases, Option-cases, inl, inr,
}
use gghstats.Github.Retry.{
  Reply, Context, Outcome, should_retry, is_ok, max_attempts, after_reply, attempts_from,
  do_get_with_retry,
}

bounded :
    (do_get : ℕ → Reply) (ctx : Context) (left i : ℕ) (last : Option Reply)
    → (attempts_from do_get ctx left i last).requests ≤ i + left
unfolding attempts_from after_reply
bounded do_get ctx zero i last = omega arith
bounded do_get ctx (suc left) i last =
    let ih = bounded do_get ctx left (suc i) (some (do_get i)) in
    elim (Option-cases (ctx.before i)) [
      | inl e ↦ elim (Option-cases (ctx.waiting i)) [
        | inl f ↦ ground (arith, e, f, ih)
        | inr (m, f) ↦ ground (arith, e, f, ih)
      ]
      | inr (m, e) ↦ ground (arith, e)
    ]

-- A context that is never done.
abbrev pub Open : Context → Type 0
Open ctx = (i : ℕ) → (ctx.before i ≡ none) × (ctx.waiting i ≡ none)

-- A reply that ends the loop before the last attempt: a 200, or one that is not worth another.
abbrev pub stops : Reply → Bool
stops r = is_ok r || not (should_retry r)

-- None of the `count` attempts from number `i` on ends the loop.
abbrev pub AllRetried : (ℕ → Reply) → ℕ → ℕ → Type 0
AllRetried do_get i zero = Unit
AllRetried do_get i (suc count) = (stops (do_get i) ≡ false) × AllRetried do_get (suc i) count

-- The loop ends at attempt `n`: it returns that attempt's reply, and no error of the context.
abbrev pub EndsAt : (ℕ → Reply) → ℕ → Outcome → ℕ → Type 0
EndsAt do_get total o n =
    (o.requests ≡ suc n)
    × (suc n ≤ total)
    × (o.reply ≡ some (do_get n))
    × (o.cancelled ≡ none)
    × ((stops (do_get n) || (suc n == total)) ≡ true)

-- The loop from attempt `i` on retries `k` attempts and ends at the one behind them.
abbrev SettledFrom : (ℕ → Reply) → ℕ → ℕ → Outcome → Type 0
SettledFrom do_get i total o = (k : ℕ) × EndsAt do_get total o (i + k) × AllRetried do_get i k

abbrev pub Settled : (ℕ → Reply) → ℕ → Outcome → Type 0
Settled do_get total o = (n : ℕ) × EndsAt do_get total o n × AllRetried do_get 0 n

-- The loop that ends at its first attempt.
stays_last :
    (do_get : ℕ → Reply) (i total : ℕ) (o : Outcome)
    → o ≡ record { reply = some (do_get i); cancelled = none; requests = suc i }
    → suc i ≤ total
    → (stops (do_get i) || (suc i == total)) ≡ true
    → SettledFrom do_get i total o
stays_last do_get i total o e le end =
    let same : i ≡ i + 0 = omega arith in
    let here : EndsAt do_get total o i = (
      ap (λ (p : Outcome). p.requests) e,
      le,
      ap (λ (p : Outcome). p.reply) e,
      ap (λ (p : Outcome). p.cancelled) e,
      end,
    ) in
    (0, subst (EndsAt do_get total o) same here, tt)

-- The loop that retries its first attempt.
goes_on :
    (do_get : ℕ → Reply) (i total : ℕ) (o : Outcome)
    → stops (do_get i) ≡ false
    → SettledFrom do_get (suc i) total o
    → SettledFrom do_get i total o
goes_on do_get i total o on (k, ends, all) =
    let same : suc i + k ≡ i + suc k = omega arith in
    (suc k, subst (EndsAt do_get total o) same ends, (on, all))

settles :
    (do_get : ℕ → Reply) (ctx : Context) (left i total : ℕ) (last : Option Reply)
    → Open ctx
    → i + suc left ≡ total
    → SettledFrom do_get i total (attempts_from do_get ctx (suc left) i last)
unfolding attempts_from after_reply
settles do_get ctx zero i total last h n =
    let (b, w) = h i in stays_last do_get i total _ (ground (arith, b)) (omega arith) (ground arith)
settles do_get ctx (suc left) i total last h n =
    let (b, w) = h i in
    elim (Bool-cases (stops (do_get i))) [
      | inl stop ↦
          stays_last do_get i total _ (ground (arith, b, stop)) (omega arith) (ground (arith, stop))
      | inr on ↦
          let go : attempts_from do_get ctx (suc left) (suc i) (some (do_get i))
              ≡ attempts_from do_get ctx (suc (suc left)) i last =
            ground (arith, b, w, on) in
          goes_on do_get i total _ on (
            subst (SettledFrom do_get (suc i) total) go
              (settles do_get ctx left (suc i) total (some (do_get i)) h (omega arith)))
    ]

-- The client makes at most as many requests as it is configured to make attempts, and at most one when
-- it is configured to make none, whatever the transport and the context do.
pub do_get_with_retry-requests :
    (do_get : ℕ → Reply) (ctx : Context) (n : ℕ)
    → (do_get_with_retry do_get ctx n).requests ≤ max_attempts n
unfolding do_get_with_retry
do_get_with_retry-requests do_get ctx n = omega (arith, bounded do_get ctx (max_attempts n) 0 none)

-- While the context stays open, the client returns the reply of the last request that it makes, and
-- no error of the context; it stops at that request because the reply is a 200, or is not worth
-- another attempt, or because it was the last attempt allowed; and it made that request because
-- every earlier reply was no 200 and worth another attempt.
pub do_get_with_retry-Settled :
    (do_get : ℕ → Reply) (ctx : Context) (n : ℕ)
    → Open ctx
    → Settled do_get (max_attempts n) (do_get_with_retry do_get ctx n)
unfolding do_get_with_retry max_attempts
do_get_with_retry-Settled do_get ctx n h =
    let m : suc (n - 1) ≡ max_attempts n = ground arith in
    let total : 0 + suc (n - 1) ≡ max_attempts n = ground arith in
    let (k, ends, all) =
      subst (λ t. SettledFrom do_get 0 (max_attempts n) (attempts_from do_get ctx t 0 none)) m
        (settles do_get ctx (n - 1) 0 (max_attempts n) none h total) in
    let same : 0 + k ≡ k = omega arith in
    (k, subst (EndsAt do_get (max_attempts n) (do_get_with_retry do_get ctx n)) same ends, all)
