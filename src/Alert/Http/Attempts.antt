-- ===== src/Alert/Http/Attempts.antt =====
-- How often a post is tried, and what its error says.
use gghstats.Base.{
  ℕ, zero, suc, ◌+◌, ◌-◌, ◌≤◌, ◌<◌, [], ◌∷◌, Bool, true, false, not, ◌||◌, ◌==◌, subst, ltb, max,
  ◌++◌, none, some, All, length, ◌≡◌, refl, sym, ap, ◌∙◌, arith, Bool-cases, inl, inr,
}
use gghstats.Base.Text.{Text, lit}
use gghstats.Server.Proxies.{is_some}
use gghstats.Alert.Http.{
  RetryConfig, apply_retry_config, Sent, not_created, after_sleep, no_reply, status, Posted,
  next_backoff, status_error, stop, retry, after_reply, post_from, post_json_with_retry,
}

abbrev pub is_success : Sent → Bool
is_success (not_created e) = false
is_success (no_reply e) = false
is_success (status s) = ltb s 300

-- 1 for an attempt whose request cannot be created.
abbrev pub unsent : Sent → ℕ
unsent (not_created e) = 1
unsent (no_reply e) = 0
unsent (status s) = 0

-- An attempt after which there may be another: the transport failed, or the server did.
abbrev pub is_transient : Sent → Bool
is_transient (not_created e) = false
is_transient (no_reply e) = true
is_transient (status s) = not (ltb s 500)

-- The `count` attempts from number `k` on are transient failures.
abbrev pub AllTransient : (ℕ → Sent) → ℕ → ℕ → Type 0
AllTransient send k zero = Unit
AllTransient send k (suc count) = (is_transient (send k) ≡ true) × AllTransient send (suc k) count

-- What a call did whose last attempt, number `n` of at most `total`, gave `r` after `m` retries, with
-- sleeps up to `longest`.
abbrev pub Ends : (ℕ → Bool) → ℕ → ℕ → Posted → ℕ → ℕ → Sent → Type 0
Ends awake total longest p m n r =
    (n ≤ total)
    × (p.requests + unsent r ≡ suc m)
    × (is_some p.failure ≡ not (is_success r))
    × (m ≤ length p.sleeps)
    × (length p.sleeps ≤ p.requests)
    × All (λ t. t ≤ longest) p.sleeps
    × ((not (is_transient r) || (n == total) || not (awake n)) ≡ true)

module _ (send : ℕ → Sent) (awake : ℕ → Bool) where
  -- The attempts from number `k` on.
  abbrev Accounts : ℕ → ℕ → ℕ → Posted → Type 0
  Accounts total longest k p =
      (m : ℕ) × Ends awake total longest p m (k + m) (send (k + m)) × AllTransient send k m

  stays_last :
      (total longest k : ℕ) (p : Posted) (r : Sent)
      → r ≡ send k
      → Ends awake total longest p 0 k r
      → Accounts total longest k p
  stays_last total longest k p r e h =
      let same : k ≡ k + 0 = omega arith in
      let here = subst (Ends awake total longest p 0 k) e h in
      (0, subst (λ n. Ends awake total longest p 0 n (send n)) same here, tt)

  goes_on :
      (total longest k backoff : ℕ) (p : Posted) (r : Sent)
      → r ≡ send k
      → is_transient r ≡ true
      → backoff ≤ longest
      → Accounts total longest (suc k) p
      → Accounts total longest k (after_sleep backoff p)
  goes_on total longest k backoff p r e t le (m, (n, q, f, s, l, a, w), all) =
      let same : suc k + m ≡ k + suc m = omega arith in
      let here : Ends awake total longest (after_sleep backoff p) (suc m) (suc k + m)
          (send (suc k + m)) =
        (n, omega arith, f, omega arith, omega arith, (le, a), w) in
      (
        suc m,
        subst (λ n. Ends awake total longest (after_sleep backoff p) (suc m) n (send n)) same here,
        (ap is_transient (sym e) ∙ t, all),
      )

  retry-Accounts :
      (left total longest k backoff : ℕ) (stays : Bool) (r : Sent) (e : Text) (next : Posted)
      → r ≡ send k
      → stays ≡ awake k
      → unsent r ≡ 0
      → is_transient r ≡ true
      → is_success r ≡ false
      → backoff ≤ longest
      → k + left ≡ total
      → (0 < left → Accounts total longest (suc k) next)
      → Accounts total longest k (retry left stays backoff e next)
  unfolding retry
  retry-Accounts zero total longest k backoff stays r e next eq o u t bad le n h =
      stays_last total longest k (stop (some e)) r eq
        (omega arith, omega arith, ground (arith, bad), omega arith, omega arith, tt, ground arith)
  retry-Accounts (suc left) total longest k backoff true r e next eq o u t bad le n h =
      goes_on total longest k backoff next r eq t le (h (omega arith))
  retry-Accounts (suc left) total longest k backoff false r e next eq o u t bad le n h =
      stays_last total longest k (record { requests = 1; sleeps = backoff ∷ []; failure = some e })
        r eq
        (
          omega arith,
          omega arith,
          ground (arith, bad),
          omega arith,
          omega arith,
          (le, tt),
          ground (arith, o),
        )

  reply-Accounts :
      (left total longest k backoff : ℕ) (r : Sent) (next : Posted)
      → r ≡ send k
      → backoff ≤ longest
      → k + left ≡ total
      → (0 < left → Accounts total longest (suc k) next)
      → Accounts total longest k (after_reply left (awake k) backoff r next)
  unfolding after_reply
  reply-Accounts left total longest k backoff (not_created m) next e le n h =
      stays_last total longest k
        (record { requests = 0; sleeps = []; failure = some (lit "create request: " ++ m) })
        (not_created m) e (omega arith, omega arith, refl, omega arith, omega arith, tt, refl)
  reply-Accounts left total longest k backoff (no_reply m) next e le n h =
      retry-Accounts left total longest k backoff (awake k) (no_reply m) _ next e refl refl refl
        refl le n h
  reply-Accounts left total longest k backoff (status s) next e le n h =
      elim (Bool-cases (ltb s 300)) [
        | inl t ↦ rw t (
            stays_last total longest k (stop none) (status s) e (
              omega arith,
              omega arith,
              ground (arith, t),
              omega arith,
              omega arith,
              tt,
              ground (arith, t),
            ))
        | inr t ↦ elim (Bool-cases (ltb s 500)) [
          | inl u ↦
              rw (t, u)
                (stays_last total longest k (stop (some (status_error s))) (status s) e (
                  omega arith,
                  omega arith,
                  ground (arith, t),
                  omega arith,
                  omega arith,
                  tt,
                  ground (arith, u),
                ))
          | inr u ↦
              rw (t, u)
                (retry-Accounts left total longest k backoff (awake k) (status s) _ next e refl refl
                  (ground (arith, u)) t le n h)
        ]
      ]

  next_backoff-le :
      (limit backoff longest : ℕ)
      → limit ≤ longest
      → backoff ≤ longest
      → next_backoff limit backoff ≤ longest
  unfolding next_backoff
  next_backoff-le limit backoff longest h k = ground (arith, h, k)

  post_from-Accounts :
      (limit left total longest k backoff : ℕ)
      → limit ≤ longest
      → backoff ≤ longest
      → k + left ≡ total
      → Accounts total longest k (post_from send awake limit left k backoff)
  unfolding post_from
  post_from-Accounts limit zero total longest k backoff h le n =
      reply-Accounts zero total longest k backoff (send k) _ refl le n
        (λ some_left. absurd (omega arith))
  post_from-Accounts limit (suc left) total longest k backoff h le n =
      reply-Accounts (suc left) total longest k backoff (send k) _ refl le n (λ some_left.
        post_from-Accounts limit left total longest (suc k) (next_backoff limit backoff) h
          (next_backoff-le limit backoff longest h le) (omega arith))

attempts-eq : (cfg : RetryConfig) → (apply_retry_config cfg).attempts ≡ max 1 cfg.attempts
unfolding apply_retry_config
attempts-eq cfg = ground arith

-- A post ends with some attempt, after some number of retries: every attempt before it was a failure of
-- the transport or of the server, and it was none of these, or the last attempt allowed, or the
-- context ended in the sleep behind it. The post makes one request for each attempt, but none for the
-- last one when its request cannot be created; it sleeps once for each retry, at most once for each
-- request, and never longer than the two configured backoffs; and it fails exactly when the last
-- attempt is no success.
pub post_json_with_retry-Accounts :
    (send : ℕ → Sent) (awake : ℕ → Bool) (cfg : RetryConfig)
    → let applied = apply_retry_config cfg in
      (retries : ℕ) × Ends awake
        (max 1 cfg.attempts)
        (max applied.initial_backoff applied.max_backoff)
        (post_json_with_retry send awake cfg)
        retries
        (suc retries)
        (send (suc retries))
      × AllTransient send 1 retries
unfolding post_json_with_retry
post_json_with_retry-Accounts send awake cfg =
    let applied = apply_retry_config cfg in
    let longest = max applied.initial_backoff applied.max_backoff in
    let total = attempts-eq cfg in
    let (m, ends, all) =
      post_from-Accounts send awake applied.max_backoff (applied.attempts - 1) (max 1 cfg.attempts)
        longest 1 applied.initial_backoff (ground arith) (ground arith) (omega arith) in
    let same : 1 + m ≡ suc m = omega arith in
    let p = post_json_with_retry send awake cfg in
    (m, subst (λ n. Ends awake (max 1 cfg.attempts) longest p m n (send n)) same ends, all)
