-- ===== src/Alert/Http.antt =====
-- Posting an alert with retries, internal/alert/http.go. The transport, and whether the context stays
-- open while the sender sleeps, are parameters, by the number of the attempt. Times are nanoseconds.
pub mod Attempts
use gghstats.Base.{
  ℕ, zero, suc, ◌+◌, ◌-◌, ◌*◌, Bool, true, false, not, ◌==◌, ltb, if◌then◌else◌, List, [], ◌∷◌,
  ◌++◌, Option, none, some,
}
use gghstats.Base.Text.{Text, lit}
use gghstats.Base.Decimal.{itoa}

pub record RetryConfig : Type 0 where
  pub attempts : ℕ
  pub initial_backoff : ℕ
  pub max_backoff : ℕ

-- A value that is not positive is 0 here.
unfoldable pub apply_retry_config : RetryConfig → RetryConfig
apply_retry_config cfg = record {
  attempts = if ltb cfg.attempts 1 then 1 else cfg.attempts;
  initial_backoff = if cfg.initial_backoff == 0 then 1000000000 else cfg.initial_backoff;
  max_backoff = if cfg.max_backoff == 0 then 10 * 1000000000 else cfg.max_backoff;
}

-- What an attempt gives: an error of `http.NewRequestWithContext`, with which no request is made, an
-- error of the transport, or a status.
pub data Sent : Type 0 where
  not_created : Text → Sent
  no_reply : Text → Sent
  status : ℕ → Sent

-- What a call did: the requests handed to the transport, the sleeps between them, and the error, `none` for nil.
pub record Posted : Type 0 where
  pub requests : ℕ
  pub sleeps : List ℕ
  pub failure : Option Text

unfoldable pub next_backoff : ℕ → ℕ → ℕ
next_backoff limit backoff =
    if ltb backoff limit then (if ltb limit (backoff * 2) then limit else backoff * 2) else backoff

abbrev pub status_error : ℕ → Text
status_error s = lit "HTTP status " ++ itoa s

-- One request was the last one.
abbrev pub stop : Option Text → Posted
stop failure = record { requests = 1; sleeps = []; failure = failure }

abbrev pub after_sleep : ℕ → Posted → Posted
after_sleep backoff p = record p { requests = suc p.requests; sleeps = backoff ∷ p.sleeps }

-- The end of the loop's body, for an error that may pass: with `left` attempts left, and what they do.
unfoldable pub retry : ℕ → Bool → ℕ → Text → Posted → Posted
retry zero awake backoff e next = stop (some e)
retry (suc left) awake backoff e next =
    if awake
    then after_sleep backoff next
    else record { requests = 1; sleeps = backoff ∷ []; failure = some e }

-- The loop's body, from what the attempt gives on.
unfoldable pub after_reply : ℕ → Bool → ℕ → Sent → Posted → Posted
after_reply left awake backoff (not_created e) next = record {
  requests = 0;
  sleeps = [];
  failure = some (lit "create request: " ++ e);
}
after_reply left awake backoff (no_reply e) next =
    retry left awake backoff (lit "send request: " ++ e) next
after_reply left awake backoff (status s) next =
    let again = retry left awake backoff (status_error s) next in
    if ltb s 300 then stop none else if ltb s 500 then stop (some (status_error s)) else again

module _ (send : ℕ → Sent) (awake : ℕ → Bool) where
  -- The attempts from number `k` on, with `left` more after it.
  unfoldable pub post_from : ℕ → ℕ → ℕ → ℕ → Posted
  post_from limit zero k backoff = after_reply zero (awake k) backoff (send k) (stop none)
  post_from limit (suc left) k backoff =
      after_reply (suc left) (awake k) backoff (send k)
        (post_from limit left (suc k) (next_backoff limit backoff))

  -- The first attempt has number 1, and there is at least one.
  unfoldable pub post_json_with_retry : RetryConfig → Posted
  post_json_with_retry cfg =
      let applied = apply_retry_config cfg in
      post_from applied.max_backoff (applied.attempts - 1) 1 applied.initial_backoff
