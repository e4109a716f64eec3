-- ===== src/Github/Retry.antt =====
-- The retry loop of the GitHub client, internal/github/retry.go. The transport is a parameter: what
-- attempt number `i` returns; so is the context, which may be found done before an attempt or
-- during the wait after it. The waits themselves, which are random, are not modelled.
pub mod Attempts
use gghstats.Base.{
  ℕ, suc, zero, ◌+◌, Bool, true, false, not, ◌&&◌, ◌||◌, ◌==◌, leb, ltb, if◌then◌else◌, List, [],
  ◌∷◌, Option, none, some,
}
use gghstats.Base.Text.{Text, lit, text_eq, is_empty}

-- A response by its status and the header X-RateLimit-Remaining.
pub record Response : Type 0 where
  pub status_code : ℕ
  pub rate_limit_remaining : Text

-- What `doGet` returns: a response, or an error of the transport, which comes without a response.
pub data Reply : Type 0 where
  response : Response → Reply
  failed : Text → Reply

unfoldable pub should_retry : Reply → Bool
should_retry (failed e) = true
should_retry (response r) =
    if r.status_code == 429
    then true
    else if r.status_code == 403
    then is_empty r.rate_limit_remaining || text_eq r.rate_limit_remaining (lit "0")
    else leb 500 r.status_code && leb r.status_code 599

unfoldable pub is_ok : Reply → Bool
is_ok (failed e) = false
is_ok (response r) = r.status_code == 200

-- The context, by the number of the attempt: its error before the attempt, and in the wait after.
pub record Context : Type 0 where
  pub before : ℕ → Option Text
  pub waiting : ℕ → Option Text

-- The reply returned with the context's error; no reply before the first attempt, and with that
-- error a reply that is a failure of the transport stands for no response. `requests` counts
-- the calls of `doGet`.
pub record Outcome : Type 0 where
  pub reply : Option Reply
  pub cancelled : Option Text
  pub requests : ℕ

unfoldable pub max_attempts : ℕ → ℕ
max_attempts n = if ltb n 1 then 1 else n

-- What follows the reply of attempt `i`; `rest` is the loop from the next attempt on, and `final`
-- says that there is none.
unfoldable pub after_reply : Context → ℕ → Bool → Reply → Outcome → Outcome
after_reply ctx i final r rest =
    if is_ok r || not (should_retry r) || final
    then record { reply = some r; cancelled = none; requests = suc i }
    else elim (ctx.waiting i) [
      | some e ↦ record { reply = some r; cancelled = some e; requests = suc i }
      | none ↦ rest
    ]

-- The loop from attempt `i` on, with `left` attempts left.
unfoldable pub attempts_from : (ℕ → Reply) → Context → ℕ → ℕ → Option Reply → Outcome
attempts_from do_get ctx zero i last = record { reply = last; cancelled = none; requests = i }
attempts_from do_get ctx (suc left) i last =
    let rest = attempts_from do_get ctx left (suc i) (some (do_get i)) in
    elim (ctx.before i) [
      | some e ↦ record { reply = last; cancelled = some e; requests = i }
      | none ↦ after_reply ctx i (left == 0) (do_get i) rest
    ]

unfoldable pub do_get_with_retry : (ℕ → Reply) → Context → ℕ → Outcome
do_get_with_retry do_get ctx n = attempts_from do_get ctx (max_attempts n) 0 none
