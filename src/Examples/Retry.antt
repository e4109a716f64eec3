-- ===== src/Examples/Retry.antt =====
-- A transport that fails once and then answers.
use gghstats.Base.{ℕ, zero, suc, none, refl}
use gghstats.Base.Text.{lit}
use gghstats.Github.Retry.{Reply, response, failed, Context, max_attempts, do_get_with_retry}
use gghstats.Github.Retry.Attempts.{Open, Settled, do_get_with_retry-Settled}

abbrev flaky : ℕ → Reply
flaky zero = failed (lit "EOF")
flaky (suc n) = response (record { status_code = 200; rate_limit_remaining = lit "4999" })

abbrev background : Context
background = record { before = λ i. none; waiting = λ i. none }

background-Open : Open background
background-Open i = (refl, refl)

do_get_with_retry-Settled_example :
    Settled flaky (max_attempts 4) (do_get_with_retry flaky background 4)
do_get_with_retry-Settled_example = do_get_with_retry-Settled flaky background 4 background-Open
