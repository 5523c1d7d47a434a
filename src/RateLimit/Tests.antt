-- ===== src/RateLimit/Tests.antt =====
-- Runs of the rate limiter.
use finbar.Common.{◌≡◌, ◌≤◌, refl, List, [], ◌∷◌, arith, ℕ, some}
use finbar.RateLimit.{
  YahooFinanceRateLimiter, attempt, run, Event, tries, limited, clear_stale, oldest_leaves,
  append_bounded, note_grant, backoff_remaining, wait, on_rate_limit_error,
}
use finbar.RateLimit.Window.{count, in_minute, run-in_minute}
use finbar.RateLimit.Waiting.{WaitsPatiently, wait-granted}
use finbar.RateLimit.Spacing.{Spaced, run-Spaced}

-- In seconds, with two requests in a minute at most.
abbrev two_a_minute : YahooFinanceRateLimiter
two_a_minute = record {
  minute = 60;
  min_interval = 1;
  max_per_minute = 2;
  base_backoff = 2;
  last_request_time = 0;
  request_times = [];
  backoff_until = 0;
}

abbrev busy : List Event
busy =
    tries 100
    ∷ tries 100
    ∷ tries 101
    ∷ limited 102 3
    ∷ tries 103
    ∷ tries 160
    ∷ tries 161
    ∷ tries 162
    ∷ []

run-busy : (run two_a_minute [] busy).1 ≡ 100 ∷ 101 ∷ 161 ∷ 162 ∷ []
unfolding run attempt clear_stale oldest_leaves append_bounded note_grant on_rate_limit_error
run-busy = refl

run-in_minute_example : count (in_minute 60 161) (run two_a_minute [] busy).1 ≤ 2
run-in_minute_example = run-in_minute two_a_minute busy 161 (omega arith) (
  omega arith,
  (omega arith, (omega arith, (omega arith, (omega arith, (omega arith, (omega arith, tt)))))),
)

run-Spaced_example : Spaced 1 (run two_a_minute [] busy).1
run-Spaced_example = run-Spaced two_a_minute busy

-- A full window, and a backoff until 110.
abbrev held_back : YahooFinanceRateLimiter
held_back = record two_a_minute {
  last_request_time = 101;
  request_times = 100 ∷ 101 ∷ [];
  backoff_until = 110;
}

held_back-WaitsPatiently : WaitsPatiently held_back (105 ∷ 110 ∷ 110 ∷ 160 ∷ 161 ∷ 162 ∷ [])
unfolding attempt backoff_remaining clear_stale oldest_leaves append_bounded
held_back-WaitsPatiently = (
  omega arith,
  (omega arith, omega arith, (omega arith, omega arith, (omega arith, omega arith, tt))),
)

wait-granted_example :
    (admitted : YahooFinanceRateLimiter × ℕ) × (wait held_back
        (105 ∷ 110 ∷ 110 ∷ 160 ∷ 161 ∷ 162 ∷ [])
      ≡ some admitted)
wait-granted_example =
    wait-granted held_back 105 110 110 160 161 162 [] (omega arith) (omega arith)
      held_back-WaitsPatiently
