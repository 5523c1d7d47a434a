-- ===== src/RateLimit/Hyperliquid/Tests.antt =====
-- Runs of the weight limiter, in milliseconds and 50ths of a weight unit.
use finbar.Common.{◌+◌, ◌-◌, ◌*◌, ◌≡◌, ◌≤◌, refl, List, [], ◌∷◌, arith}
use finbar.RateLimit.Hyperliquid.{
  HyperliquidRateLimiter, granted, attempt, replenish, consume, on_rate_limit_error, on_success,
  Event, tries, limited, succeeded, step, run, base_backoff,
}
use finbar.RateLimit.Hyperliquid.Bounds.{run-within_capacity, attempt-granted_later}

-- A capacity of 960 and 20 units back in a second.
abbrev idle : HyperliquidRateLimiter
idle = record {
  second = 1000;
  max_weight = 48000;
  replenish_rate = 1;
  min_interval = 60;
  current_weight = 0;
  last_update = 0;
  last_request_time = 0;
  consecutive_429_errors = 0;
  backoff_until = 0;
  total_requests = 0;
  total_weight_used = 0;
}

abbrev busy : List Event
busy = tries 1000 40000 ∷ tries 1100 10000 ∷ limited 1200 500 ∷ succeeded ∷ tries 4000 10000 ∷ []

run-busy : (run idle busy).total_weight_used ≡ 50000
unfolding run step attempt replenish consume on_rate_limit_error on_success base_backoff
run-busy = refl

run-within_capacity_example :
    ((run idle busy).total_weight_used ≤ 0 + (48000 - 0) + ((run idle busy).last_update - 0) * 1)
    × ((run idle busy).current_weight ≤ 48000)
run-within_capacity_example =
    run-within_capacity idle busy (omega arith) (omega arith, (omega arith, (omega arith, tt)))

abbrev full : HyperliquidRateLimiter
full = record idle { current_weight = 48000 }

attempt-granted_later_example : (attempt (attempt full 100 1000).0 1100 1000).1 ≡ granted
unfolding attempt replenish consume
attempt-granted_later_example =
    attempt-granted_later full 100 1100 1000 900 (omega arith) (omega arith) refl (omega arith)
      (omega arith) (omega arith)
