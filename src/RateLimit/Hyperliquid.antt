-- ===== src/RateLimit/Hyperliquid.antt =====
-- HyperliquidRateLimiter (finbar/infrastructure/services/hyperliquid_rate_limiter.py). Times are
-- natural numbers of a unit of which a second has `second`, and weights of a unit of which
-- `replenish_rate` come back in one unit of time. `time.monotonic` does not go back, so a difference
-- of two readings is one on ℕ. Each pass of the admission loop under the lock is one `attempt`.
pub mod Bounds
mod Tests
use Prim.Native.Nat.{◌^◌}
use finbar.Common.{ℕ, suc, ◌+◌, ◌-◌, ◌*◌, ◌/◌, ◌&&◌, List, [], ◌∷◌, ltb, if◌then◌else◌}

-- The weight of a candleSnapshot request.
unfoldable pub calculate_candle_weight : ℕ → ℕ
calculate_candle_weight num_candles = 20 + num_candles / 60

pub record HyperliquidRateLimiter : Type 0 where
  pub second : ℕ
  pub max_weight : ℕ
  pub replenish_rate : ℕ
  pub min_interval : ℕ
  pub current_weight : ℕ
  pub last_update : ℕ
  pub last_request_time : ℕ
  pub consecutive_429_errors : ℕ
  pub backoff_until : ℕ
  pub total_requests : ℕ
  pub total_weight_used : ℕ

-- What one pass ends in: a grant, a sleep of `needed / replenish_rate`, or a sleep for a time.
pub data Admission : Type 0 where
  granted : Admission
  lacks : ℕ → Admission
  sleep : ℕ → Admission

-- The weight comes back with time, down to 0.
unfoldable pub replenish : HyperliquidRateLimiter → ℕ → HyperliquidRateLimiter
replenish s now = record s {
  current_weight = s.current_weight - (now - s.last_update) * s.replenish_rate;
  last_update = now;
}

unfoldable pub consume : HyperliquidRateLimiter → ℕ → ℕ → HyperliquidRateLimiter
consume s now weight = record s {
  current_weight = s.current_weight + weight;
  last_request_time = now;
  total_requests = suc s.total_requests;
  total_weight_used = s.total_weight_used + weight;
}

-- One pass of the admission phase of `wait`.
unfoldable pub attempt : HyperliquidRateLimiter → ℕ → ℕ → HyperliquidRateLimiter × Admission
unfolding replenish consume
attempt s now weight =
    let r = replenish s now in
    if ltb r.max_weight (r.current_weight + weight)
    then (r, lacks (r.current_weight + weight - r.max_weight))
    else if ltb 0 r.min_interval && ltb now (r.last_request_time + r.min_interval)
    then (r, sleep (r.last_request_time + r.min_interval - now))
    else (consume r now weight, granted)

-- The sleep that the backoff phase of `wait` still needs.
unfoldable pub backoff_remaining : HyperliquidRateLimiter → ℕ → ℕ
backoff_remaining s now = s.backoff_until - now

-- `min(2.0**count, 60.0)`
unfoldable pub base_backoff : ℕ → ℕ → ℕ
base_backoff second count =
    if ltb (60 * second) (2 ^ count * second) then 60 * second else 2 ^ count * second

-- The jitter is what `random.uniform` draws.
unfoldable pub on_rate_limit_error : HyperliquidRateLimiter → ℕ → ℕ → HyperliquidRateLimiter
unfolding base_backoff
on_rate_limit_error s now jitter = record s {
  consecutive_429_errors = suc s.consecutive_429_errors;
  backoff_until = now + (base_backoff s.second (suc s.consecutive_429_errors) + jitter);
}

unfoldable pub on_success : HyperliquidRateLimiter → HyperliquidRateLimiter
on_success s =
    if ltb 0 s.consecutive_429_errors
    then record s { consecutive_429_errors = 0; backoff_until = 0 }
    else s

-- What the callers do to a limiter, in the order in which they take the lock.
pub data Event : Type 0 where
  tries : ℕ → ℕ → Event
  limited : ℕ → ℕ → Event
  succeeded : Event

unfoldable pub step : HyperliquidRateLimiter → Event → HyperliquidRateLimiter
unfolding attempt on_rate_limit_error on_success
step s (tries now weight) = (attempt s now weight).0
step s (limited now jitter) = on_rate_limit_error s now jitter
step s succeeded = on_success s

unfoldable pub run : HyperliquidRateLimiter → List Event → HyperliquidRateLimiter
unfolding step
run s [] = s
run s (e ∷ es) = run (step s e) es
