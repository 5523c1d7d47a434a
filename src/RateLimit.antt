-- ===== src/RateLimit.antt =====
-- YahooFinanceRateLimiter (finbar/infrastructure/services/rate_limiter.py). Times and durations are
-- natural numbers of one unit, of which a minute has `minute`; a difference of times that the
-- source compares is written as a sum, so that a clock that steps back is right too. Each pass of
-- the admission loop under the lock is one `attempt` at a reading of the clock.
pub mod Window
pub mod Spacing
pub mod Waiting
pub mod Hyperliquid
mod Tests
use Prim.Native.Nat.{◌^◌}
use finbar.Common.{
  ℕ, zero, suc, ◌+◌, ◌-◌, ◌*◌, Bool, List, [], ◌∷◌, ◌++◌, ltb, leb, if◌then◌else◌, length, drop,
  Option, none, some, true, false,
}

pub record YahooFinanceRateLimiter : Type 0 where
  pub minute : ℕ
  pub min_interval : ℕ
  pub max_per_minute : ℕ
  pub base_backoff : ℕ
  pub last_request_time : ℕ
  pub request_times : List ℕ
  pub backoff_until : ℕ

-- What one pass under the lock ends in. `no_request` is the IndexError of `_request_times[0]` on an
-- empty deque, where no request at all is allowed in a minute.
pub data Outcome : Type 0 where
  granted : Outcome
  sleep : ℕ → Outcome
  no_request : Outcome

abbrev pub is_granted : Outcome → Bool
is_granted granted = true
is_granted _ = false

-- The `deque(maxlen=1000)`: an append on a full one drops the oldest.
unfoldable pub append_bounded : List ℕ → ℕ → List ℕ
append_bounded ts t = drop (suc (length ts) - 1000) (ts ++ t ∷ [])

-- The loop that clears entries older than a minute.
unfoldable pub clear_stale : ℕ → ℕ → List ℕ → List ℕ
clear_stale minute now [] = []
clear_stale minute now (t ∷ ts) =
    let rest = clear_stale minute now ts in if ltb (t + minute) now then rest else t ∷ ts

-- The wait until the oldest request leaves the window.
unfoldable pub oldest_leaves : ℕ → ℕ → List ℕ → Outcome
oldest_leaves minute now [] = no_request
oldest_leaves minute now (oldest ∷ ts) = sleep (oldest + minute - now)

-- One pass of the admission phase.
unfoldable pub attempt : YahooFinanceRateLimiter → ℕ → YahooFinanceRateLimiter × Outcome
unfolding clear_stale append_bounded oldest_leaves
attempt s now =
    let recent = clear_stale s.minute now s.request_times in
    if ltb now (s.last_request_time + s.min_interval)
    then (record s { request_times = recent }, sleep (s.last_request_time + s.min_interval - now))
    else if leb s.max_per_minute (length recent)
    then (record s { request_times = recent }, oldest_leaves s.minute now recent)
    else (record s { last_request_time = now; request_times = append_bounded recent now }, granted)

-- The sleep that the backoff phase of `wait` still needs.
unfoldable pub backoff_remaining : YahooFinanceRateLimiter → ℕ → ℕ
backoff_remaining s now = s.backoff_until - now

unfoldable pub backoff_of : YahooFinanceRateLimiter → ℕ → ℕ
backoff_of s attempts = s.base_backoff * 2 ^ (if ltb 10 attempts then 10 else attempts)

unfoldable pub on_rate_limit_error : YahooFinanceRateLimiter → ℕ → ℕ → YahooFinanceRateLimiter × ℕ
unfolding backoff_of
on_rate_limit_error s now attempts =
    (record s { backoff_until = now + backoff_of s attempts }, backoff_of s attempts)

unfoldable pub reset : YahooFinanceRateLimiter → YahooFinanceRateLimiter
reset s = record s { request_times = []; last_request_time = 0; backoff_until = 0 }

-- What the callers do to a limiter, in the order in which they take the lock.
pub data Event : Type 0 where
  tries : ℕ → Event
  limited : ℕ → ℕ → Event

unfoldable pub note_grant : Outcome → ℕ → List ℕ → List ℕ
note_grant granted now grants = grants ++ now ∷ []
note_grant (sleep t) now grants = grants
note_grant no_request now grants = grants

-- The limiter after some events, and the times at which requests were granted.
unfoldable pub run :
    YahooFinanceRateLimiter → List ℕ → List Event → YahooFinanceRateLimiter × List ℕ
unfolding note_grant
run s grants [] = (s, grants)
run s grants (tries now ∷ es) =
    let (s', outcome) = attempt s now in run s' (note_grant outcome now grants) es
run s grants (limited now attempts ∷ es) = run (on_rate_limit_error s now attempts).0 grants es

-- The readings of the clock that are left when the backoff phase of `wait` ends.
unfoldable pub backoff_phase : YahooFinanceRateLimiter → List ℕ → List ℕ
unfolding backoff_remaining
backoff_phase s [] = []
backoff_phase s (now ∷ later) =
    let rest = backoff_phase s later in if ltb 0 (backoff_remaining s now) then rest else later

-- The admission phase: the limiter after it and the time of the grant, or nothing if the readings
-- run out first.
unfoldable pub admission_phase :
    YahooFinanceRateLimiter → List ℕ → Option (YahooFinanceRateLimiter × ℕ)
admission_phase s [] = none
admission_phase s (now ∷ later) =
    let (s', outcome) = attempt s now in
    let rest = admission_phase s' later in if is_granted outcome then some (s', now) else rest

-- `wait` of one caller, at the readings of the clock that it makes.
unfoldable pub wait : YahooFinanceRateLimiter → List ℕ → Option (YahooFinanceRateLimiter × ℕ)
unfolding backoff_phase admission_phase
wait s readings = admission_phase s (backoff_phase s readings)
