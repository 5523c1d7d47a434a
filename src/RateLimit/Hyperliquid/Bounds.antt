-- ===== src/RateLimit/Hyperliquid/Bounds.antt =====
-- How much weight the limiter of hyperliquid_rate_limiter.py grants.
use finbar.Common.{◌∙◌, ap, ℕ, ◌+◌, ◌-◌, ◌*◌, ◌≤◌, ◌≡◌, List, [], ◌∷◌, arith}
use finbar.RateLimit.Hyperliquid.{
  granted, lacks, on_success, on_rate_limit_error, step, run, HyperliquidRateLimiter, replenish,
  consume, attempt, Event, tries, limited, succeeded,
}

-- The clock readings of the attempts do not fall below the last one.
abbrev pub ClockRises : ℕ → List Event → Type 0
ClockRises seen [] = Unit
ClockRises seen (tries now weight ∷ es) = (seen ≤ now) × ClockRises now es
ClockRises seen (limited now jitter ∷ es) = ClockRises seen es
ClockRises seen (succeeded ∷ es) = ClockRises seen es

-- What a run of events has used up, by the limiters before and after it.
record Metered (s t : HyperliquidRateLimiter) : Type 0 where
  capacity : t.max_weight ≡ s.max_weight
  rate : t.replenish_rate ≡ s.replenish_rate
  later : s.last_update ≤ t.last_update
  within : t.current_weight ≤ t.max_weight
  paid :
      t.total_weight_used + s.current_weight
      ≤ s.total_weight_used + t.current_weight + (t.last_update - s.last_update) * s.replenish_rate

attempt-Metered :
    (s : HyperliquidRateLimiter) (now weight : ℕ)
    → s.current_weight ≤ s.max_weight
    → s.last_update ≤ now
    → Metered s (attempt s now weight).0
unfolding attempt replenish consume
attempt-Metered s now weight fits rises = ground arith

mul_split : (a b c r : ℕ) → a ≤ b → b ≤ c → (c - a) * r ≡ (b - a) * r + (c - b) * r
mul_split a b c r h k =
    let whole : c - a ≡ (b - a) + (c - b) = omega arith in ap (λ (n : ℕ). n * r) whole ∙ grind arith

Metered-trans : (s t u : HyperliquidRateLimiter) → Metered s t → Metered t u → Metered s u
Metered-trans s t u m n =
    let split : (u.last_update - s.last_update) * s.replenish_rate
        ≡ (t.last_update - s.last_update) * s.replenish_rate
          + (u.last_update - t.last_update) * s.replenish_rate =
      mul_split s.last_update t.last_update u.last_update s.replenish_rate m.later n.later in
    let same : (u.last_update - t.last_update) * t.replenish_rate
        ≡ (u.last_update - t.last_update) * s.replenish_rate =
      ap (λ (r : ℕ). (u.last_update - t.last_update) * r) m.rate in
    let paid_first = m.paid in
    let paid_then = n.paid in
    record {
      capacity = n.capacity ∙ m.capacity;
      rate = n.rate ∙ m.rate;
      later = omega (arith, m.later, n.later);
      within = n.within;
      paid = omega (arith, paid_first, paid_then, split, same);
    }

attempt-last_update :
    (s : HyperliquidRateLimiter) (now weight : ℕ) → (attempt s now weight).0.last_update ≡ now
unfolding attempt replenish consume
attempt-last_update s now weight = ground arith

on_success-Metered :
    (s : HyperliquidRateLimiter) → s.current_weight ≤ s.max_weight → Metered s (on_success s)
unfolding on_success
on_success-Metered s fits = ground arith

on_success-last_update : (s : HyperliquidRateLimiter) → (on_success s).last_update ≡ s.last_update
unfolding on_success
on_success-last_update s = ground arith

step-Metered :
    (s : HyperliquidRateLimiter) (e : Event) (es : List Event)
    → s.current_weight ≤ s.max_weight
    → ClockRises s.last_update (e ∷ es)
    → Metered s (step s e) × ClockRises (step s e).last_update es
unfolding step on_rate_limit_error
step-Metered s (tries now weight) es fits rises =
    (attempt-Metered s now weight fits rises.0, rw (attempt-last_update s now weight) rises.1)
step-Metered s (limited now jitter) es fits rises = (ground arith, rises)
step-Metered s succeeded es fits rises =
    (on_success-Metered s fits, rw (on_success-last_update s) rises)

run-Metered :
    (s : HyperliquidRateLimiter) (es : List Event)
    → s.current_weight ≤ s.max_weight
    → ClockRises s.last_update es
    → Metered s (run s es)
unfolding run
run-Metered s [] fits rises = ground arith
run-Metered s (e ∷ es) fits rises =
    let (metered, later) = step-Metered s e es fits rises in
    Metered-trans s (step s e) (run (step s e) es) metered
      (run-Metered (step s e) es metered.within later)

-- From a limiter within its capacity, whatever the callers do and the server answers while the clock
-- does not step back: the weight that is granted in a run of passes is at most the capacity that was
-- free at its start and the weight that came back until its last pass, and the limiter is within its
-- capacity again.
pub run-within_capacity :
    (s : HyperliquidRateLimiter) (es : List Event)
    → s.current_weight ≤ s.max_weight
    → ClockRises s.last_update es
    → let t = run s es in
      (t.total_weight_used
        ≤ s.total_weight_used
          + (s.max_weight - s.current_weight)
          + (t.last_update - s.last_update) * s.replenish_rate)
      × (t.current_weight ≤ s.max_weight)
run-within_capacity s es fits rises =
    let m = run-Metered s es fits rises in
    let paid = m.paid in
    let within = m.within in let capacity = m.capacity in (omega arith, omega arith)

-- A caller whose weight fits the capacity, who is told to wait for weight and tries again once that
-- much has come back and the interval since the last grant is over, is granted, if nobody else has
-- been between.
pub attempt-granted_later :
    (s : HyperliquidRateLimiter) (now later weight needed : ℕ)
    → s.last_update ≤ now
    → now ≤ later
    → (attempt s now weight).1 ≡ lacks needed
    → weight ≤ s.max_weight
    → needed ≤ (later - now) * s.replenish_rate
    → s.last_request_time + s.min_interval ≤ later
    → (attempt (attempt s now weight).0 later weight).1 ≡ granted
unfolding attempt replenish consume
attempt-granted_later s now later weight needed before after told fits waited spaced = ground arith
