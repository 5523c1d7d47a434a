-- ===== src/RateLimit/Window.antt =====
-- How many requests the limiter of rate_limiter.py grants in a minute.
use finbar.Common.{
  ℕ, suc, ◌+◌, ◌-◌, inl, inr, Bool-cases, ◌≤◌, ◌<◌, ◌≡◌, refl, Bool, ◌&&◌, List, [], ◌∷◌, ◌++◌,
  arith, ltb, leb, length, if◌then◌else◌,
}
use finbar.RateLimit.{
  YahooFinanceRateLimiter, append_bounded, clear_stale, attempt, on_rate_limit_error, Event, tries,
  limited, note_grant, run, oldest_leaves,
}

-- How many times pass a test.
abbrev pub count : (ℕ → Bool) → List ℕ → ℕ
count p [] = 0
count p (t ∷ ts) = if p t then suc (count p ts) else count p ts

-- A time in the minute that ends at `t`, and one at most a minute before `t` or after it.
abbrev pub in_minute : ℕ → ℕ → ℕ → Bool
in_minute minute t g = leb t (g + minute) && leb g t

abbrev fresh_at : ℕ → ℕ → ℕ → Bool
fresh_at minute t g = leb t (g + minute)

count-append :
    (p : ℕ → Bool) (ts : List ℕ) (t : ℕ)
    → count p (ts ++ t ∷ []) ≡ count p ts + (if p t then 1 else 0)
count-append p [] t = ground arith
count-append p (u ∷ us) t = ground (arith, count-append p us t)

count-le-length : (p : ℕ → Bool) (ts : List ℕ) → count p ts ≤ length ts
count-le-length p [] = omega arith
count-le-length p (t ∷ ts) = ground (arith, count-le-length p ts)

in_minute-le-fresh_at :
    (minute t : ℕ) (ts : List ℕ) → count (in_minute minute t) ts ≤ count (fresh_at minute t) ts
in_minute-le-fresh_at minute t [] = omega arith
in_minute-le-fresh_at minute t (u ∷ us) = ground (arith, in_minute-le-fresh_at minute t us)

-- Clearing loses no time that is still fresh, now or later.
count-clear_stale :
    (minute now later : ℕ) (ts : List ℕ)
    → now ≤ later
    → count (fresh_at minute later) (clear_stale minute now ts) ≡ count (fresh_at minute later) ts
unfolding clear_stale
count-clear_stale minute now later [] h = refl
count-clear_stale minute now later (t ∷ ts) h =
    ground (arith, count-clear_stale minute now later ts h)

append_bounded-eq-append :
    (ts : List ℕ) (t : ℕ) → length ts < 1000 → append_bounded ts t ≡ ts ++ t ∷ []
unfolding append_bounded
append_bounded-eq-append ts t h = rw (full ts h) refl
  where
    full : (us : List ℕ) → length us < 1000 → suc (length us) - 1000 ≡ 0
    full us below = omega arith

-- What holds of a limiter, the requests that it has granted and the last reading of the clock: the
-- deque still shows every granted request that is fresh, and no minute holds more than `most`.
record IsLimited (most minute seen : ℕ) (times grants : List ℕ) : Type 0 where
  covered : (t : ℕ) → seen ≤ t → count (fresh_at minute t) grants ≤ count (fresh_at minute t) times
  within : (t : ℕ) → count (in_minute minute t) grants ≤ most

clear_stale-IsLimited :
    (most minute seen now : ℕ) (times grants : List ℕ)
    → seen ≤ now
    → IsLimited most minute seen times grants
    → IsLimited most minute now (clear_stale minute now times) grants
clear_stale-IsLimited most minute seen now times grants rise inv = record {
  covered =
      λ t h. omega (arith, inv.covered t (omega arith), count-clear_stale minute now t times h);
  within = inv.within;
}

grant-IsLimited :
    (most minute now : ℕ) (times grants : List ℕ)
    → length times < most
    → IsLimited most minute now times grants
    → IsLimited most minute now (times ++ now ∷ []) (grants ++ now ∷ [])
grant-IsLimited most minute now times grants room inv = record {
  covered = λ t h. omega (
    arith,
    inv.covered t h,
    count-append (fresh_at minute t) grants now,
    count-append (fresh_at minute t) times now,
  );
  within = λ t. ground (
    arith,
    inv.within t,
    inv.covered t,
    in_minute-le-fresh_at minute t grants,
    count-le-length (fresh_at minute t) times,
    count-append (in_minute minute t) grants now,
  );
}

pub oldest_leaves-note_grant :
    (minute now : ℕ) (ts grants : List ℕ)
    → note_grant (oldest_leaves minute now ts) now grants ≡ grants
unfolding oldest_leaves note_grant
oldest_leaves-note_grant minute now [] grants = refl
oldest_leaves-note_grant minute now (t ∷ ts) grants = refl

abbrev Holds : ℕ → ℕ → ℕ → YahooFinanceRateLimiter → List ℕ → Type 0
Holds most minute seen s grants =
    (s.minute ≡ minute)
    × (s.max_per_minute ≡ most)
    × IsLimited most minute seen s.request_times grants

attempt-Holds :
    (most minute seen now : ℕ) (s : YahooFinanceRateLimiter) (grants : List ℕ)
    → most ≤ 1000
    → seen ≤ now
    → Holds most minute seen s grants
    → Holds most minute now (attempt s now).0 (note_grant (attempt s now).1 now grants)
unfolding attempt note_grant
attempt-Holds most minute seen now s grants small rise (same_minute, same_most, inv) =
    let recent = clear_stale s.minute now s.request_times in
    let kept : IsLimited most minute now recent grants =
      rw same_minute (clear_stale-IsLimited most minute seen now s.request_times grants rise inv) in
    elim (Bool-cases (ltb now (s.last_request_time + s.min_interval))) [
      | inl early ↦ rw early (same_minute, same_most, kept)
      | inr late ↦ elim (Bool-cases (leb s.max_per_minute (length recent))) [
        | inl full ↦
            rw (late, full, oldest_leaves-note_grant s.minute now recent grants)
              (same_minute, same_most, kept)
        | inr room ↦
            let free : length recent < most = ground arith in
            rw (late, room, append_bounded-eq-append recent now (omega arith))
              (same_minute, same_most, grant-IsLimited most minute now recent grants free kept)
      ]
    ]

-- The clock readings of the attempts do not fall.
abbrev pub ClockRises : ℕ → List Event → Type 0
ClockRises seen [] = Unit
ClockRises seen (tries now ∷ es) = (seen ≤ now) × ClockRises now es
ClockRises seen (limited now attempts ∷ es) = ClockRises seen es

run-within :
    (most minute seen : ℕ) (s : YahooFinanceRateLimiter) (grants : List ℕ) (es : List Event)
    → most ≤ 1000
    → ClockRises seen es
    → Holds most minute seen s grants
    → (t : ℕ) → count (in_minute minute t) (run s grants es).1 ≤ most
unfolding run on_rate_limit_error
run-within most minute seen s grants [] small rises (same_minute, same_most, inv) t = inv.within t
run-within most minute seen s grants (tries now ∷ es) small rises holds t =
    run-within most minute now (attempt s now).0 (note_grant (attempt s now).1 now grants) es small
      rises.1 (attempt-Holds most minute seen now s grants small rises.0 holds) t
run-within most minute seen s grants (limited now attempts ∷ es) small rises holds t =
    run-within most minute seen (on_rate_limit_error s now attempts).0 grants es small rises holds t

-- Where the limit is at most 1000 and the clock does not step back, no minute holds more granted
-- requests than the limit, however the callers' passes and the 429 answers are interleaved: of the
-- requests granted since the limiter's given state, with no reset, at most `max_per_minute` fall
-- between `t - minute` and `t`, both included, for any time `t`.
pub run-in_minute :
    (s : YahooFinanceRateLimiter) (es : List Event) (t : ℕ)
    → s.max_per_minute ≤ 1000
    → ClockRises 0 es
    → count (in_minute s.minute t) (run s [] es).1 ≤ s.max_per_minute
run-in_minute s es t small rises =
    run-within s.max_per_minute s.minute 0 s [] es small rises
      (refl, refl, record { covered = λ u h. omega arith; within = λ u. omega arith }) t
