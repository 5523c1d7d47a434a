-- ===== src/RateLimit/Waiting.antt =====
-- How long a caller of `wait` waits.
use finbar.Common.{
  ℕ, ◌+◌, ◌-◌, ◌≤◌, ◌<◌, ◌≡◌, refl, true, false, Bool, Bool-cases, inl, inr, ltb, Option, none,
  some, List, [], ◌∷◌, length, arith, if◌then◌else◌,
}
use finbar.RateLimit.{
  YahooFinanceRateLimiter, Outcome, granted, sleep, no_request, is_granted, clear_stale,
  oldest_leaves, attempt, backoff_remaining, backoff_phase, admission_phase, wait,
}

abbrev told : Outcome → ℕ
told granted = 0
told (sleep t) = t
told no_request = 0

-- Each pass of the admission phase is later than the one before it, by the sleep that that asked for
-- at least.
abbrev IsPatient : YahooFinanceRateLimiter → List ℕ → Type 0
IsPatient s [] = Unit
IsPatient s (t ∷ []) = Unit
IsPatient s (t ∷ u ∷ ts) =
    (t < u) × (t + told (attempt s t).1 ≤ u) × IsPatient (attempt s t).0 (u ∷ ts)

abbrev StartsFrom : ℕ → List ℕ → Type 0
StartsFrom t [] = Unit
StartsFrom t (u ∷ ts) = t ≤ u

-- In the backoff phase each pass is later by the backoff that remained; the first reading that finds
-- none left ends the phase.
abbrev pub WaitsPatiently : YahooFinanceRateLimiter → List ℕ → Type 0
WaitsPatiently s [] = Unit
WaitsPatiently s (t ∷ ts) =
    if ltb 0 (backoff_remaining s t)
    then StartsFrom (t + backoff_remaining s t) ts × WaitsPatiently s ts
    else IsPatient s ts

abbrev is_some : {A : Type 0} → Option A → Bool
is_some none = false
is_some (some a) = true

length-clear_stale : (minute now : ℕ) (ts : List ℕ) → length (clear_stale minute now ts) ≤ length ts
unfolding clear_stale
length-clear_stale minute now [] = omega arith
length-clear_stale minute now (t ∷ ts) = ground (arith, length-clear_stale minute now ts)

-- Once the oldest request is out of the window, there is room.
attempt-leaves :
    (s : YahooFinanceRateLimiter) (o : ℕ) (os : List ℕ) (t : ℕ)
    → s.request_times ≡ o ∷ os
    → length s.request_times ≤ s.max_per_minute
    → s.last_request_time + s.min_interval ≤ t
    → o + s.minute < t
    → is_granted (attempt s t).1 ≡ true
unfolding attempt clear_stale
attempt-leaves s o os t times small late gone =
    ground (arith, length-clear_stale s.minute t os, times)

attempt-keeps :
    (s : YahooFinanceRateLimiter) (t : ℕ)
    → is_granted (attempt s t).1 ≡ false
    → (attempt s t).0 ≡ record s { request_times = clear_stale s.minute t s.request_times }
unfolding attempt
attempt-keeps s t refused = ground arith

-- A pass after the minimum interval that is not granted finds a full window, and is told to sleep
-- until its oldest request leaves.
attempt-full :
    (s : YahooFinanceRateLimiter) (t : ℕ)
    → 0 < s.max_per_minute
    → s.last_request_time + s.min_interval ≤ t
    → is_granted (attempt s t).1 ≡ false
    → (o : ℕ) × (os : List ℕ) × (clear_stale s.minute t s.request_times ≡ o ∷ os)
      × (told (attempt s t).1 ≡ o + s.minute - t)
unfolding attempt oldest_leaves
attempt-full s t some_allowed late refused = go (clear_stale s.minute t s.request_times) refl
  where
    go :
        (recent : List ℕ)
        → clear_stale s.minute t s.request_times ≡ recent
        → (o : ℕ) × (os : List ℕ) × (clear_stale s.minute t s.request_times ≡ o ∷ os)
          × (told (attempt s t).1 ≡ o + s.minute - t)
    go [] same = absurd (ground arith)
    go (o ∷ os) same = (o, os, same, ground arith)

attempt-early :
    (s : YahooFinanceRateLimiter) (t : ℕ)
    → t < s.last_request_time + s.min_interval
    → (is_granted (attempt s t).1 ≡ false)
      × (t + told (attempt s t).1 ≡ s.last_request_time + s.min_interval)
unfolding attempt
attempt-early s t early = ground arith

admission-granted :
    (s : YahooFinanceRateLimiter) (t : ℕ) (ts : List ℕ)
    → is_granted (attempt s t).1 ≡ true
    → is_some (admission_phase s (t ∷ ts)) ≡ true
unfolding admission_phase
admission-granted s t ts h = ground (arith, h)

admission-later :
    (s : YahooFinanceRateLimiter) (t : ℕ) (ts : List ℕ)
    → is_granted (attempt s t).1 ≡ false
    → is_some (admission_phase (attempt s t).0 ts) ≡ true
    → is_some (admission_phase s (t ∷ ts)) ≡ true
unfolding admission_phase
admission-later s t ts refused h = ground (arith, h, refused)

-- Where no pass is granted, the oldest request is still in the window.
stale-kept :
    (s : YahooFinanceRateLimiter) (o : ℕ) (os : List ℕ) (t : ℕ)
    → s.request_times ≡ o ∷ os
    → length s.request_times ≤ s.max_per_minute
    → s.last_request_time + s.min_interval ≤ t
    → is_granted (attempt s t).1 ≡ false
    → clear_stale s.minute t s.request_times ≡ o ∷ os
unfolding clear_stale
stale-kept s o os t times small late refused = elim (Bool-cases (ltb (o + s.minute) t)) [
  | inl gone ↦
      let granted_now = attempt-leaves s o os t times small late (ground arith) in
      absurd (ground arith)
  | inr held ↦ rw times (ground arith)
]

-- Two passes from when the oldest request is a minute old.
two_passes :
    (s : YahooFinanceRateLimiter) (o : ℕ) (os : List ℕ) (t u : ℕ) (ts : List ℕ)
    → s.request_times ≡ o ∷ os
    → length s.request_times ≤ s.max_per_minute
    → s.last_request_time + s.min_interval ≤ t
    → o + s.minute ≤ t
    → t < u
    → is_some (admission_phase s (t ∷ u ∷ ts)) ≡ true
two_passes s o os t u ts times small late aged later =
    elim (Bool-cases (is_granted (attempt s t).1)) [
      | inl done ↦ admission-granted s t (u ∷ ts) done
      | inr refused ↦
          let kept = attempt-keeps s t refused in
          admission-later s t (u ∷ ts) refused (
            rw kept (
              admission-granted _ u ts (
                attempt-leaves (record s { request_times = clear_stale s.minute t s.request_times })
                  o os u (stale-kept s o os t times small late refused)
                  (omega (arith, small, length-clear_stale s.minute t s.request_times))
                  (omega arith) (omega arith))))
    ]

three_passes :
    (s : YahooFinanceRateLimiter) (t u v : ℕ) (ts : List ℕ)
    → 0 < s.max_per_minute
    → length s.request_times ≤ s.max_per_minute
    → s.last_request_time + s.min_interval ≤ t
    → t < u
    → t + told (attempt s t).1 ≤ u
    → u < v
    → is_some (admission_phase s (t ∷ u ∷ v ∷ ts)) ≡ true
three_passes s t u v ts some_allowed small late later slept last =
    elim (Bool-cases (is_granted (attempt s t).1)) [
      | inl done ↦ admission-granted s t (u ∷ v ∷ ts) done
      | inr refused ↦
          let (o, os, recent, asked) = attempt-full s t some_allowed late refused in
          let kept = attempt-keeps s t refused in
          admission-later s t (u ∷ v ∷ ts) refused (
            rw kept (
              two_passes (record s { request_times = clear_stale s.minute t s.request_times }) o os
                u v ts recent (omega (arith, small, length-clear_stale s.minute t s.request_times))
                (omega arith) (omega (arith, asked, slept)) last))
    ]

four_passes :
    (s : YahooFinanceRateLimiter) (t u v w : ℕ) (ts : List ℕ)
    → 0 < s.max_per_minute
    → length s.request_times ≤ s.max_per_minute
    → IsPatient s (t ∷ u ∷ v ∷ w ∷ ts)
    → is_some (admission_phase s (t ∷ u ∷ v ∷ w ∷ ts)) ≡ true
four_passes s t u v w ts some_allowed small (later, slept, (later', slept', (later'', _, _))) =
    elim (Bool-cases (ltb t (s.last_request_time + s.min_interval))) [
      | inl early ↦
          let (refused, asked) = attempt-early s t (ground arith) in
          let kept = attempt-keeps s t refused in
          admission-later s t (u ∷ v ∷ w ∷ ts) refused (
            rw kept (
              three_passes (record s { request_times = clear_stale s.minute t s.request_times }) u v
                w ts some_allowed
                (omega (arith, small, length-clear_stale s.minute t s.request_times))
                (omega (arith, asked, slept)) later' (rw kept at slept') later''))
      | inr late ↦
          three_passes s t u v (w ∷ ts) some_allowed small (ground arith) later slept later'
    ]

is_some-some : {A : Type 0} (o : Option A) → is_some o ≡ true → (a : A) × (o ≡ some a)
is_some-some none h = absurd (ground arith)
is_some-some (some a) h = (a, refl)

-- When a caller has slept for what remained, no backoff remains.
backoff-over :
    (s : YahooFinanceRateLimiter) (a b : ℕ)
    → a + backoff_remaining s a ≤ b
    → ltb 0 (backoff_remaining s b) ≡ false
unfolding backoff_remaining
backoff-over s a b slept = ground arith

wait-is_some :
    (s : YahooFinanceRateLimiter) (a b t u v w : ℕ) (ts : List ℕ)
    → 0 < s.max_per_minute
    → length s.request_times ≤ s.max_per_minute
    → WaitsPatiently s (a ∷ b ∷ t ∷ u ∷ v ∷ w ∷ ts)
    → is_some (wait s (a ∷ b ∷ t ∷ u ∷ v ∷ w ∷ ts)) ≡ true
unfolding wait backoff_phase
wait-is_some s a b t u v w ts some_allowed small patient =
    elim (Bool-cases (ltb 0 (backoff_remaining s a))) [
      | inr free ↦ rw free (four_passes s b t u v (w ∷ ts) some_allowed small (rw free at patient))
      | inl held ↦
          let (slept, on) = rw held at patient in
          let free : ltb 0 (backoff_remaining s b) ≡ false = backoff-over s a b slept in
          rw (held, free) (four_passes s t u v w ts some_allowed small (rw free at on))
    ]

-- A caller of `wait` that no other caller gets ahead of, and that sleeps as it is told, is granted at
-- its sixth reading of the clock at the latest, the backoff phase included: where any request is allowed
-- at all, the window holds no more than the limit, and the clock moves on between two passes of the
-- admission phase.
pub wait-granted :
    (s : YahooFinanceRateLimiter) (a b t u v w : ℕ) (later : List ℕ)
    → 0 < s.max_per_minute
    → length s.request_times ≤ s.max_per_minute
    → WaitsPatiently s (a ∷ b ∷ t ∷ u ∷ v ∷ w ∷ later)
    → (admitted : YahooFinanceRateLimiter × ℕ) × (wait s (a ∷ b ∷ t ∷ u ∷ v ∷ w ∷ later)
        ≡ some admitted)
wait-granted s a b t u v w later some_allowed small patient =
    is_some-some _ (wait-is_some s a b t u v w later some_allowed small patient)
