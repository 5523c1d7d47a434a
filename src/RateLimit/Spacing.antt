-- ===== src/RateLimit/Spacing.antt =====
-- How far apart the granted requests are.
use finbar.Common.{
  ℕ, ◌+◌, inl, inr, Bool-cases, ◌≤◌, ◌≡◌, refl, List, [], ◌∷◌, ◌++◌, arith, ltb, leb, length,
}
use finbar.RateLimit.{
  YahooFinanceRateLimiter, clear_stale, attempt, on_rate_limit_error, Event, tries, limited,
  note_grant, run,
}
use finbar.RateLimit.Window.{oldest_leaves-note_grant}

-- Each time is at least `d` after the one before it.
abbrev pub Spaced : ℕ → List ℕ → Type 0
Spaced d [] = Unit
Spaced d (t ∷ []) = Unit
Spaced d (t ∷ u ∷ ts) = (t + d ≤ u) × Spaced d (u ∷ ts)

-- No time is above `last`, if it is the last one.
abbrev EndsBy : ℕ → List ℕ → Type 0
EndsBy last [] = Unit
EndsBy last (t ∷ []) = t ≤ last
EndsBy last (t ∷ u ∷ ts) = EndsBy last (u ∷ ts)

Spaced-snoc :
    (d last now : ℕ) (ts : List ℕ)
    → last + d ≤ now
    → EndsBy last ts
    → Spaced d ts
    → Spaced d (ts ++ now ∷ []) × EndsBy now (ts ++ now ∷ [])
Spaced-snoc d last now [] h ends spaced = (tt, omega arith)
Spaced-snoc d last now (t ∷ []) h ends spaced = ((omega arith, tt), omega arith)
Spaced-snoc d last now (t ∷ u ∷ ts) h ends spaced =
    let (rest, ends') = Spaced-snoc d last now (u ∷ ts) h ends spaced.1 in ((spaced.0, rest), ends')

abbrev IsSpaced : ℕ → YahooFinanceRateLimiter → List ℕ → Type 0
IsSpaced d s grants = (s.min_interval ≡ d) × EndsBy s.last_request_time grants × Spaced d grants

attempt-IsSpaced :
    (d now : ℕ) (s : YahooFinanceRateLimiter) (grants : List ℕ)
    → IsSpaced d s grants
    → IsSpaced d (attempt s now).0 (note_grant (attempt s now).1 now grants)
unfolding attempt note_grant
attempt-IsSpaced d now s grants (same, ends, spaced) =
    let recent = clear_stale s.minute now s.request_times in
    elim (Bool-cases (ltb now (s.last_request_time + s.min_interval))) [
      | inl early ↦ rw early (same, ends, spaced)
      | inr late ↦ elim (Bool-cases (leb s.max_per_minute (length recent))) [
        | inl full ↦
            rw (late, full, oldest_leaves-note_grant s.minute now recent grants)
              (same, ends, spaced)
        | inr room ↦
            let passed : s.last_request_time + d ≤ now = ground arith in
            let (next, ends') = Spaced-snoc d s.last_request_time now grants passed ends spaced in
            rw (late, room) (same, ends', next)
      ]
    ]

run-IsSpaced :
    (d : ℕ) (s : YahooFinanceRateLimiter) (grants : List ℕ) (es : List Event)
    → IsSpaced d s grants
    → Spaced d (run s grants es).1
unfolding run on_rate_limit_error
run-IsSpaced d s grants [] (same, ends, spaced) = spaced
run-IsSpaced d s grants (tries now ∷ es) h =
    run-IsSpaced d (attempt s now).0 (note_grant (attempt s now).1 now grants) es
      (attempt-IsSpaced d now s grants h)
run-IsSpaced d s grants (limited now attempts ∷ es) h =
    run-IsSpaced d (on_rate_limit_error s now attempts).0 grants es h

-- Any two requests that are granted one after the other, with no reset between, are at least the
-- minimum interval apart, however the callers' passes and the 429 answers are interleaved and however
-- the clock moves.
pub run-Spaced :
    (s : YahooFinanceRateLimiter) (es : List Event) → Spaced s.min_interval (run s [] es).1
run-Spaced s es = run-IsSpaced s.min_interval s [] es (refl, tt, tt)
