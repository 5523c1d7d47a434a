-- ===== src/Profile/Streaming/Accumulated.antt =====
-- The state of IncrementalSessionVpState within a session, as a function of the session's bars.
use mathlib.Core.Option.{map as map_option}
use finbar.Common.{
  ℕ, ◌≡◌, refl, true, Bool-cases, inl, inr, Option, none, some, List, [], ◌∷◌, ◌++◌, if◌then◌else◌,
  ◌∙◌, sym, ap, arith,
}
use finbar.Simulation.Number.{Number, lt, le, max, min, nought}
use finbar.Profile.Numpy.{Numpy}
use finbar.Profile.Session.{
  Bar, Grid, Volumes, session_bucket_grid, build_volume_profile_result, same_date,
}
use finbar.Profile.Streaming.{
  num_buckets, VpLevels, IncrementalSessionVpState, levels_of, levels_from, extract_levels,
  is_stale, ensure, add_volume, redistribute, store, no_volumes, add_to, update_incremental,
  begin_session, update,
}

module _ {F : Type 0} ⦃num : Number F⦄ where
  -- The highest high and the lowest low so far.
  abbrev pub high_of : F → List (Bar F) → F
  high_of high [] = high
  high_of high (bar ∷ bars) = high_of (max high bar.high) bars

  abbrev pub low_of : F → List (Bar F) → F
  low_of low [] = low
  low_of low (bar ∷ bars) = low_of (min low bar.low) bars

  high_of-snoc :
      (high : F) (bars : List (Bar F)) (bar : Bar F)
      → high_of high (bars ++ bar ∷ []) ≡ max (high_of high bars) bar.high
  high_of-snoc high [] bar = refl
  high_of-snoc high (b ∷ bs) bar = high_of-snoc (max high b.high) bs bar

  low_of-snoc :
      (low : F) (bars : List (Bar F)) (bar : Bar F)
      → low_of low (bars ++ bar ∷ []) ≡ min (low_of low bars) bar.low
  low_of-snoc low [] bar = refl
  low_of-snoc low (b ∷ bs) bar = low_of-snoc (min low b.low) bs bar

pub same_date_refl : (d : Option ℕ) → same_date d d ≡ true
unfolding same_date
same_date_refl none = refl
same_date_refl (some d) = ground arith

pub same_date-eq : (d e : ℕ) → same_date (some d) (some e) ≡ true → d ≡ e
unfolding same_date
same_date-eq d e same = ground arith

module _ {F : Type 0} ⦃num : Number F⦄ ⦃np : Numpy F⦄ where
  redistribute-snoc :
      (grid : Grid F) (volumes : Volumes F) (bars : List (Bar F)) (bar : Bar F)
      → redistribute grid volumes (bars ++ bar ∷ [])
        ≡ add_volume grid (redistribute grid volumes bars) bar
  unfolding redistribute
  redistribute-snoc grid volumes [] bar = refl
  redistribute-snoc grid volumes (b ∷ bs) bar =
      redistribute-snoc grid (add_volume grid volumes b) bs bar

  abbrev pub grid_of : Bar F → List (Bar F) → Grid F
  grid_of first rest =
      session_bucket_grid (high_of first.high rest) (low_of first.low rest) num_buckets

  abbrev pub volumes_of : Bar F → List (Bar F) → Volumes F
  volumes_of first rest = redistribute (grid_of first rest) no_volumes (first ∷ rest)

  abbrev pub found : Bar F → List (Bar F) → Option (VpLevels F)
  found first rest =
      if le (volumes_of first rest).1 nought
      then none
      else map_option levels_of
          (build_volume_profile_result (grid_of first rest) (volumes_of first rest) num_buckets)

  -- The state after the bars of a session.
  abbrev pub snapshot :
      ℕ → Option (VpLevels F) → List (ℕ × F) → Bar F → List (Bar F) → IncrementalSessionVpState F
  snapshot date known pocs first rest = record {
    bars = first ∷ rest;
    session_date = some date;
    last_levels = known;
    volume_profile = some (volumes_of first rest).0;
    total_volume = (volumes_of first rest).1;
    price_buckets = some (grid_of first rest).0;
    bucket_size = (grid_of first rest).1;
    session_high = high_of first.high rest;
    session_low = low_of first.low rest;
    session_pocs = pocs;
  }

  pub ensure-snapshot :
      (date : ℕ) (pocs : List (ℕ × F)) (first : Bar F) (rest : List (Bar F))
      → ensure (snapshot date none pocs first rest)
        ≡ snapshot date (found first rest) pocs first rest
  unfolding ensure is_stale extract_levels levels_from
  ensure-snapshot date pocs first rest = refl

  -- Computing the levels again changes nothing.
  pub ensure-found :
      (date : ℕ) (pocs : List (ℕ × F)) (first : Bar F) (rest : List (Bar F))
      (known : Option (VpLevels F))
      → known ≡ found first rest
      → ensure (snapshot date known pocs first rest) ≡ snapshot date known pocs first rest
  unfolding ensure is_stale
  ensure-found date pocs first rest none same =
      ensure-snapshot date pocs first rest
      ∙ ap (λ levels. snapshot date levels pocs first rest) (sym same)
  ensure-found date pocs first rest (some levels) same = refl

  -- A snapshot by the range of its grid and the bars that are accumulated.
  abbrev shot : ℕ → List (ℕ × F) → List (Bar F) → F → F → Volumes F → IncrementalSessionVpState F
  shot date pocs bars high low volumes = record {
    bars = bars;
    session_date = some date;
    last_levels = none;
    volume_profile = some volumes.0;
    total_volume = volumes.1;
    price_buckets = some (session_bucket_grid high low num_buckets).0;
    bucket_size = (session_bucket_grid high low num_buckets).1;
    session_high = high;
    session_low = low;
    session_pocs = pocs;
  }

  abbrev shot_of : ℕ → List (ℕ × F) → List (Bar F) → F → F → IncrementalSessionVpState F
  shot_of date pocs bars high low =
      shot date pocs bars high low
        (redistribute (session_bucket_grid high low num_buckets) no_volumes bars)

  shot_of-snapshot :
      (date : ℕ) (pocs : List (ℕ × F)) (first bar : Bar F) (rest : List (Bar F))
      → shot_of date pocs
          (first ∷ (rest ++ bar ∷ []))
          (max (high_of first.high rest) bar.high)
          (min (low_of first.low rest) bar.low)
        ≡ snapshot date none pocs first (rest ++ bar ∷ [])
  shot_of-snapshot date pocs first bar rest =
      ap
        (λ high.
          shot_of date pocs (first ∷ (rest ++ bar ∷ [])) high (min (low_of first.low rest) bar.low))
        (sym (high_of-snoc first.high rest bar))
      ∙ ap
          (λ low.
            shot_of date pocs (first ∷ (rest ++ bar ∷ [])) (high_of first.high (rest ++ bar ∷ []))
              low)
          (sym (low_of-snoc first.low rest bar))

  add_to-snapshot :
      (date : ℕ) (pocs : List (ℕ × F)) (first bar : Bar F) (rest : List (Bar F))
      → update_incremental bar
          (record (snapshot date none pocs first rest) { bars = (first ∷ rest) ++ bar ∷ [] })
        ≡ shot_of date pocs
            (first ∷ (rest ++ bar ∷ []))
            (max (high_of first.high rest) bar.high)
            (min (low_of first.low rest) bar.low)
  unfolding update_incremental add_to store
  add_to-snapshot date pocs first bar rest =
      elim (Bool-cases (lt (high_of first.high rest) bar.high)) [
        | inl higher ↦ rw higher refl
        | inr within ↦ elim (Bool-cases (lt bar.low (low_of first.low rest))) [
          | inl lower ↦ rw (within, lower) refl
          | inr inside ↦
              rw (within, inside)
                (ap
                  (shot date pocs (first ∷ (rest ++ bar ∷ [])) (high_of first.high rest)
                    (low_of first.low rest))
                  (sym (redistribute-snoc (grid_of first rest) no_volumes (first ∷ rest) bar)))
        ]
      ]

  abbrev pub taken : IncrementalSessionVpState F → Bar F → IncrementalSessionVpState F
  taken begun bar =
      update_incremental bar (record begun { bars = begun.bars ++ bar ∷ []; last_levels = none })

  begin-same :
      (date : ℕ) (s : IncrementalSessionVpState F)
      → begin_session (some date) (some date) s ≡ record s { session_date = some date }
  unfolding begin_session
  begin-same date s = rw (same_date_refl (some date)) refl

  -- A bar of the same date is taken into the session.
  pub update-same :
      (date : ℕ) (known : Option (VpLevels F)) (pocs : List (ℕ × F)) (first bar : Bar F)
      (rest : List (Bar F))
      → bar.date ≡ some date
      → update (snapshot date known pocs first rest) bar
        ≡ snapshot date none pocs first (rest ++ bar ∷ [])
  unfolding update
  update-same date known pocs first bar rest dated =
      ap (λ d. taken (begin_session d (some date) (snapshot date known pocs first rest)) bar) dated
      ∙ ap (λ s. taken s bar) (begin-same date (snapshot date known pocs first rest))
      ∙ add_to-snapshot date pocs first bar rest
      ∙ shot_of-snapshot date pocs first bar rest
