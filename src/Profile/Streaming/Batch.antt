-- ===== src/Profile/Streaming/Batch.antt =====
-- The state of incremental_session_vp_state.py after a session's bars against the batch profile of
-- those bars by volume_profile.py.
use mathlib.Core.Option.{map as map_option}
use finbar.Common.{
  ℕ, ◌≡◌, refl, true, false, not, Bool-cases, inl, inr, Option, none, some, List, [], ◌∷◌, map,
  length, All, if◌then◌else◌, ◌∙◌, sym, ap,
}
use finbar.Simulation.Number.{Number, lt, le, max, min, nought}
use finbar.Profile.Numpy.{Numpy, zeros}
use finbar.Profile.Area.{ValueArea}
use finbar.Profile.Session.{
  Bar, Grid, Volumes, VolumeProfileResult, session_bucket_grid, build_volume_profile_result,
  profile_result, no_volume, add_positive, add_bars, aggregate_session_volume, last_close,
  session_low, compute_session_volume_profile,
}
use finbar.Profile.Streaming.{
  num_buckets, VpLevels, levels_of, add_volume, redistribute, no_volumes,
}
use finbar.Profile.Streaming.Accumulated.{high_of, low_of, grid_of, volumes_of, found}

-- A left fold.
abbrev pub fold {ℓ} : {A : Type ℓ} → (A → A → A) → A → List A → A
fold f x [] = x
fold f x (y ∷ ys) = fold f (f x y) ys

-- What numpy and pandas document, on the prices that the bars have: the extremes of a column, the
-- number of points of `linspace`; and that the grid of a range is empty where the range is.
pub record IsDocumented (F : Type 0) ⦃num : Number F⦄ ⦃np : Numpy F⦄ (IsPrice : F → Type 0)
    : Type 0 where
  pub series_max_lem :
      (x : F) (xs : List F) → All IsPrice (x ∷ xs) → np.series_max (x ∷ xs) ≡ fold max x xs
  pub series_min_lem :
      (x : F) (xs : List F) → All IsPrice (x ∷ xs) → np.series_min (x ∷ xs) ≡ fold min x xs
  pub length-linspace : (start stop : F) (n : ℕ) → length (np.linspace start stop n) ≡ n
  pub grid_size :
      (high low : F)
      → IsPrice high
      → IsPrice low
      → num.le (session_bucket_grid high low num_buckets).1 nought ≡ num.le high low
  pub nought-le : num.le nought nought ≡ true

module _ {F : Type 0} ⦃num : Number F⦄ where
  -- A bar with prices, a volume that is not NaN, and a date.
  abbrev pub IsClean : (F → Type 0) → Bar F → Type 0
  IsClean IsPrice bar =
      IsPrice bar.high
      × IsPrice bar.low
      × (lt nought bar.volume ≡ not (le bar.volume nought))
      × ((date : ℕ) × (bar.date ≡ some date))

  -- The levels of a batch profile that has volume.
  abbrev pub live : Option (VolumeProfileResult F) → Option (VpLevels F)
  live none = none
  live (some r) = if le r.total_volume nought then none else some (levels_of r)

module _ {F : Type 0} ⦃num : Number F⦄ ⦃np : Numpy F⦄ {IsPrice : F → Type 0}
    (documented : IsDocumented F IsPrice) where
  fold-high :
      (high : F) (bars : List (Bar F))
      → fold max high (map (λ (bar : Bar F). bar.high) bars) ≡ high_of high bars
  fold-high high [] = refl
  fold-high high (bar ∷ bars) = fold-high (max high bar.high) bars

  fold-low :
      (low : F) (bars : List (Bar F))
      → fold min low (map (λ (bar : Bar F). bar.low) bars) ≡ low_of low bars
  fold-low low [] = refl
  fold-low low (bar ∷ bars) = fold-low (min low bar.low) bars

  max_price : (x y : F) → IsPrice x → IsPrice y → IsPrice (max x y)
  max_price x y p q = elim (lt x y) as (λ b. IsPrice (if b then y else x)) [ true ↦ q | false ↦ p ]

  high_of-price :
      (high : F) (bars : List (Bar F))
      → IsPrice high
      → All (IsClean IsPrice) bars
      → IsPrice (high_of high bars)
  high_of-price high [] p clean = p
  high_of-price high (bar ∷ bars) p clean =
      high_of-price (max high bar.high) bars (max_price high bar.high p clean.0.0) clean.1

  low_of-price :
      (low : F) (bars : List (Bar F))
      → IsPrice low
      → All (IsClean IsPrice) bars
      → IsPrice (low_of low bars)
  low_of-price low [] p clean = p
  low_of-price low (bar ∷ bars) p clean =
      low_of-price (min low bar.low) bars
        (elim (lt bar.low low) as (λ b. IsPrice (if b then bar.low else low)) [
          | true ↦ clean.0.1
          | false ↦ p
        ])
        clean.1

  highs-price :
      (bars : List (Bar F))
      → All (IsClean IsPrice) bars
      → All IsPrice (map (λ (bar : Bar F). bar.high) bars)
  highs-price [] clean = tt
  highs-price (bar ∷ bars) clean = (clean.0.0, highs-price bars clean.1)

  lows-price :
      (bars : List (Bar F))
      → All (IsClean IsPrice) bars
      → All IsPrice (map (λ (bar : Bar F). bar.low) bars)
  lows-price [] clean = tt
  lows-price (bar ∷ bars) clean = (clean.0.1, lows-price bars clean.1)

  -- On a grid with a positive bucket size both ways add a bar alike.
  add_positive-eq :
      (grid : Grid F) (volumes : Volumes F) (bar : Bar F)
      → le grid.1 nought ≡ false
      → lt nought bar.volume ≡ not (le bar.volume nought)
      → add_positive grid volumes bar ≡ add_volume grid volumes bar
  unfolding add_positive add_volume
  add_positive-eq grid volumes bar sized real = elim (Bool-cases (le bar.volume nought)) [
    | inl empty ↦ rw (real, empty) (rw (documented.nought-le) refl)
    | inr positive ↦ rw (real, positive, sized) (rw positive refl)
  ]

  add_bars-eq :
      (grid : Grid F) (volumes : Volumes F) (bars : List (Bar F))
      → le grid.1 nought ≡ false
      → All (IsClean IsPrice) bars
      → add_bars grid volumes bars ≡ redistribute grid volumes bars
  unfolding add_bars redistribute
  add_bars-eq grid volumes [] sized clean = refl
  add_bars-eq grid volumes (bar ∷ bars) sized clean =
      ap (λ v. add_bars grid v bars) (add_positive-eq grid volumes bar sized clean.0.2)
      ∙ add_bars-eq grid (add_volume grid volumes bar) bars sized clean.1

  -- On a grid with no bucket size the streaming state takes in nothing.
  redistribute-flat :
      (grid : Grid F) (volumes : Volumes F) (bars : List (Bar F))
      → le grid.1 nought ≡ true
      → redistribute grid volumes bars ≡ volumes
  unfolding redistribute add_volume
  redistribute-flat grid volumes [] flat = refl
  redistribute-flat grid volumes (bar ∷ bars) flat = elim (Bool-cases (le bar.volume nought)) [
    | inl empty ↦ rw empty (redistribute-flat grid volumes bars flat)
    | inr positive ↦ rw (positive, flat) (redistribute-flat grid volumes bars flat)
  ]

  aggregate-eq :
      (first : Bar F) (rest : List (Bar F))
      → le (grid_of first rest).1 nought ≡ false
      → All (IsClean IsPrice) (first ∷ rest)
      → aggregate_session_volume (first ∷ rest) (grid_of first rest) ≡ volumes_of first rest
  unfolding aggregate_session_volume no_volumes session_bucket_grid
  aggregate-eq first rest sized clean =
      ap (λ n. add_bars (grid_of first rest) (zeros n, nought) (first ∷ rest))
        (documented.length-linspace _ _ num_buckets)
      ∙ add_bars-eq (grid_of first rest) (zeros num_buckets, nought) (first ∷ rest) sized clean

  live-build :
      (grid : Grid F) (volumes : Volumes F) (poc_idx : ℕ) (area : Option (ValueArea F))
      → le volumes.1 nought ≡ false
      → live (map_option (profile_result grid volumes num_buckets poc_idx) area)
        ≡ map_option levels_of (map_option (profile_result grid volumes num_buckets poc_idx) area)
  unfolding profile_result
  live-build grid volumes poc_idx none some_volume = refl
  live-build grid volumes poc_idx (some area) some_volume = rw some_volume refl

  live-no_volume :
      (poc vah val bucket_size : F)
      → live (some (no_volume poc vah val bucket_size num_buckets)) ≡ none
  unfolding no_volume
  live-no_volume poc vah val bucket_size = rw (documented.nought-le) refl

  -- The batch profile by the range of its session.
  abbrev batch : F → List (Bar F) → F → F → Option (VolumeProfileResult F)
  batch close bars high low =
      let grid = session_bucket_grid high low num_buckets in
      let volumes = aggregate_session_volume bars grid in
      if le high low
      then some (no_volume high high low nought num_buckets)
      else if le volumes.1 nought
      then some (no_volume close high low grid.1 num_buckets)
      else build_volume_profile_result grid volumes num_buckets

  compute-batch :
      (first : Bar F) (rest : List (Bar F))
      → All (IsClean IsPrice) (first ∷ rest)
      → compute_session_volume_profile (first ∷ rest) num_buckets
        ≡ batch
            (last_close first.close rest)
            (first ∷ rest)
            (high_of first.high rest)
            (low_of first.low rest)
  unfolding compute_session_volume_profile
  compute-batch first rest clean =
      ap
        (λ high.
          batch (last_close first.close rest) (first ∷ rest) high (session_low (first ∷ rest)))
        (documented.series_max_lem first.high _ (clean.0.0, highs-price rest clean.1)
          ∙ fold-high first.high rest)
      ∙ ap (batch (last_close first.close rest) (first ∷ rest) (high_of first.high rest)) (
          documented.series_min_lem first.low _ (clean.0.1, lows-price rest clean.1)
          ∙ fold-low first.low rest)

  grid_of-size :
      (first : Bar F) (rest : List (Bar F))
      → All (IsClean IsPrice) (first ∷ rest)
      → le (grid_of first rest).1 nought ≡ le (high_of first.high rest) (low_of first.low rest)
  grid_of-size first rest clean =
      documented.grid_size _ _ (high_of-price first.high rest clean.0.0 clean.1)
        (low_of-price first.low rest clean.0.1 clean.1)

  volumes_of-flat :
      (first : Bar F) (rest : List (Bar F))
      → le (grid_of first rest).1 nought ≡ true
      → found first rest ≡ none
  unfolding no_volumes
  volumes_of-flat first rest flat =
      rw
        (
          redistribute-flat (grid_of first rest) no_volumes (first ∷ rest) flat,
          documented.nought-le,
        )
        refl

  live-aggregated :
      (first : Bar F) (rest : List (Bar F)) (close : F)
      → le (high_of first.high rest) (low_of first.low rest) ≡ false
      → aggregate_session_volume (first ∷ rest) (grid_of first rest) ≡ volumes_of first rest
      → live (batch close (first ∷ rest) (high_of first.high rest) (low_of first.low rest))
        ≡ found first rest
  unfolding build_volume_profile_result
  live-aggregated first rest close wide same =
      elim (Bool-cases (le (volumes_of first rest).1 nought)) [
        | inl empty ↦ rw (wide, same, empty) (live-no_volume _ _ _ _)
        | inr filled ↦
            rw (wide, same, filled)
              (live-build (grid_of first rest) (volumes_of first rest) _ _ filled)
      ]

  -- The batch profile of a session has the levels that the streaming state finds.
  pub live-compute :
      (first : Bar F) (rest : List (Bar F))
      → All (IsClean IsPrice) (first ∷ rest)
      → live (compute_session_volume_profile (first ∷ rest) num_buckets) ≡ found first rest
  live-compute first rest clean =
      ap live (compute-batch first rest clean)
      ∙ elim (Bool-cases (le (high_of first.high rest) (low_of first.low rest))) [
        | inl flat ↦ rw flat (
            live-no_volume _ _ _ _
            ∙ sym (volumes_of-flat first rest (grid_of-size first rest clean ∙ flat)))
        | inr wide ↦
            live-aggregated first rest (last_close first.close rest) wide
              (aggregate-eq first rest (grid_of-size first rest clean ∙ wide) clean)
      ]
