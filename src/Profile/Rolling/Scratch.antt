-- ===== src/Profile/Rolling/Scratch.antt =====
-- The rows of compute_rolling_window_vp against a computation of every window from scratch.
use finbar.Common.{
  ℕ, zero, suc, ◌-◌, ◌≤◌, ◌<◌, ◌≡◌, refl, false, ◌&&◌, ◌||◌, Option, none, some, List, [], ◌∷◌,
  ◌++◌, map, length, drop, leb, ltb, if◌then◌else◌, ◌∙◌, ap, arith, length-append, Bool-cases, inl,
  inr,
}
use mathlib.Core.List.{map-append}
use finbar.Simulation.Number.{Number, lt, le, nought}
use finbar.Profile.Numpy.{Numpy, zeros, add_arrays, set_item}
use finbar.Profile.Session.{
  Bar, Grid, distribute_bar_volume, nearest_bucket, scale_density, density, parkinson_sigma,
}
use finbar.Profile.Rolling.Ring.{total}
use finbar.Profile.Rolling.Totals.{Holds, start_Holds, step_Holds, Holds-total}
use finbar.Profile.Rolling.Exact.{IsExact, arrays-IsAdditive, numbers-IsAdditive, length-zeros}
use finbar.Profile.Rolling.{
  Levels, Window, sub_arrays, counted_volume, contribution, empty_window, extract_poc_vah_val,
  slide_window, row_of, rolling_rows, rows_on, global_bucket_grid, compute_rolling_window_vp,
}

module _ {F : Type 0} ⦃num : Number F⦄ where
  length-set_item : (xs : List F) (i : ℕ) (y : F) → length (set_item xs i y) ≡ length xs
  unfolding set_item
  length-set_item [] i y = refl
  length-set_item (x ∷ xs) zero y = refl
  length-set_item (x ∷ xs) (suc i) y = ap suc (length-set_item xs i y)

module _ {F : Type 0} ⦃num : Number F⦄ ⦃np : Numpy F⦄ where
  length-nearest_bucket :
      (tp volume : F) (prices : List F) → length (nearest_bucket tp volume prices) ≡ length prices
  unfolding nearest_bucket
  length-nearest_bucket tp volume [] = refl
  length-nearest_bucket tp volume (p ∷ ps) =
      length-set_item (zeros (suc (length ps))) _ volume ∙ length-zeros F (suc (length ps))

  length-scale_density :
      (f : F → F) (whole volume : F) (prices : List F)
      → length (scale_density whole volume (map f prices)) ≡ length prices
  unfolding scale_density
  length-scale_density f whole volume [] = refl
  length-scale_density f whole volume (p ∷ ps) = ap suc (length-scale_density f whole volume ps)

  -- A bar's volume is distributed over all the buckets.
  length-distribute_bar_volume :
      (bar : Bar F) (volume : F) (grid : Grid F)
      → length (distribute_bar_volume bar volume grid) ≡ length grid.0
  unfolding distribute_bar_volume
  length-distribute_bar_volume bar volume (prices, size) =
      let tp = num.div (num.add (num.add bar.high bar.low) bar.close) (num.of_nat 3) in
      let sigma = parkinson_sigma bar.high bar.low in
      let whole = np.array_sum (map (density bar tp sigma size) prices) in
      elim (Bool-cases (le sigma nought || le volume nought)) [
        | inl flat ↦ rw flat (length-nearest_bucket tp volume prices)
        | inr spread ↦ elim (Bool-cases (le whole nought)) [
          | inl empty ↦ rw (spread, empty) (length-zeros F (length prices))
          | inr dense ↦
              rw (spread, dense)
                (length-scale_density (density bar tp sigma size) whole volume prices)
        ]
      ]

  -- The sum of what the last bars contribute, and of their volumes.
  abbrev window_profile : Grid F → ℕ → ℕ → List (Bar F) → List F
  window_profile grid num_buckets window_bars bars =
      total add_arrays sub_arrays (zeros num_buckets)
        (drop (length bars - window_bars) (map (contribution grid) bars))

  abbrev window_volume : ℕ → List (Bar F) → F
  window_volume window_bars bars =
      total num.add num.sub nought (drop (length bars - window_bars) (map counted_volume bars))

  -- The row of the last of some bars, from the bars of its window alone.
  abbrev scratch_row : Grid F → ℕ → ℕ → List (Bar F) → Option (Levels F)
  scratch_row grid num_buckets window_bars bars =
      if leb window_bars (length bars) && lt nought (window_volume window_bars bars)
      then extract_poc_vah_val grid (window_profile grid num_buckets window_bars bars)
          (window_volume window_bars bars)
      else none

  abbrev pub scratch_rows : Grid F → ℕ → ℕ → List (Bar F) → List (Bar F) → List (Option (Levels F))
  scratch_rows grid num_buckets window_bars seen [] = []
  scratch_rows grid num_buckets window_bars seen (bar ∷ bars) =
      scratch_row grid num_buckets window_bars (seen ++ bar ∷ [])
      ∷ scratch_rows grid num_buckets window_bars (seen ++ bar ∷ []) bars

module _ {F : Type 0} ⦃num : Number F⦄ ⦃np : Numpy F⦄ (exact : IsExact F) (grid : Grid F)
    (num_buckets w : ℕ) (sized : length grid.0 ≡ num_buckets) where
  -- The two buffers hold what the last bars gave.
  abbrev HoldsBars : List (Bar F) → Window F → Type 0
  HoldsBars seen state =
      Holds (arrays-IsAdditive exact num_buckets) w (length seen) (map (contribution grid) seen)
        state.profile
      × Holds (numbers-IsAdditive exact) w (length seen) (map counted_volume seen) state.volume

  length-snoc : (seen : List (Bar F)) (bar : Bar F) → length (seen ++ bar ∷ []) ≡ suc (length seen)
  length-snoc seen bar = omega (arith, length-append seen (bar ∷ []))

  slide_window-HoldsBars :
      (seen : List (Bar F)) (state : Window F) (bar : Bar F)
      → HoldsBars seen state
      → HoldsBars (seen ++ bar ∷ []) (slide_window grid num_buckets (suc w) (length seen) state bar)
  unfolding slide_window
  slide_window-HoldsBars seen state bar (profile, volume) = (
    rw (length-snoc seen bar, map-append (contribution grid) seen (bar ∷ []))
        (step_Holds (arrays-IsAdditive exact num_buckets) w (length seen) _ state.profile _ profile
          (length-distribute_bar_volume bar (counted_volume bar) grid ∙ sized)),
    rw (length-snoc seen bar, map-append counted_volume seen (bar ∷ []))
        (step_Holds (numbers-IsAdditive exact) w (length seen) _ state.volume _ volume tt),
  )

  row_of-scratch :
      (seen : List (Bar F)) (state : Window F) (bar : Bar F) (i : ℕ)
      → suc i ≡ length (seen ++ bar ∷ [])
      → HoldsBars (seen ++ bar ∷ []) state
      → row_of grid (suc w) i state.profile.0 state.volume.0
        ≡ scratch_row grid num_buckets (suc w) (seen ++ bar ∷ [])
  unfolding row_of
  row_of-scratch seen state bar i same (profile, volume) =
      elim (Bool-cases (leb (suc w) (length (seen ++ bar ∷ [])))) [
        | inr early ↦ rw (same, early) refl
        | inl full ↦
            let enough : suc w ≤ length (seen ++ bar ∷ []) = ground arith in
            rw
              (
                same,
                full,
                Holds-total (arrays-IsAdditive exact num_buckets) w _ _ _ profile enough,
                Holds-total (numbers-IsAdditive exact) w _ _ _ volume enough,
              )
              refl
      ]

  rolling_rows-scratch :
      (seen bars : List (Bar F)) (state : Window F) (i : ℕ)
      → i ≡ length seen
      → HoldsBars seen state
      → rolling_rows grid num_buckets (suc w) i state bars
        ≡ scratch_rows grid num_buckets (suc w) seen bars
  unfolding rolling_rows
  rolling_rows-scratch seen [] state i same held = refl
  rolling_rows-scratch seen (bar ∷ bars) state i same held =
      let state' = slide_window grid num_buckets (suc w) i state bar in
      let held' : HoldsBars (seen ++ bar ∷ []) state' =
        rw same (slide_window-HoldsBars seen state bar held) in
      let next : suc i ≡ length (seen ++ bar ∷ []) = omega (arith, length-snoc seen bar) in
      ap (λ row. row ∷ rolling_rows grid num_buckets (suc w) (suc i) state' bars)
        (row_of-scratch seen state' bar i next held')
      ∙ ap (λ rows. scratch_row grid num_buckets (suc w) (seen ++ bar ∷ []) ∷ rows)
          (rolling_rows-scratch (seen ++ bar ∷ []) bars state' (suc i) next held')

module _ {F : Type 0} ⦃num : Number F⦄ ⦃np : Numpy F⦄ where
  -- Without rounding, on a frame whose bars do not all have one price and fill the window, the rows
  -- that come of adding the new bar and subtracting the one that leaves are those of a computation of
  -- every full window from scratch: of the sums of what its bars alone contribute.
  pub compute_rolling_window_vp-scratch :
      (bars : List (Bar F)) (window_bars num_buckets : ℕ) (grid : Grid F)
      → IsExact F
      → global_bucket_grid bars num_buckets ≡ some grid
      → length grid.0 ≡ num_buckets
      → 0 < window_bars
      → window_bars ≤ length bars
      → compute_rolling_window_vp bars window_bars num_buckets
        ≡ scratch_rows grid num_buckets window_bars [] bars
  unfolding compute_rolling_window_vp rows_on empty_window
  compute_rolling_window_vp-scratch bars zero num_buckets grid exact spans sized positive fills =
      absurd (omega arith)
  compute_rolling_window_vp-scratch bars (suc w) num_buckets grid exact spans sized positive fills =
      let enough : (ltb (length bars) (suc w) || ltb (suc w) 1) ≡ false = ground arith in
      rw (enough, spans)
        (rolling_rows-scratch exact grid num_buckets w sized [] bars
          (empty_window (suc w) num_buckets) 0 refl
          (
            start_Holds (arrays-IsAdditive exact num_buckets) w,
            start_Holds (numbers-IsAdditive exact) w,
          ))
