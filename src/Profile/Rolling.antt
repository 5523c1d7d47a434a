-- ===== src/Profile/Rolling.antt =====
-- compute_rolling_window_vp (finbar_strategy_runtime/domain/services/volume_profile.py): the volume
-- profile of a trailing window of bars, kept up by adding the bar that comes and subtracting the one
-- that leaves.
pub mod Ring
pub mod Totals
pub mod Exact
pub mod Scratch
use finbar.Common.{
  ℕ, zero, suc, ◌+◌, ◌%◌, ◌&&◌, ◌||◌, Option, none, some, List, [], ◌∷◌, map, length, ltb, leb,
  if◌then◌else◌,
}
use mathlib.Core.Option.{map as map_option}
use finbar.Simulation.Number.{Number, ◌-◌, lt, le, nought}
use finbar.Simulation.Number as Floats
use finbar.Profile.Numpy.{Numpy, zeros, add_arrays, item}
use finbar.Profile.Area.{ValueArea, expand_value_area}
use finbar.Profile.Session.{
  Bar, Grid, distribute_bar_volume, session_bucket_grid, session_high, session_low,
}
use finbar.Profile.Rolling.Ring.{slide, replicate}

-- One row of the three columns.
pub record Levels (F : Type 0) : Type 0 where
  pub poc : F
  pub vah : F
  pub val : F

-- What the loop carries: the running profile with the buffer of contributions, and the running volume
-- with the buffer of volumes.
pub record Window (F : Type 0) : Type 0 where
  pub profile : List F × List (List F)
  pub volume : F × List F

module _ {F : Type 0} ⦃num : Number F⦄ where
  -- `xs -= ys`, on arrays of one length.
  unfoldable pub sub_arrays : List F → List F → List F
  sub_arrays [] ys = []
  sub_arrays (x ∷ xs) [] = x ∷ xs
  sub_arrays (x ∷ xs) (y ∷ ys) = (x - y) ∷ sub_arrays xs ys

  abbrev pub counted_volume : Bar F → F
  counted_volume bar = if lt nought bar.volume then bar.volume else nought

  unfoldable pub empty_window : ℕ → ℕ → Window F
  empty_window window_bars num_buckets = record {
    profile = (zeros num_buckets, replicate window_bars (zeros num_buckets));
    volume = (nought, replicate window_bars nought);
  }

module _ {F : Type 0} ⦃num : Number F⦄ ⦃np : Numpy F⦄ where
  unfoldable pub levels_at : Grid F → ℕ → ValueArea F → Levels F
  levels_at (price_buckets, bucket_size) poc_idx area = record {
    poc = item price_buckets poc_idx;
    vah = Floats.◌+◌ (item price_buckets area.upper_idx) (num.div bucket_size (num.of_nat 2));
    val = item price_buckets area.lower_idx - num.div bucket_size (num.of_nat 2);
  }

  unfoldable pub extract_poc_vah_val : Grid F → List F → F → Option (Levels F)
  unfolding levels_at
  extract_poc_vah_val grid profile total_volume =
      let poc_idx = np.argmax profile in
      if le total_volume nought
      then none
      else map_option (levels_at grid poc_idx)
          (expand_value_area profile poc_idx total_volume (num.thousandths 680))

  -- The grid of the whole frame, or `none` where its price range is empty.
  unfoldable pub global_bucket_grid : List (Bar F) → ℕ → Option (Grid F)
  global_bucket_grid bars num_buckets =
      if le (session_high bars) (session_low bars)
      then none
      else some (session_bucket_grid (session_high bars) (session_low bars) num_buckets)

  abbrev pub contribution : Grid F → Bar F → List F
  contribution grid bar = distribute_bar_volume bar (counted_volume bar) grid

  -- The windows after bar `i`.
  unfoldable pub slide_window : Grid F → ℕ → ℕ → ℕ → Window F → Bar F → Window F
  unfolding slide
  slide_window grid num_buckets window_bars i w bar = record {
    profile =
        slide add_arrays sub_arrays (zeros num_buckets) window_bars i w.profile
          (contribution grid bar);
    volume = slide num.add num.sub nought window_bars i w.volume (counted_volume bar);
  }

  -- A row is filled once the window is full, if there is volume in it.
  unfoldable pub row_of : Grid F → ℕ → ℕ → List F → F → Option (Levels F)
  unfolding extract_poc_vah_val
  row_of grid window_bars i profile volume =
      if leb window_bars (suc i) && lt nought volume
      then extract_poc_vah_val grid profile volume
      else none

  unfoldable pub rolling_rows :
      Grid F → ℕ → ℕ → ℕ → Window F → List (Bar F) → List (Option (Levels F))
  unfolding slide_window row_of
  rolling_rows grid num_buckets window_bars i w [] = []
  rolling_rows grid num_buckets window_bars i w (bar ∷ bars) =
      let w' = slide_window grid num_buckets window_bars i w bar in
      row_of grid window_bars i w'.profile.0 w'.volume.0
      ∷ rolling_rows grid num_buckets window_bars (suc i) w' bars

  unfoldable pub flat_rows : F → ℕ → ℕ → List (Bar F) → List (Option (Levels F))
  flat_rows price window_bars i [] = []
  flat_rows price window_bars i (bar ∷ bars) =
      (if leb window_bars (suc i)
        then some (record { poc = price; vah = price; val = price })
        else none)
      ∷ flat_rows price window_bars (suc i) bars

  abbrev pub no_rows : List (Bar F) → List (Option (Levels F))
  no_rows = map (λ bar. none)

  -- Where all bars have one price, that is the level of every full window.
  unfoldable pub rows_without_grid : ℕ → ℕ → List (Bar F) → List (Option (Levels F))
  unfolding flat_rows
  rows_without_grid window_bars num_buckets [] = []
  rows_without_grid window_bars num_buckets (bar ∷ bars) =
      if ltb 0 num_buckets
      then flat_rows bar.close window_bars 0 (bar ∷ bars)
      else no_rows (bar ∷ bars)

  unfoldable pub rows_on : Option (Grid F) → ℕ → ℕ → List (Bar F) → List (Option (Levels F))
  unfolding rows_without_grid rolling_rows empty_window
  rows_on none window_bars num_buckets bars = rows_without_grid window_bars num_buckets bars
  rows_on (some grid) window_bars num_buckets bars =
      rolling_rows grid num_buckets window_bars 0 (empty_window window_bars num_buckets) bars

  unfoldable pub compute_rolling_window_vp : List (Bar F) → ℕ → ℕ → List (Option (Levels F))
  unfolding rows_on global_bucket_grid
  compute_rolling_window_vp bars window_bars num_buckets =
      if ltb (length bars) window_bars || ltb window_bars 1
      then no_rows bars
      else rows_on (global_bucket_grid bars num_buckets) window_bars num_buckets bars
